-- ===== src/Telemetry/Buffer.antt =====
-- manga_manager/infrastructure/provider_telemetry.py: `BufferedTelemetryObserver`. The oldest sample
-- stands first; the lock and the executor have no counterpart.
use manga_manager.Prelude.{
  ℕ, ◌-◌, List, [], ◌∷◌, ◌++◌, length, take, zero, suc, max, ◌==◌, nat_eq, if◌then◌else◌, Option,
  none, some,
}
use manga_manager.Telemetry.Rows.{Telemetry}
use manga_manager.Telemetry.Samples.{Sample, record_samples}

pub record Buffer : Type 0 where
  pub samples : List Sample
  pub max_samples : ℕ
  pub batch_size : ℕ

abbrev pub drop {ℓ} : {A : Type ℓ} → ℕ → List A → List A
drop zero xs = xs
drop (suc n) [] = []
drop (suc n) (x ∷ xs) = drop n xs

-- `__init__`: the sizes are at least 1.
abbrev pub new_buffer : ℕ → ℕ → Buffer
new_buffer max_samples batch_size = record {
  samples = [];
  max_samples = max 1 max_samples;
  batch_size = max 1 batch_size;
}

-- `observe`: a full buffer drops its oldest sample.
unfoldable pub observe : Sample → Buffer → Buffer
observe s b =
    let all = b.samples ++ s ∷ [] in record b { samples = drop (length all - b.max_samples) all }

-- `flush`: the oldest samples, a batch at most, go to the database.
abbrev pub batch_of : Buffer → List Sample
batch_of b = take b.batch_size b.samples

abbrev pub rest_of_batch : Buffer → Buffer
rest_of_batch b = record b { samples = drop b.batch_size b.samples }

unfoldable pub flush : Buffer → Telemetry → ℕ → (Buffer × Telemetry) × ℕ
flush b t now = let (d, count) = record_samples t (batch_of b) now in ((rest_of_batch b, d), count)

-- The loop after the stop: flush until a flush writes nothing. `none` would be a loop that does not
-- end within the rounds.
unfoldable pub drain : ℕ → Buffer → Telemetry → ℕ → Option (Buffer × Telemetry)
drain zero b t now = none
drain (suc rounds) b t now =
    let ((c, d), count) = flush b t now in
    let rest = drain rounds c d now in if count == 0 then some (c, d) else rest
