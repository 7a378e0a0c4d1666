-- ===== src/Telemetry/Samples.antt =====
-- manga_manager/infrastructure/provider_telemetry.py: `ProviderTelemetry` writes what requests report.
use manga_manager.Prelude.{
  ℕ, ◌+◌, ◌*◌, ◌-◌, Bool, true, false, not, ◌&&◌, ◌||◌, List, [], ◌∷◌, ◌++◌, Option, none, some,
  Text, txt, ◌==◌, nat_eq, text_eq, ltb, if◌then◌else◌, max, keep, find, update_where, contains,
  count_if, length, is_empty, strip,
}
use manga_manager.Queue.Routing.{decimal_text}
use manga_manager.Requests.Reserve.{known_sources}
use manga_manager.Telemetry.Rows.{
  BenchmarkRun, RequestSample, RunState, running, Telemetry, limited, succeeded, inconclusive,
}

-- What a request reports; absent values are empty or 0, which `or` treats alike.
pub record Sample : Type 0 where
  pub source : Text
  pub host : Text
  pub status_code : ℕ
  pub latency_ms : ℕ
  pub byte_count : ℕ
  pub error_code : Text
  pub retry_after_seconds : Option ℕ

abbrev pub is_in_progress : RunState → Bool
is_in_progress running = true
is_in_progress limited = false
is_in_progress succeeded = false
is_in_progress inconclusive = false

abbrev pub has_failed : Sample → Bool
has_failed s = not (is_empty s.error_code) || contains (403 ∷ 429 ∷ 503 ∷ []) s.status_code

-- `f"HTTP {status_code} {error_code}".strip()`
abbrev pub signal_of : Sample → Text
signal_of s = strip (txt "HTTP " ++ decimal_text s.status_code ++ txt " " ++ s.error_code)

-- The run that a sample counts for: the counters, and the first failure as the limiting signal.
abbrev pub count_sample : Sample → BenchmarkRun → BenchmarkRun
count_sample s r = record r {
  request_count = r.request_count + 1;
  failure_count = r.failure_count + (if has_failed s then 1 else 0);
  success_count = r.success_count + (if has_failed s then 0 else 1);
  limiting_signal =
      if has_failed s && is_empty r.limiting_signal then signal_of s else r.limiting_signal;
}

-- `active_runs`: of the running runs of a source the one with the greatest id stays.
abbrev pub newest : Text → BenchmarkRun → BenchmarkRun → Bool
newest source best r = ltb best.id r.id

unfoldable pub active_run : Text → List BenchmarkRun → Option BenchmarkRun
active_run source [] = none
active_run source (r ∷ rs) =
    let rest = active_run source rs in
    if r.source == source && is_in_progress r.state
    then elim rest [ none ↦ some r | some best ↦ some (if newest source best r then r else best) ]
    else rest

abbrev pub is_run : ℕ → BenchmarkRun → Bool
is_run id r = r.id == id

abbrev pub sample_row : Option ℕ → Text → Text → ℕ → Sample → RequestSample
sample_row run_id source error_code now s = record {
  run_id = run_id;
  source = source;
  host = s.host;
  status_code = s.status_code;
  latency_ms = s.latency_ms;
  byte_count = s.byte_count;
  error_code = error_code;
  retry_after_seconds = s.retry_after_seconds;
  created_at = now;
}

-- One sample of `record_samples`. The source looks the run of the sample up among the runs that
-- were running when the batch began; counting keeps a run running, so this is the same run.
unfoldable pub record_sample : ℕ → Sample → Telemetry → Telemetry
record_sample now s t =
    let error = if has_failed s then s.error_code else [] in
    elim (active_run s.source t.runs) [
      | none ↦ record t { samples = sample_row none s.source error now s ∷ t.samples }
      | some r ↦ record t {
        runs = update_where (is_run r.id) (count_sample s) t.runs;
        samples = sample_row (some r.id) s.source error now s ∷ t.samples;
      }
    ]

unfoldable pub record_all : ℕ → List Sample → Telemetry → Telemetry
record_all now [] t = t
record_all now (s ∷ ss) t = record_all now ss (record_sample now s t)

abbrev pub is_known : Sample → Bool
is_known s = contains known_sources s.source

unfoldable pub record_samples : Telemetry → List Sample → ℕ → Telemetry × ℕ
record_samples t samples now =
    let rows = keep is_known samples in (record_all now rows t, length rows)

-- `observer`: the callback of one run.
unfoldable pub observe_run : Telemetry → ℕ → Sample → ℕ → Telemetry
observe_run t run_id s now = elim (find (is_run run_id) t.runs) [
  | none ↦ t
  | some r ↦
      if is_in_progress r.state
      then record t {
        runs = update_where (is_run run_id) (count_sample s) t.runs;
        samples = sample_row (some r.id) r.source s.error_code now s ∷ t.samples;
      }
      else t
]

-- `cleanup_samples`, with the microseconds of a day.
abbrev pub day : ℕ
day = 86400000000

unfoldable pub cleanup_samples : Telemetry → ℕ → ℕ → Telemetry × ℕ
cleanup_samples t days now =
    let cutoff = now - max 1 days * day in
    (
      record t { samples = keep (λ s. not (ltb s.created_at cutoff)) t.samples },
      count_if (λ s. ltb s.created_at cutoff) t.samples,
    )
