-- ===== src/Telemetry/Drain.antt =====
-- manga_manager/infrastructure/provider_telemetry.py: the buffer of samples loses only the oldest of
-- too many, and the loop after the stop ends.
use manga_manager.Prelude.{
  ◌≡◌, ◌≤◌, ◌<◌, ℕ, ◌-◌, ◌+◌, List, [], ◌∷◌, ◌++◌, length, take, zero, suc, refl, arith, true, some,
  keep, ap, ◌∙◌, sym, All, Bool-cases, ◌==◌, inl, nat_beq_iff, inr, nat_eq,
}
use manga_manager.Telemetry.Rows.{Telemetry}
use manga_manager.Telemetry.Samples.{Sample, record_samples, record_all, is_known, record_sample}
use manga_manager.Telemetry.Buffer.{Buffer, drop, observe, flush, drain, rest_of_batch}

module _ {A : Type 0} where
  length-append : (xs ys : List A) → length (xs ++ ys) ≡ length xs + length ys
  length-append [] ys = omega arith
  length-append (x ∷ xs) ys = omega (arith, length-append xs ys)

  length-drop : (n : ℕ) (xs : List A) → length (drop n xs) ≡ length xs - n
  length-drop zero xs = omega arith
  length-drop (suc n) [] = omega arith
  length-drop (suc n) (x ∷ xs) = omega (arith, length-drop n xs)

  drop-nil : (n : ℕ) → drop {A = A} n [] ≡ []
  drop-nil zero = refl
  drop-nil (suc n) = refl

  drop-append : (n : ℕ) (xs ys : List A) → n ≤ length xs → drop n xs ++ ys ≡ drop n (xs ++ ys)
  drop-append zero xs ys h = refl
  drop-append (suc n) [] ys h = absurd (omega arith)
  drop-append (suc n) (x ∷ xs) ys h = drop-append n xs ys (omega arith)

  drop-drop : (m n : ℕ) (xs : List A) → drop m (drop n xs) ≡ drop (n + m) xs
  drop-drop m zero xs = ap (λ k. drop k xs) (omega arith)
  drop-drop m (suc n) [] = drop-nil m ∙ sym (drop-nil (suc n + m))
  drop-drop m (suc n) (x ∷ xs) =
      drop-drop m n xs
      ∙ ap (λ k. drop k (x ∷ xs)) (let e : suc (n + m) ≡ suc n + m = omega arith in e)

  append-nil : (xs : List A) → xs ++ [] ≡ xs
  append-nil [] = refl
  append-nil (x ∷ xs) = ap (◌∷◌ x) (append-nil xs)

  append-cons : (xs : List A) (y : A) (ys : List A) → (xs ++ y ∷ []) ++ ys ≡ xs ++ y ∷ ys
  append-cons [] y ys = refl
  append-cons (x ∷ xs) y ys = ap (◌∷◌ x) (append-cons xs y ys)

  take-drop : (n : ℕ) (xs : List A) → take n xs ++ drop n xs ≡ xs
  unfolding take
  take-drop zero xs = refl
  take-drop (suc n) [] = refl
  take-drop (suc n) (x ∷ xs) = ap (◌∷◌ x) (take-drop n xs)

-- The samples that callbacks hand over one after the other.
abbrev pub observe_all : List Sample → Buffer → Buffer
observe_all [] b = b
observe_all (s ∷ ss) b = observe_all ss (observe s b)

-- After any samples, a buffer that held no more than its bound holds what it held followed by those
-- samples, without the oldest that exceed the bound.
pub observe_all-latest :
    (ss : List Sample) (b : Buffer)
    → length b.samples ≤ b.max_samples
    → (observe_all ss b).samples ≡ drop (length (b.samples ++ ss) - b.max_samples) (b.samples ++ ss)
unfolding observe
observe_all-latest [] b h =
    let fits : length (b.samples ++ []) - b.max_samples ≡ 0 =
      omega (arith, length-append b.samples []) in
    sym (append-nil b.samples) ∙ ap (λ n. drop n (b.samples ++ [])) (sym fits)
observe_all-latest (s ∷ ss) b h =
    let held = b.samples ++ s ∷ [] in
    let more = b.samples ++ s ∷ ss in
    let over = length held - b.max_samples in
    let short = length-append b.samples (s ∷ []) in
    let long = length-append b.samples (s ∷ ss) in
    let kept = length-drop over held in
    let joined : drop over held ++ ss ≡ drop over more =
      drop-append over held ss (omega arith) ∙ ap (drop over) (append-cons b.samples s ss) in
    let rest = length-drop over more in
    observe_all-latest ss (observe s b) (omega arith)
    ∙ ap (λ xs. drop (length xs - b.max_samples) xs) joined
    ∙ drop-drop (length (drop over more) - b.max_samples) over more
    ∙ ap (λ n. drop n more) (omega arith)

abbrev Known : List Sample → Type 0
Known ss = All (λ s. is_known s ≡ true) ss

keep-Known : (ss : List Sample) → Known ss → keep is_known ss ≡ ss
unfolding keep
keep-Known [] k = refl
keep-Known (s ∷ ss) k = rw k.0 (ap (◌∷◌ s) (keep-Known ss k.1))

take-Known : (n : ℕ) (ss : List Sample) → Known ss → Known (take n ss)
unfolding take
take-Known zero ss k = tt
take-Known (suc n) [] k = tt
take-Known (suc n) (s ∷ ss) k = (k.0, take-Known n ss k.1)

drop-Known : (n : ℕ) (ss : List Sample) → Known ss → Known (drop n ss)
drop-Known zero ss k = k
drop-Known (suc n) [] k = tt
drop-Known (suc n) (s ∷ ss) k = drop-Known n ss k.1

record_all-append :
    (now : ℕ) (ss us : List Sample) (t : Telemetry)
    → record_all now us (record_all now ss t) ≡ record_all now (ss ++ us) t
unfolding record_all
record_all-append now [] us t = refl
record_all-append now (s ∷ ss) us t = record_all-append now ss us (record_sample now s t)

nil_of_length : (ss : List Sample) → length ss ≡ 0 → ss ≡ []
nil_of_length [] h = refl
nil_of_length (s ∷ ss) h = absurd (omega arith)

-- Of samples from known providers, the loop after the stop, with a batch of at least one, ends
-- within one round more than there are samples, leaves an empty buffer, and the database is that
-- of recording each sample on its own, the oldest first.
pub drain_ends :
    (rounds : ℕ) (b : Buffer) (t : Telemetry) (now : ℕ)
    → All (λ s. is_known s ≡ true) b.samples
    → 0 < b.batch_size
    → length b.samples < rounds
    → drain rounds b t now ≡ some (record b { samples = [] }, record_all now b.samples t)
unfolding drain flush record_samples
drain_ends zero b t now known p h = absurd (omega arith)
drain_ends (suc rounds) b t now known p h =
    let batch = take b.batch_size b.samples in
    let rest = drop b.batch_size b.samples in
    let all_known = keep-Known batch (take-Known b.batch_size b.samples known) in
    let split = take-drop b.batch_size b.samples in
    let sizes = ap length split in
    let lengths = length-append batch rest in
    let left = length-drop b.batch_size b.samples in
    elim (Bool-cases (length batch == 0)) [
      | inl e ↦
          let no_batch = nil_of_length batch ((nat_beq_iff (length batch) 0).0 e) in
          let empty = ap length no_batch in
          let none_left = nil_of_length b.samples (omega arith) in
          let drained = ap (drop b.batch_size) none_left ∙ drop-nil b.batch_size in
          let same = no_batch ∙ sym none_left in
          rw (all_known, e)
            (λ i. some (record b { samples = drained i }, record_all now (same i) t))
      | inr e ↦
          rw (all_known, e)
            (drain_ends rounds (rest_of_batch b) (record_all now batch t) now
                (drop-Known b.batch_size b.samples known) p
                (ground (arith, nat_beq_iff (length batch) 0))
              ∙ ap (λ d. some (record b { samples = [] }, d))
                  (record_all-append now batch rest t ∙ ap (λ ss. record_all now ss t) split))
    ]
