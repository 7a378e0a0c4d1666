-- ===== src/Telemetry/Deletion.antt =====
-- manga_manager/infrastructure/provider_telemetry.py: the samples that `cleanup_samples` deletes, and
-- the counters of the runs over those that are stored and those that are gone.
use manga_manager.Prelude.{
  ◌≡◌, ◌++◌, ltb, count_if, All-mono, sym, ◌∙◌, refl, inl, inr, max, ◌-◌, ◌*◌, arith, Bool-cases,
  List, [], ◌∷◌, ℕ, All, Bool, keep, ◌&&◌, ◌+◌, not,
}
use manga_manager.Telemetry.Rows.{RequestSample, Telemetry}
use manga_manager.Telemetry.Samples.{cleanup_samples, day}
use manga_manager.Telemetry.Activities.{Activity, perform}
use manga_manager.Telemetry.Counters.{IsSound, of_run, row_failed}

-- The samples that a call deletes: those that `cleanup_samples` finds too old.
abbrev pub deleted_by : Telemetry → Activity → List RequestSample
deleted_by t (Activity.cleanup days now) =
    keep (λ s. ltb s.created_at (now - max 1 days * day)) t.samples
deleted_by t _ = []

-- The samples that a history has deleted, the latest first.
unfoldable pub deleted_in : Telemetry → List Activity → List RequestSample → List RequestSample
deleted_in t [] gone = gone
deleted_in t (a ∷ rest) gone = deleted_in (perform t a) rest (deleted_by t a ++ gone)

count_if-append :
    (p : RequestSample → Bool) (xs ys : List RequestSample)
    → count_if p (xs ++ ys) ≡ count_if p xs + count_if p ys
unfolding count_if
count_if-append p [] ys = omega arith
count_if-append p (x ∷ xs) ys = let rest = count_if-append p xs ys in ground arith

count_if-keep :
    (p q : RequestSample → Bool) (xs : List RequestSample)
    → count_if p (keep (λ s. not (q s)) xs) + count_if p (keep q xs) ≡ count_if p xs
unfolding count_if keep
count_if-keep p q [] = refl
count_if-keep p q (x ∷ xs) = let rest = count_if-keep p q xs in ground arith

-- Moving rows to the other end of the list changes no count.
count_if-split :
    (p q : RequestSample → Bool) (xs gone : List RequestSample)
    → count_if p (keep (λ s. not (q s)) xs ++ (keep q xs ++ gone)) ≡ count_if p (xs ++ gone)
count_if-split p q xs gone =
    let kept = count_if-append p (keep (λ s. not (q s)) xs) (keep q xs ++ gone) in
    let moved = count_if-append p (keep q xs) gone in
    let all_rows = count_if-append p xs gone in let parts = count_if-keep p q xs in omega arith

All-append :
    (P : RequestSample → Type 0) (xs ys : List RequestSample)
    → All P xs
    → All P ys
    → All P (xs ++ ys)
All-append P [] ys a b = b
All-append P (x ∷ xs) ys a b = (a.0, All-append P xs ys a.1 b)

All-parts :
    (P : RequestSample → Type 0) (xs ys : List RequestSample)
    → All P (xs ++ ys)
    → All P xs × All P ys
All-parts P [] ys a = (tt, a)
All-parts P (x ∷ xs) ys a = let (b, c) = All-parts P xs ys a.1 in ((a.0, b), c)

All-keep :
    (P : RequestSample → Type 0) (q : RequestSample → Bool) (xs : List RequestSample)
    → All P xs
    → All P (keep q xs)
unfolding keep
All-keep P q [] a = tt
All-keep P q (x ∷ xs) a = elim (Bool-cases (q x)) [
  | inl e ↦ rw e (a.0, All-keep P q xs a.1)
  | inr e ↦ rw e (All-keep P q xs a.1)
]

All-split :
    (P : RequestSample → Type 0) (q : RequestSample → Bool) (xs gone : List RequestSample)
    → All P (xs ++ gone)
    → All P (keep (λ s. not (q s)) xs ++ (keep q xs ++ gone))
All-split P q xs gone a =
    let (b, c) = All-parts P xs gone a in
    All-append P (keep (λ s. not (q s)) xs) (keep q xs ++ gone) (All-keep P (λ s. not (q s)) xs b)
      (All-append P (keep q xs) gone (All-keep P q xs b) c)

pub cleanup-IsSound :
    (gone : List RequestSample) (t : Telemetry) (days now : ℕ)
    → IsSound gone t
    → IsSound (deleted_by t (Activity.cleanup days now) ++ gone) (cleanup_samples t days now).0
unfolding cleanup_samples
cleanup-IsSound gone t days now v =
    let old = λ (s : RequestSample). ltb s.created_at (now - max 1 days * day) in
    record {
      counted =
          All-mono _ _ t.runs
            (λ r c. record {
              requests = c.requests ∙ sym (count_if-split (of_run r.id) old t.samples gone);
              failures =
                  c.failures
                  ∙ sym (count_if-split (λ s. of_run r.id s && row_failed s) old t.samples gone);
              successes = c.successes;
            })
            v.counted;
      run_ids = v.run_ids;
      sample_runs = All-split _ old t.samples gone v.sample_runs;
      limits = v.limits;
    }
