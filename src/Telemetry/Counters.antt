-- ===== src/Telemetry/Counters.antt =====
-- manga_manager/infrastructure/provider_telemetry.py: the counters of a run agree with the samples
-- stored for it or deleted since, and learned limits stay positive, over any history of calls.
use manga_manager.Prelude.{
  ◌≡◌, ◌<◌, ℕ, ◌+◌, Bool, true, false, not, ◌&&◌, ◌||◌, List, [], ◌∷◌, Option, none, some, Text,
  refl, arith, count_if, update_where, is_empty, contains, find, Option-cases, Bool-cases, suc,
  nat_eq, All, All-update_where, inl, All-mono, if◌then◌else◌, inr, sym, find-In, nat_beq_iff, both,
  All-In, ap, ◌++◌,
}
use manga_manager.Queue.Store.{is_key}
use manga_manager.Telemetry.Rows.{BenchmarkRun, RequestSample, LearnedPolicy, Telemetry}
use manga_manager.Telemetry.Samples.{
  Sample, has_failed, count_sample, record_sample, record_all, observe_run, active_run, is_run,
  sample_row, is_in_progress,
}
use manga_manager.Telemetry.Trials.{insert_run, is_policy, change_policy}

-- A stored sample of a run, and one that reports a failure.
abbrev pub of_run : ℕ → RequestSample → Bool
of_run id s = is_key id s.run_id

abbrev pub row_failed : RequestSample → Bool
row_failed s = not (is_empty s.error_code) || contains (403 ∷ 429 ∷ 503 ∷ []) s.status_code

pub record IsCounted (samples : List RequestSample) (r : BenchmarkRun) : Type 0 where
  pub requests : r.request_count ≡ count_if (of_run r.id) samples
  pub failures : r.failure_count ≡ count_if (λ s. of_run r.id s && row_failed s) samples
  pub successes : r.success_count + r.failure_count ≡ r.request_count

abbrev IsBelow : ℕ → Option ℕ → Type 0
IsBelow n none = Unit {0}
IsBelow n (some id) = id < n

-- The runs are counted, over the samples that are stored and those that are gone; keys lie below the next one, and the learned limits allow something.
pub record IsSound (gone : List RequestSample) (t : Telemetry) : Type 0 where
  pub counted : All (IsCounted (t.samples ++ gone)) t.runs
  pub run_ids : All (λ r. r.id < t.next_run_id) t.runs
  pub sample_runs : All (λ s. IsBelow t.next_run_id s.run_id) (t.samples ++ gone)
  pub limits : All (λ p. (0 < p.learned_job_limit) × (0 < p.learned_page_limit)) t.policies

-- The limits of a policy allow something.
abbrev pub Allows : LearnedPolicy → Type 0
Allows p = (0 < p.learned_job_limit) × (0 < p.learned_page_limit)

module _ (gone : List RequestSample) where
  -- A sample stored for one run, counted by the runs with its id.
  add_sample-IsCounted :
      (samples : List RequestSample) (s : Sample) (row : RequestSample) (id : ℕ)
      (runs : List BenchmarkRun)
      → row.run_id ≡ some id
      → row_failed row ≡ has_failed s
      → All (IsCounted samples) runs
      → All (IsCounted (row ∷ samples)) (update_where (is_run id) (count_sample s) runs)
  unfolding count_if
  add_sample-IsCounted samples s row id runs e f a =
      All-update_where (IsCounted samples) (IsCounted (row ∷ samples)) (is_run id) (count_sample s)
        runs (λ r h c. ground arith) (λ r h c. ground arith) a

  -- A sample stored for no run.
  lone_sample-IsCounted :
      (samples : List RequestSample) (row : RequestSample) (runs : List BenchmarkRun)
      → row.run_id ≡ none
      → All (IsCounted samples) runs
      → All (IsCounted (row ∷ samples)) runs
  unfolding count_if
  lone_sample-IsCounted samples row runs e a =
      All-mono (IsCounted samples) (IsCounted (row ∷ samples)) runs (λ r c. ground arith) a

  active_run-below :
      (n : ℕ) (source : Text) (runs : List BenchmarkRun) (r : BenchmarkRun)
      → All (λ x. x.id < n) runs
      → active_run source runs ≡ some r
      → r.id < n
  unfolding active_run
  active_run-below n source [] r a e = cc
  active_run-below n source (x ∷ runs) r a e = elim (Option-cases (active_run source runs)) [
    | inl q ↦ ground arith
    | inr (best, q) ↦ let below = active_run-below n source runs best a.1 q in ground arith
  ]

  row_failed-sample :
      (id : Option ℕ) (source error : Text) (now : ℕ) (s : Sample)
      → error ≡ s.error_code
      → row_failed (sample_row id source error now s) ≡ has_failed s
  row_failed-sample id source error now s e = rw e refl

  kept_text : (e : Text) (other : Bool) → (if not (is_empty e) || other then e else []) ≡ e
  kept_text [] true = refl
  kept_text [] false = refl
  kept_text (c ∷ cs) other = refl

  -- A sample without a failure has no error code.
  kept_error : (s : Sample) → (if has_failed s then s.error_code else []) ≡ s.error_code
  kept_error s = kept_text s.error_code _

  record_sample-IsSound :
      (now : ℕ) (s : Sample) (t : Telemetry) → IsSound gone t → IsSound gone (record_sample now s t)
  unfolding record_sample
  record_sample-IsSound now s t v = elim (Option-cases (active_run s.source t.runs)) [
    | inl e ↦
        rw (e, record_sample)
          (record {
            counted = lone_sample-IsCounted (t.samples ++ gone) _ t.runs refl v.counted;
            run_ids = v.run_ids;
            sample_runs = (tt, v.sample_runs);
            limits = v.limits;
          })
    | inr (r, e) ↦
        rw (e, record_sample)
          (record {
            counted =
                add_sample-IsCounted (t.samples ++ gone) s _ r.id t.runs refl
                  (row_failed-sample (some r.id) s.source _ now s (kept_error s)) v.counted;
            run_ids =
                All-update_where (λ x. x.id < t.next_run_id) (λ x. x.id < t.next_run_id)
                  (is_run r.id) (count_sample s) t.runs (λ x _ h. h) (λ x _ h. h) v.run_ids;
            sample_runs =
                (active_run-below t.next_run_id s.source t.runs r v.run_ids e, v.sample_runs);
            limits = v.limits;
          })
  ]

  pub record_all-IsSound :
      (now : ℕ) (ss : List Sample) (t : Telemetry)
      → IsSound gone t
      → IsSound gone (record_all now ss t)
  unfolding record_all
  record_all-IsSound now [] t v = v
  record_all-IsSound now (s ∷ ss) t v =
      record_all-IsSound now ss (record_sample now s t) (record_sample-IsSound now s t v)

  -- Changes of runs and policies that the counters do not see.
  pub keeps_runs :
      (f : BenchmarkRun → BenchmarkRun) (id : ℕ) (t : Telemetry)
      → ((r : BenchmarkRun) → IsCounted (t.samples ++ gone) r → IsCounted (t.samples ++ gone) (f r))
      → ((r : BenchmarkRun) → (f r).id ≡ r.id)
      → IsSound gone t
      → IsSound gone (record t { runs = update_where (is_run id) f t.runs })
  keeps_runs f id t h same v = record {
    counted =
        All-update_where (IsCounted (t.samples ++ gone)) (IsCounted (t.samples ++ gone)) (is_run id)
          f t.runs (λ r _ c. h r c) (λ r _ c. c) v.counted;
    run_ids =
        All-update_where (λ x. x.id < t.next_run_id) (λ x. x.id < t.next_run_id) (is_run id) f
          t.runs (λ x _ b. rw (same x) b) (λ x _ b. b) v.run_ids;
    sample_runs = v.sample_runs;
    limits = v.limits;
  }

  pub keeps_policies :
      (f : LearnedPolicy → LearnedPolicy) (source : Text) (t : Telemetry)
      → ((p : LearnedPolicy) → Allows p → Allows (f p))
      → IsSound gone t
      → IsSound gone (change_policy source f t)
  keeps_policies f source t h v = record {
    counted = v.counted;
    run_ids = v.run_ids;
    sample_runs = v.sample_runs;
    limits =
        All-update_where Allows Allows (is_policy source) f t.policies (λ p _ a. h p a) (λ p _ a. a)
          v.limits;
  }

  pub observe_run-IsSound :
      (t : Telemetry) (run_id : ℕ) (s : Sample) (now : ℕ)
      → IsSound gone t
      → IsSound gone (observe_run t run_id s now)
  unfolding observe_run
  observe_run-IsSound t run_id s now v = elim (Option-cases (find (is_run run_id) t.runs)) [
    | inl e ↦ rw (e, observe_run) v
    | inr (r, e) ↦
        let (there, same) = find-In (is_run run_id) t.runs r e in
        let below = All-In (λ x. x.id < t.next_run_id) r t.runs v.run_ids there in
        elim (Bool-cases (is_in_progress r.state)) [
          | inl q ↦
              rw (e, observe_run, q)
                (record {
                  counted =
                      add_sample-IsCounted (t.samples ++ gone) s _ run_id t.runs
                        (ap (λ k. some k) ((nat_beq_iff r.id run_id).0 same))
                        (row_failed-sample (some r.id) r.source _ now s refl) v.counted;
                  run_ids =
                      All-update_where (λ x. x.id < t.next_run_id) (λ x. x.id < t.next_run_id)
                        (is_run run_id) (count_sample s) t.runs (λ x _ h. h) (λ x _ h. h) v.run_ids;
                  sample_runs = (below, v.sample_runs);
                  limits = v.limits;
                })
          | inr q ↦ rw (e, observe_run, q) v
        ]
  ]

  -- No sample is stored yet for a key that is not yet given.
  none_yet :
      (n : ℕ) (p : RequestSample → Bool) (ss : List RequestSample)
      → ((s : RequestSample) → p s ≡ true → is_key n s.run_id ≡ true)
      → All (λ s. IsBelow n s.run_id) ss
      → count_if p ss ≡ 0
  unfolding count_if
  none_yet n p [] h a = refl
  none_yet n p (s ∷ ss) h a = elim (Bool-cases (p s)) [
    | inl e ↦ absurd (let key = h s e in below_key s.run_id a.0 key)
    | inr e ↦ rw e (let rest = none_yet n p ss h a.1 in omega arith)
  ]
    where
      below_key : (k : Option ℕ) → IsBelow n k → is_key n k ≡ true → ⊥
      below_key none b h = cc
      below_key (some k) b h = ground (arith, nat_beq_iff k n)

  pub insert_run-IsSound :
      (source : Text) (requested stable now : ℕ) (t : Telemetry)
      → IsSound gone t
      → IsSound gone (insert_run source requested stable now t)
  insert_run-IsSound source requested stable now t v = record {
    counted = (
      record {
        requests = sym (
            none_yet t.next_run_id (of_run t.next_run_id) (t.samples ++ gone) (λ s h. h)
              v.sample_runs);
        failures = sym (
            none_yet t.next_run_id (λ s. of_run t.next_run_id s && row_failed s) (t.samples ++ gone)
              (λ s h. (both _ _ h).0) v.sample_runs);
        successes = omega arith;
      },
      v.counted,
    );
    run_ids = (
      omega arith,
      All-mono (λ r. r.id < t.next_run_id) (λ r. r.id < suc t.next_run_id) t.runs
          (λ r h. omega arith) v.run_ids,
    );
    sample_runs =
        All-mono (λ s. IsBelow t.next_run_id s.run_id) (λ s. IsBelow (suc t.next_run_id) s.run_id)
          (t.samples ++ gone) (λ s h. later s.run_id h) v.sample_runs;
    limits = v.limits;
  }
    where
      later : (k : Option ℕ) → IsBelow t.next_run_id k → IsBelow (suc t.next_run_id) k
      later none h = tt
      later (some k) h = omega arith
