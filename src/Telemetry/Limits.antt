-- ===== src/Telemetry/Limits.antt =====
-- manga_manager/infrastructure/provider_telemetry.py: what a finished run teaches, and the soundness of
-- the telemetry over any history of calls.
use manga_manager.Prelude.{
  ◌≡◌, ◌≤◌, ◌<◌, ℕ, ◌+◌, ◌*◌, Bool, List, [], ◌∷◌, Text, refl, arith, max, Option-cases, Bool-cases,
  find, ◌-◌, inl, inr, ◌==◌, nat_eq, All, keep, min, not, is_empty, ◌||◌, leb, any, ◌&&◌, text_eq,
}
use manga_manager.Telemetry.Rows.{
  BenchmarkRun, LearnedPolicy, Telemetry, RunState, limited, succeeded, inconclusive, running,
  RequestSample,
}
use manga_manager.Telemetry.Samples.{is_run, record_samples, is_known, is_in_progress}
use manga_manager.Telemetry.Trials.{
  begin, ensure_policy, start_due_exploration, Baseline, policy_of, change_policy, backfill, is_due,
  start_trial,
}
use manga_manager.Telemetry.Learning.{
  finish_run, finalize_due, finalize_all, learn, verdict, close_run, max_retry, end_trial,
  closed_runs, without_policy,
}
use manga_manager.Prelude.{◌++◌}
use manga_manager.Telemetry.Deletion.{deleted_by, deleted_in, cleanup-IsSound}
use manga_manager.Telemetry.Counters.{
  IsSound, Allows, keeps_runs, keeps_policies, record_all-IsSound, observe_run-IsSound,
  insert_run-IsSound,
}
use manga_manager.Telemetry.Activities.{Activity, perform, perform_all, finished}

-- What a verdict does to the limits of a policy.
abbrev pub Adapts : RunState → BenchmarkRun → LearnedPolicy → LearnedPolicy → Type 0
Adapts limited r p q =
    (q.learned_job_limit ≡ max 1 (r.requested_tier - 1))
    × (q.learned_page_limit ≤ max 1 p.learned_page_limit)
    × (p.request_interval * 2 ≤ q.request_interval)
    × (500000 ≤ q.request_interval)
    × (p.cooldown_seconds ≤ q.cooldown_seconds)
Adapts succeeded r p q =
    (p.learned_job_limit ≤ q.learned_job_limit)
    × (q.learned_job_limit ≤ max p.learned_job_limit r.requested_tier)
    × (p.learned_page_limit ≤ q.learned_page_limit)
    × (q.request_interval ≤ p.request_interval + 500)
    × (q.cooldown_seconds ≡ p.cooldown_seconds)
Adapts inconclusive r p q =
    (q.learned_job_limit ≡ p.learned_job_limit)
    × (q.learned_page_limit ≡ p.learned_page_limit)
    × (q.request_interval ≡ p.request_interval)
    × (q.cooldown_seconds ≡ p.cooldown_seconds)
Adapts running r p q = q ≡ p

max_retry-least :
    (run_id : ℕ) (ss : List RequestSample) (seconds : ℕ) → seconds ≤ max_retry run_id ss seconds
max_retry-least run_id [] seconds = omega arith
max_retry-least run_id (s ∷ ss) seconds =
    let same = max_retry-least run_id ss seconds in
    elim (Option-cases s.run_id) [
      | inl e ↦ rw e same
      | inr (id, e) ↦ elim (Option-cases s.retry_after_seconds) [
        | inl q ↦ rw (e, q) same
        | inr (after, q) ↦
            let more = max_retry-least run_id ss (max seconds after) in
            elim (Bool-cases (id == run_id)) [
              | inl t ↦ rw (e, q, t) (omega arith)
              | inr t ↦ rw (e, q, t) same
            ]
      ]
    ]

-- A limited run sets the job limit just below the tier that was tried (but at least 1), lets the
-- page limit rise no further than 1, and doubles the pace at least, to half a second at least; a
-- useful run lowers no limit, raises the job limit no further than the tier that was tried, and
-- lengthens the pace by no more than the half millisecond of a rounding; an inconclusive run
-- changes neither limits nor pace. The cooldown does not get shorter.
pub learn-Adapts :
    (state : RunState) (r : BenchmarkRun) (samples : List RequestSample) (now : ℕ)
    (p : LearnedPolicy)
    → Adapts state r p (learn state r (max_retry r.id samples p.cooldown_seconds) now p)
unfolding learn
learn-Adapts limited r samples now p =
    let least = max_retry-least r.id samples p.cooldown_seconds in
    (refl, ground arith, omega arith, omega arith, least)
learn-Adapts succeeded r samples now p = ground arith
learn-Adapts inconclusive r samples now p = (refl, refl, refl, refl)
learn-Adapts running r samples now p = refl

learn-Allows :
    (state : RunState) (r : BenchmarkRun) (cooldown now : ℕ) (p : LearnedPolicy)
    → Allows p
    → Allows (learn state r cooldown now p)
unfolding learn
learn-Allows limited r cooldown now p a = (omega arith, omega arith)
learn-Allows succeeded r cooldown now p a = (ground arith, ground arith)
learn-Allows inconclusive r cooldown now p a = a
learn-Allows running r cooldown now p a = a

module _ (gone : List RequestSample) where
  -- A finished run keeps the telemetry sound.
  finish_run-IsSound :
      (t : Telemetry) (run_id : ℕ) (rate_limited : Bool) (completed_jobs now : ℕ)
      → IsSound gone t
      → IsSound gone (finished t (finish_run t run_id rate_limited completed_jobs now))
  unfolding finish_run
  finish_run-IsSound t run_id rate_limited completed_jobs now v =
      elim (Option-cases (find (is_run run_id) t.runs)) [
        | inl e ↦ rw (e, finish_run) v
        | inr (r, e) ↦
            let state = verdict rate_limited completed_jobs r in
            elim (Option-cases (policy_of r.source t)) [
              | inl q ↦ rw (e, finish_run, q) (unlearned r state)
              | inr (p, q) ↦
                  rw (e, finish_run, q)
                    (keeps_policies gone
                      (learn state r (max_retry run_id t.samples p.cooldown_seconds) now) r.source _
                      (learn-Allows state r _ now) (closed state))
            ]
      ]
    where
      closed : (state : RunState) → IsSound gone (closed_runs run_id state now t)
      closed state =
          keeps_runs gone (close_run state now) run_id t
            (λ r c. record {
              requests = c.requests;
              failures = c.failures;
              successes = c.successes;
            })
            (λ r. refl) v

      unlearned :
          (r : BenchmarkRun) (state : RunState)
          → IsSound gone (finished t (without_policy t run_id r state now))
      unlearned r limited = v
      unlearned r succeeded = v
      unlearned r running = v
      unlearned r inconclusive =
          let closed_all = closed inconclusive in
          record {
            counted = closed_all.counted;
            run_ids = closed_all.run_ids;
            sample_runs = closed_all.sample_runs;
            limits = ((omega arith, omega arith), v.limits);
          }

  finalize_all-IsSound :
      (rs : List BenchmarkRun) (now : ℕ) (t : Telemetry)
      → IsSound gone t
      → IsSound gone (finalize_all rs now t).0
  unfolding finalize_all
  finalize_all-IsSound [] now t v = v
  finalize_all-IsSound (r ∷ rs) now t v =
      let next = finish_run-IsSound t r.id (not (is_empty r.limiting_signal)) 0 now v in
      elim (Option-cases (finish_run t r.id (not (is_empty r.limiting_signal)) 0 now)) [
        | inl e ↦ rw (e, finalize_all) v
        | inr ((d, source), e) ↦
            let sound : IsSound gone d = rw e at next in
            rw (e, finalize_all)
              (finalize_all-IsSound rs now (change_policy source end_trial d)
                (keeps_policies gone end_trial source d (λ p a. a) sound))
      ]

  ensure_policy-IsSound :
      (t : Telemetry) (b : Baseline) (now : ℕ)
      → (0 < b.job_limit) × (0 < b.page_limit)
      → IsSound gone t
      → IsSound gone (ensure_policy t b now)
  unfolding ensure_policy
  ensure_policy-IsSound t b now h v = elim (Option-cases (policy_of b.source t)) [
    | inl e ↦
        rw (e, ensure_policy)
          (record {
            counted = v.counted;
            run_ids = v.run_ids;
            sample_runs = v.sample_runs;
            limits = (h, v.limits);
          })
    | inr (p, e) ↦
        rw (e, ensure_policy) (keeps_policies gone (backfill b now) b.source t (λ p a. a) v)
  ]

  explore-IsSound :
      (t : Telemetry) (source : Text) (ceiling now : ℕ)
      → IsSound gone t
      → IsSound gone (start_due_exploration t source ceiling now).0
  unfolding start_due_exploration
  explore-IsSound t source ceiling now v = elim (Option-cases (policy_of source t)) [
    | inl e ↦ rw (e, start_due_exploration) v
    | inr (p, e) ↦
        let tier = min ceiling (p.learned_job_limit + 1) in
        elim (Bool-cases (
          not (is_due now p.next_exploration_at)
          || leb ceiling p.learned_job_limit
          || any (λ r. r.source == source && is_in_progress r.state) t.runs)) [
            | inl q ↦ rw (e, start_due_exploration, q) v
            | inr q ↦
                rw (e, start_due_exploration, q)
                  (keeps_policies gone (start_trial tier t.next_run_id now) source _ (λ x a. a)
                    (insert_run-IsSound gone source tier p.learned_job_limit now t v))
          ]
  ]

-- The limits that a policy starts with allow something.
abbrev pub IsFair : Activity → Type 0
IsFair (Activity.ensure b now) = (0 < b.job_limit) × (0 < b.page_limit)
IsFair _ = Unit {0}

perform-IsSound :
    (gone : List RequestSample) (t : Telemetry) (a : Activity)
    → IsFair a
    → IsSound gone t
    → IsSound (deleted_by t a ++ gone) (perform t a)
unfolding perform begin record_samples finalize_due
perform-IsSound gone t (Activity.begin source tier now) f v =
    insert_run-IsSound gone source tier _ now t v
perform-IsSound gone t (Activity.record_samples ss now) f v =
    record_all-IsSound gone now (keep is_known ss) t v
perform-IsSound gone t (Activity.observe run_id s now) f v =
    observe_run-IsSound gone t run_id s now v
perform-IsSound gone t (Activity.ensure b now) f v = ensure_policy-IsSound gone t b now f v
perform-IsSound gone t (Activity.explore source ceiling now) f v =
    explore-IsSound gone t source ceiling now v
perform-IsSound gone t (Activity.finish run_id rate_limited jobs now) f v =
    finish_run-IsSound gone t run_id rate_limited jobs now v
perform-IsSound gone t (Activity.finalize now) f v = finalize_all-IsSound gone _ now t v
perform-IsSound gone t (Activity.cleanup days now) f v = cleanup-IsSound gone t days now v

perform_all-IsSound_from :
    (gone : List RequestSample) (t : Telemetry) (activities : List Activity)
    → All IsFair activities
    → IsSound gone t
    → IsSound (deleted_in t activities gone) (perform_all t activities)
unfolding perform_all deleted_in
perform_all-IsSound_from gone t [] f v = v
perform_all-IsSound_from gone t (a ∷ rest) f v =
    perform_all-IsSound_from (deleted_by t a ++ gone) (perform t a) rest f.1
      (perform-IsSound gone t a f.0 v)

-- Over any history of calls in which policies start with positive limits, from a sound telemetry:
-- the requests and failures that each run counts are those of the samples stored for it and of those
-- that the history has deleted as too old, its successes are the other requests, keys lie below the
-- next one, and every learned limit is positive.
pub perform_all-IsSound :
    (t : Telemetry) (activities : List Activity)
    → All IsFair activities
    → IsSound [] t
    → IsSound (deleted_in t activities []) (perform_all t activities)
perform_all-IsSound t activities f v = perform_all-IsSound_from [] t activities f v
