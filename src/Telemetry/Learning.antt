-- ===== src/Telemetry/Learning.antt =====
-- manga_manager/infrastructure/provider_telemetry.py: the limits that a
-- provider's policy learns from its benchmark runs. Intervals are microseconds; a rounding to milliseconds rounds halves up.
use manga_manager.Telemetry.Trials.{change_policy, no_metadata, policy_of}
use manga_manager.Prelude.{
  ℕ, ◌+◌, ◌*◌, ◌-◌, ◌/◌, Bool, true, false, not, ◌&&◌, ◌||◌, List, [], ◌∷◌, Option, none, some,
  Text, txt, ◌==◌, nat_eq, text_eq, ltb, leb, if◌then◌else◌, min, max, keep, find, update_where,
  length, is_empty, or_else,
}
use manga_manager.Telemetry.Rows.{
  BenchmarkRun, RequestSample, RunState, running, limited, succeeded, inconclusive, LearnedPolicy,
  Telemetry,
}
use manga_manager.Telemetry.Samples.{is_in_progress, is_run, day}

-- The verdict of `finish`, with the jobs that the report counts.
abbrev pub verdict : Bool → ℕ → BenchmarkRun → RunState
verdict rate_limited completed_jobs r =
    if rate_limited || not (is_empty r.limiting_signal)
    then limited
    else if leb 100 r.request_count || leb 2 completed_jobs
    then succeeded
    else inconclusive

abbrev pub max_retry : ℕ → List RequestSample → ℕ → ℕ
max_retry run_id [] seconds = seconds
max_retry run_id (s ∷ ss) seconds = elim s.run_id [
  | none ↦ max_retry run_id ss seconds
  | some id ↦ elim s.retry_after_seconds [
    | none ↦ max_retry run_id ss seconds
    | some after ↦
        if id == run_id
        then max_retry run_id ss (max seconds after)
        else max_retry run_id ss seconds
  ]
]

abbrev pub is_careful : Text → Bool
is_careful source = source == txt "asura"

-- A limited run: the limits fall below the tier that was tried, and the pace slows to half.
abbrev pub learn_limited : BenchmarkRun → ℕ → ℕ → LearnedPolicy → LearnedPolicy
learn_limited r cooldown now p = record p {
  last_limited_at = some now;
  successful_tier_runs = 0;
  learned_job_limit = max 1 (r.requested_tier - 1);
  learned_page_limit = max 1 (
      min p.learned_page_limit
        (if is_careful r.source then 1 else max 2 ((r.requested_tier - 1) * 2)));
  request_interval = max 500000 (p.request_interval * 2);
  next_exploration_at = some (now + 30 * day);
  cooldown_seconds = cooldown;
  expires_at = some (now + 30 * day);
  updated_at = now;
}

-- `round(interval * 0.8, 3)` in seconds.
abbrev pub four_fifths : ℕ → ℕ
four_fifths interval = (interval * 4 + 2500) / 5000 * 1000

abbrev pub floor_of : Text → ℕ
floor_of source = if is_careful source then 500000 else 0

abbrev pub quicker : Text → ℕ → ℕ
quicker source interval =
    if ltb (floor_of source) interval
    then max (floor_of source) (four_fifths interval)
    else interval

abbrev pub required_runs : BenchmarkRun → ℕ
required_runs r = if is_careful r.source && leb 2 r.requested_tier then 2 else 1

-- A useful run: after enough of them the limits rise to the tier that was tried.
abbrev pub learn_useful : BenchmarkRun → ℕ → LearnedPolicy → LearnedPolicy
learn_useful r now p =
    let proven = leb (required_runs r) (p.successful_tier_runs + 1) in
    record p {
      successful_tier_runs = p.successful_tier_runs + 1;
      learned_job_limit =
          if proven then max p.learned_job_limit r.requested_tier else p.learned_job_limit;
      learned_page_limit =
          if proven
          then max p.learned_page_limit (if is_careful r.source then 2 else r.requested_tier * 2)
          else p.learned_page_limit;
      request_interval = if proven then quicker r.source p.request_interval else p.request_interval;
      clean_since = some (or_else p.clean_since now);
      next_exploration_at = some (now + 7 * day);
      expires_at = some (now + 30 * day);
      updated_at = now;
    }

abbrev pub learn_nothing : ℕ → LearnedPolicy → LearnedPolicy
learn_nothing now p = record p {
  successful_tier_runs = 0;
  next_exploration_at = some (now + day);
  expires_at = some (now + 30 * day);
  updated_at = now;
}

unfoldable pub learn : RunState → BenchmarkRun → ℕ → ℕ → LearnedPolicy → LearnedPolicy
learn limited r cooldown now p = learn_limited r cooldown now p
learn succeeded r cooldown now p = learn_useful r now p
learn inconclusive r cooldown now p = learn_nothing now p
learn running r cooldown now p = p

abbrev pub close_run : RunState → ℕ → BenchmarkRun → BenchmarkRun
close_run state now r = record r { state = state; completed_at = some now }

-- A policy that `finish` adds: its columns get their defaults when it is written.
abbrev pub default_policy : Text → LearnedPolicy
default_policy source = record {
  source = source;
  learned_job_limit = 1;
  learned_page_limit = 1;
  request_interval = 0;
  cooldown_seconds = 300;
  clean_since = none;
  last_limited_at = none;
  next_exploration_at = none;
  expires_at = none;
  successful_tier_runs = 0;
  metadata = no_metadata;
  updated_at = 0;
}

abbrev pub closed_runs : ℕ → RunState → ℕ → Telemetry → Telemetry
closed_runs run_id state now t = record t {
  runs = update_where (is_run run_id) (close_run state now) t.runs;
}

-- `finish` where the provider has no policy yet: unless the run is inconclusive, it computes with a
-- column of the new policy that has no value before the row is written, and raises.
abbrev pub without_policy : Telemetry → ℕ → BenchmarkRun → RunState → ℕ → Option (Telemetry × Text)
without_policy t run_id r limited now = none
without_policy t run_id r succeeded now = none
without_policy t run_id r running now = none
without_policy t run_id r inconclusive now = some (
  record (closed_runs run_id inconclusive now t) {
    policies = learn_nothing now (default_policy r.source) ∷ t.policies;
  },
  r.source,
)

-- `finish`; `none` is an exception, also where the run has disappeared.
unfoldable pub finish_run : Telemetry → ℕ → Bool → ℕ → ℕ → Option (Telemetry × Text)
finish_run t run_id rate_limited completed_jobs now = elim (find (is_run run_id) t.runs) [
  | none ↦ none
  | some r ↦
      let state = verdict rate_limited completed_jobs r in
      elim (policy_of r.source t) [
        | some p ↦
            let cooldown = max_retry run_id t.samples p.cooldown_seconds in
            some (
              change_policy r.source (learn state r cooldown now) (closed_runs run_id state now t),
              r.source,
            )
        | none ↦ without_policy t run_id r state now
      ]
]

abbrev pub run_is_due : ℕ → BenchmarkRun → Bool
run_is_due now r =
    is_in_progress r.state
    && (not (is_empty r.limiting_signal)
        || leb 500 r.request_count
        || leb (r.started_at + 600000000) now)

abbrev pub end_trial : LearnedPolicy → LearnedPolicy
end_trial p = record p { metadata = record p.metadata { trial = none } }

-- The loop of `finalize_due` over the due runs, each in transactions of its own; an exception ends
-- it. The flag says that it came to the end.
unfoldable pub finalize_all : List BenchmarkRun → ℕ → Telemetry → Telemetry × Bool
finalize_all [] now t = (t, true)
finalize_all (r ∷ rs) now t = elim (finish_run t r.id (not (is_empty r.limiting_signal)) 0 now) [
  | none ↦ (t, false)
  | some (d, source) ↦ finalize_all rs now (change_policy source end_trial d)
]

-- `finalize_due`: how many runs were due, unless an exception ends it.
unfoldable pub finalize_due : Telemetry → ℕ → Telemetry × Option ℕ
finalize_due t now =
    let due = keep (run_is_due now) t.runs in
    let (d, complete) = finalize_all due now t in (d, if complete then some (length due) else none)
