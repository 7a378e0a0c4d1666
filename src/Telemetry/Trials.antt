-- ===== src/Telemetry/Trials.antt =====
-- manga_manager/infrastructure/provider_telemetry.py: the policy of a
-- provider before anything is learned, its poll cadence, and the runs that try a higher limit.
use manga_manager.Prelude.{
  ℕ, pos, negsuc, ◌+◌, ◌*◌, ◌-◌, Bool, true, false, not, ◌&&◌, ◌||◌, [], ◌∷◌, Option, none, some,
  Text, ◌==◌, nat_eq, text_eq, ltb, leb, if◌then◌else◌, min, max, find, any, update_where, suc,
  zero,
}
use manga_manager.Telemetry.Rows.{
  BenchmarkRun, running, Setting, absent, unreadable, number, Metadata, LearnedPolicy, Telemetry,
}
use manga_manager.Telemetry.Samples.{is_in_progress, day}

abbrev pub new_run : ℕ → Text → ℕ → ℕ → ℕ → BenchmarkRun
new_run id source requested stable now = record {
  id = id;
  source = source;
  state = running;
  requested_tier = requested;
  stable_tier = stable;
  request_count = 0;
  success_count = 0;
  failure_count = 0;
  limiting_signal = [];
  started_at = now;
  completed_at = none;
}

abbrev pub insert_run : Text → ℕ → ℕ → ℕ → Telemetry → Telemetry
insert_run source requested stable now t = record t {
  runs = new_run t.next_run_id source requested stable now ∷ t.runs;
  next_run_id = suc t.next_run_id;
}

unfoldable pub begin : Telemetry → Text → ℕ → ℕ → Telemetry × ℕ
begin t source tier now = (insert_run source tier (max 1 (tier - 1)) now t, t.next_run_id)

abbrev pub is_policy : Text → LearnedPolicy → Bool
is_policy source p = p.source == source

abbrev pub policy_of : Text → Telemetry → Option LearnedPolicy
policy_of source t = find (is_policy source) t.policies

abbrev pub change_policy : Text → (LearnedPolicy → LearnedPolicy) → Telemetry → Telemetry
change_policy source f t = record t { policies = update_where (is_policy source) f t.policies }

abbrev pub set_default : Setting → ℕ → Setting
set_default absent n = number (pos n)
set_default unreadable n = unreadable
set_default (number z) n = number z

abbrev pub no_metadata : Metadata
no_metadata = record {
  base_poll_seconds = absent;
  adaptive_poll_seconds = absent;
  unchanged_poll_streak = absent;
  trial = none;
}

unfoldable pub poll_cadence_metadata : Metadata → ℕ → Metadata
poll_cadence_metadata m zero = m
poll_cadence_metadata m (suc n) = record m {
  base_poll_seconds = number (pos (suc n));
  adaptive_poll_seconds = set_default m.adaptive_poll_seconds (suc n);
  unchanged_poll_streak = set_default m.unchanged_poll_streak 0;
}

abbrev pub is_set : Setting → Bool
is_set absent = false
is_set unreadable = true
is_set (number z) = true

abbrev pub is_number : ℕ → Setting → Bool
is_number n absent = false
is_number n unreadable = false
is_number n (number (pos m)) = m == n
is_number n (number (negsuc m)) = false

-- `metadata != policy.metadata_json`
abbrev pub cadence_changes : Metadata → ℕ → Bool
cadence_changes m zero = false
cadence_changes m (suc n) = not (
    is_number (suc n) m.base_poll_seconds
    && is_set m.adaptive_poll_seconds
    && is_set m.unchanged_poll_streak)

-- The arguments of `ensure_policy`.
pub record Baseline : Type 0 where
  pub source : Text
  pub job_limit : ℕ
  pub page_limit : ℕ
  pub cooldown_seconds : ℕ
  pub request_interval : ℕ
  pub poll_interval_seconds : ℕ

abbrev pub base_policy : Baseline → ℕ → LearnedPolicy
base_policy b now = record {
  source = b.source;
  learned_job_limit = b.job_limit;
  learned_page_limit = b.page_limit;
  request_interval = b.request_interval;
  cooldown_seconds = b.cooldown_seconds;
  clean_since = some now;
  last_limited_at = none;
  next_exploration_at = some (now + 7 * day);
  expires_at = some (now + 30 * day);
  successful_tier_runs = 0;
  metadata = poll_cadence_metadata no_metadata b.poll_interval_seconds;
  updated_at = now;
}

-- A pace that was never set is filled in, and the poll cadence; nothing learned is overwritten.
abbrev pub backfill : Baseline → ℕ → LearnedPolicy → LearnedPolicy
backfill b now p =
    let paced = p.request_interval == 0 && ltb 0 b.request_interval in
    record p {
      request_interval = if paced then b.request_interval else p.request_interval;
      metadata = poll_cadence_metadata p.metadata b.poll_interval_seconds;
      updated_at =
          if paced || cadence_changes p.metadata b.poll_interval_seconds then now else p.updated_at;
    }

unfoldable pub ensure_policy : Telemetry → Baseline → ℕ → Telemetry
ensure_policy t b now = elim (policy_of b.source t) [
  | none ↦ record t { policies = base_policy b now ∷ t.policies }
  | some p ↦ change_policy b.source (backfill b now) t
]

abbrev pub is_due : ℕ → Option ℕ → Bool
is_due now none = false
is_due now (some at) = leb at now

abbrev pub start_trial : ℕ → ℕ → ℕ → LearnedPolicy → LearnedPolicy
start_trial tier run_id now p = record p {
  metadata = record p.metadata {
    trial = some (record { tier = tier; until = now + 600000000; run_id = run_id });
  };
  updated_at = now;
}

unfoldable pub start_due_exploration : Telemetry → Text → ℕ → ℕ → Telemetry × Option ℕ
start_due_exploration t source ceiling now = elim (policy_of source t) [
  | none ↦ (t, none)
  | some p ↦
      let tier = min ceiling (p.learned_job_limit + 1) in
      if not (is_due now p.next_exploration_at)
        || leb ceiling p.learned_job_limit
        || any (λ r. r.source == source && is_in_progress r.state) t.runs
      then (t, none)
      else (
        change_policy source (start_trial tier t.next_run_id now)
            (insert_run source tier p.learned_job_limit now t),
        some t.next_run_id,
      )
]

-- `effective_poll_interval`, in seconds.
abbrev pub adaptive : Setting → ℕ → ℕ
adaptive absent fallback = fallback
adaptive unreadable fallback = fallback
adaptive (number (pos zero)) fallback = fallback
adaptive (number (pos (suc n))) fallback = min (suc n) (fallback * 4)
adaptive (number (negsuc n)) fallback = 0

unfoldable pub effective_poll_interval : Option LearnedPolicy → ℕ → ℕ
effective_poll_interval none fallback = fallback
effective_poll_interval (some p) fallback =
    max 60 (adaptive p.metadata.adaptive_poll_seconds (max fallback 60))
