-- ===== src/Telemetry/Rows.antt =====
-- manga_manager/infrastructure/db_models.py: the rows of the provider telemetry, and what a request
-- reports. Times and request intervals are microseconds.
use manga_manager.Prelude.{ℕ, ℤ, List, Option, Text}

pub data RunState : Type 0 where
  running limited succeeded inconclusive : RunState

pub record BenchmarkRun : Type 0 where
  pub id : ℕ
  pub source : Text
  pub state : RunState
  pub requested_tier : ℕ
  pub stable_tier : ℕ
  pub request_count : ℕ
  pub success_count : ℕ
  pub failure_count : ℕ
  pub limiting_signal : Text
  pub started_at : ℕ
  pub completed_at : Option ℕ

-- A row of `ProviderRequestSample`, its headers left out.
pub record RequestSample : Type 0 where
  pub run_id : Option ℕ
  pub source : Text
  pub host : Text
  pub status_code : ℕ
  pub latency_ms : ℕ
  pub byte_count : ℕ
  pub error_code : Text
  pub retry_after_seconds : Option ℕ
  pub created_at : ℕ

-- A value of a JSON object under a key that should hold a whole number.
pub data Setting : Type 0 where
  absent unreadable : Setting
  number : ℤ → Setting

-- `exploration_tier`, `exploration_until` and `benchmark_run_id`, which come and go together.
pub record Trial : Type 0 where
  pub tier : ℕ
  pub until : ℕ
  pub run_id : ℕ

-- `metadata_json` of a policy, by the keys that the module uses.
pub record Metadata : Type 0 where
  pub base_poll_seconds : Setting
  pub adaptive_poll_seconds : Setting
  pub unchanged_poll_streak : Setting
  pub trial : Option Trial

-- `ProviderPolicy` with all that is learned.
pub record LearnedPolicy : Type 0 where
  pub source : Text
  pub learned_job_limit : ℕ
  pub learned_page_limit : ℕ
  pub request_interval : ℕ
  pub cooldown_seconds : ℕ
  pub clean_since : Option ℕ
  pub last_limited_at : Option ℕ
  pub next_exploration_at : Option ℕ
  pub expires_at : Option ℕ
  pub successful_tier_runs : ℕ
  pub metadata : Metadata
  pub updated_at : ℕ

-- The tables and the next key of a run. Runs stand newest first, samples too.
pub record Telemetry : Type 0 where
  pub runs : List BenchmarkRun
  pub samples : List RequestSample
  pub policies : List LearnedPolicy
  pub next_run_id : ℕ
