-- ===== src/Queue/Rows.antt =====
-- manga_manager/infrastructure/db_models.py: the rows that the job queue reads and writes, and the
-- database that holds them. Times are microseconds; a payload of `{}` is `none`.
use manga_manager.Prelude.{ℕ, Bool, List, Option, Text}
use manga_manager.Domain.Jobs.{JobKind, JobState, JobPayload}

-- The `progress_*` columns of `WorkJob`.
pub record JobProgress : Type 0 where
  pub phase : Text
  pub done : ℕ
  pub total : ℕ
  pub unit : Text
  pub bytes : ℕ
  pub message : Text
  pub updated_at : Option ℕ

pub record WorkJob : Type 0 where
  pub id : ℕ
  pub kind : JobKind
  pub dedupe_key : Text
  pub payload : JobPayload
  pub source : Text
  pub series_key : Text
  pub pool : Text
  pub cycle_id : Option ℕ
  pub workflow_key : Text
  pub group_key : Text
  pub logical_units : ℕ
  pub pending_payload : Option JobPayload
  pub status : JobState
  pub priority : ℕ
  pub attempts : ℕ
  pub max_attempts : ℕ
  pub available_at : ℕ
  pub lease_owner : Text
  pub lease_expires_at : Option ℕ
  pub heartbeat_at : Option ℕ
  pub error_code : Text
  pub error_message : Text
  pub progress : JobProgress
  pub updated_at : ℕ
  pub completed_at : Option ℕ

pub data CycleStatus : Type 0 where
  running settled : CycleStatus

-- `WorkloadCycle`; the status `running` is the source's "active".
pub record WorkloadCycle : Type 0 where
  pub id : ℕ
  pub status : CycleStatus
  pub total_units : ℕ
  pub successful_units : ℕ
  pub failed_units : ℕ
  pub cancelled_units : ℕ
  pub added_units : ℕ
  pub updated_at : ℕ
  pub settled_at : Option ℕ

pub record JobPermit : Type 0 where
  pub job_id : ℕ
  pub pool : Text
  pub owner : Text
  pub lease_expires_at : ℕ

pub record StorageReservation : Type 0 where
  pub job_id : ℕ
  pub owner : Text
  pub reserved_bytes : ℕ
  pub lease_expires_at : ℕ

pub record StorageState : Type 0 where
  pub free_bytes : ℕ
  pub min_free_bytes : ℕ
  pub reserved_bytes : ℕ
  pub paused : Bool
  pub reason : Text
  pub updated_at : ℕ

pub data Detail : Type 0 where
  text : Text → Detail
  time : ℕ → Detail
  number : ℕ → Detail
  flag : Bool → Detail

pub record JobEvent : Type 0 where
  pub job_id : ℕ
  pub event_type : Text
  pub status : JobState
  pub owner : Text
  pub message : Text
  pub details : List (Text × Detail)

-- `exploration_tier`: not set, a number, or what `int` refuses.
pub data TierText : Type 0 where
  no_tier : TierText
  tier_number : ℕ → TierText
  unreadable_tier : TierText

-- `metadata_json` as far as the queue reads it: the tier, and the instant if it parses.
pub record Exploration : Type 0 where
  pub until : Option ℕ
  pub tier : TierText

pub record ProviderPolicy : Type 0 where
  pub source : Text
  pub learned_job_limit : ℕ
  pub request_interval : ℕ
  pub cooldown_seconds : ℕ
  pub clean_since : Option ℕ
  pub last_limited_at : Option ℕ
  pub expires_at : Option ℕ
  pub exploration : Exploration

pub record CatalogSourceState : Type 0 where
  pub source : Text
  pub manual_enabled : Bool
  pub cooldown_until : Option ℕ
  pub next_request_at : Option ℕ
  pub updated_at : ℕ

-- The tables, the next keys, and the pools notified since the transaction began. The newest event,
-- job and notification stand first.
pub record Db : Type 0 where
  pub jobs : List WorkJob
  pub permits : List JobPermit
  pub reservations : List StorageReservation
  pub storage : Option StorageState
  pub events : List JobEvent
  pub cycles : List WorkloadCycle
  pub policies : List ProviderPolicy
  pub sources : List CatalogSourceState
  pub notified : List Text
  pub next_job_id : ℕ
  pub next_cycle_id : ℕ
