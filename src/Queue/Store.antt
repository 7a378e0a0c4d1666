-- ===== src/Queue/Store.antt =====
-- manga_manager/infrastructure/job_queue.py: the statements that every operation of the queue is
-- made of: selecting a row, changing the rows of a `where`, releasing permits, recording an event,
-- waking the workers, and closing a workload cycle.
use manga_manager.Prelude.{
  ℕ, ◌+◌, Bool, false, not, ◌&&◌, List, ◌∷◌, Option, none, some, Text, ◌==◌, nat_eq, text_eq, ltb,
  leb, if◌then◌else◌, max, take, keep, any, update_where,
}
use manga_manager.Domain.Jobs.{
  JobState, leased, queued, retry_wait, succeeded, failed, cancelled, state_eq, is_active,
}
use manga_manager.Queue.Rows.{WorkJob, WorkloadCycle, settled, JobEvent, Detail, Db}

pub data Error : Type 0 where
  empty_dedupe_key invalid_max_attempts invalid_payload empty_owner invalid_lease : Error
  integrity_error : Error

pub data Result {ℓ} (A : Type ℓ) : Type ℓ where
  ok : A → Result A
  raise : Error → Result A

infixl 5 ◌>>=◌
abbrev pub ◌>>=◌ {ℓ κ} : {A : Type ℓ} {B : Type κ} → Result A → (A → Result B) → Result B
ok a >>= f = f a
raise e >>= f = raise e

-- An exception rolls the transaction back.
abbrev pub after {ℓ} : {A : Type ℓ} → Db → Result (Db × A) → Db
after db (ok r) = r.0
after db (raise e) = db

-- `lease_expires_at > now`, and `<= now`, in SQL: a test on NULL does not hold.
abbrev pub expires_after : ℕ → Option ℕ → Bool
expires_after now none = false
expires_after now (some t) = ltb now t

abbrev pub expired_at : ℕ → Option ℕ → Bool
expired_at now none = false
expired_at now (some t) = leb t now

-- `id = job_id AND status = 'leased' AND lease_owner = owner`
abbrev pub owned_by : ℕ → Text → WorkJob → Bool
owned_by job_id owner j = j.id == job_id && j.status == leased && j.lease_owner == owner

-- The same with `AND lease_expires_at > now`.
abbrev pub held_by : ℕ → Text → ℕ → WorkJob → Bool
held_by job_id owner now j = owned_by job_id owner j && expires_after now j.lease_expires_at

-- A lease that counts at `now`.
abbrev pub live_lease : ℕ → WorkJob → Bool
live_lease now j = j.status == leased && expires_after now j.lease_expires_at

abbrev pub update_jobs : (WorkJob → Bool) → (WorkJob → WorkJob) → Db → Db
update_jobs p f db = record db { jobs = update_where p f db.jobs }

unfoldable pub release_permits : ℕ → Db → Db
release_permits job_id db = record db {
  permits = keep (λ p. not (p.job_id == job_id)) db.permits;
  reservations = keep (λ r. not (r.job_id == job_id)) db.reservations;
}

unfoldable pub record_event : WorkJob → Text → Text → Text → List (Text × Detail) → Db → Db
record_event job event_type owner message details db = record db { events = entry ∷ db.events }
  where
    entry : JobEvent
    entry = record {
      job_id = job.id;
      event_type = event_type;
      status = job.status;
      owner = owner;
      message = take 4000 message;
      details = details;
    }

-- `pg_notify` on PostgreSQL.
unfoldable pub notify_workers : Text → Db → Db
notify_workers pool db = record db { notified = take 200 pool ∷ db.notified }

-- `_record_terminal_units`: the counters of one cycle.
unfoldable pub add_units : JobState → ℕ → ℕ → WorkloadCycle → WorkloadCycle
add_units succeeded units now c = record c {
  successful_units = c.successful_units + units;
  updated_at = now;
}
add_units failed units now c = record c { failed_units = c.failed_units + units; updated_at = now }
add_units cancelled units now c = record c {
  cancelled_units = c.cancelled_units + units;
  updated_at = now;
}
add_units queued units now c = record c { updated_at = now }
add_units leased units now c = record c { updated_at = now }
add_units retry_wait units now c = record c { updated_at = now }

-- `column = key` in SQL, on a nullable column.
abbrev pub is_key : ℕ → Option ℕ → Bool
is_key key none = false
is_key key (some k) = k == key

abbrev pub in_cycle : ℕ → WorkJob → Bool
in_cycle cycle j = is_key cycle j.cycle_id

abbrev pub settle : ℕ → WorkloadCycle → WorkloadCycle
settle now c = record c { status = settled; settled_at = some now }

-- The cycle settles when no other job of it is active.
unfoldable pub record_terminal_units : WorkJob → JobState → ℕ → Db → Db
record_terminal_units job state now db = elim job.cycle_id [
  | none ↦ db
  | some cycle ↦
      let remaining : Bool =
        any (λ j. in_cycle cycle j && not (j.id == job.id) && is_active j.status) db.jobs in
      let close : WorkloadCycle → WorkloadCycle = λ c. if remaining then c else settle now c in
      record db {
        cycles =
            update_where (λ c. c.id == cycle)
              (λ c. close (add_units state (max job.logical_units 1) now c)) db.cycles;
      }
]
