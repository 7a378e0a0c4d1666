-- ===== src/Queue/Leases.antt =====
-- manga_manager/infrastructure/job_queue.py: the owner of a lease keeps it alive or finishes the
-- job.
-- An operation reads the row that its `where` selects and changes that row: ids are primary keys,
-- so the change is an update under the same `where`.
use manga_manager.Prelude.{
  ℕ, ◌+◌, Bool, true, false, ◌&&◌, List, [], ◌∷◌, Option, none, some, Text, txt, ◌==◌, nat_eq,
  text_eq, leb, if◌then◌else◌, map, count_if, find,
}
use manga_manager.Domain.Jobs.{
  JobState, leased, queued, retry_wait, succeeded, failed, cancelled, state_eq, JobPayload,
}
use manga_manager.Queue.Rows.{WorkJob, JobPermit, StorageReservation, Detail, Db}
use manga_manager.Queue.Store.{
  Result, ok, raise, invalid_lease, held_by, update_jobs, release_permits, record_event,
  record_terminal_units,
}

-- The columns that every operation which ends a lease resets.
abbrev pub unlease : ℕ → WorkJob → WorkJob
unlease now j = record j {
  lease_owner = [];
  lease_expires_at = none;
  heartbeat_at = none;
  updated_at = now;
}

-- `heartbeat`
abbrev pub beat : ℕ → ℕ → WorkJob → WorkJob
beat now lease_for j = record j {
  heartbeat_at = some now;
  lease_expires_at = some (now + lease_for);
  updated_at = now;
}

abbrev extend_permit : ℕ → Text → ℕ → JobPermit → JobPermit
extend_permit job_id owner until p =
    if p.job_id == job_id && p.owner == owner then record p { lease_expires_at = until } else p

abbrev extend_reservation : ℕ → Text → ℕ → StorageReservation → StorageReservation
extend_reservation job_id owner until r =
    if r.job_id == job_id && r.owner == owner then record r { lease_expires_at = until } else r

unfoldable pub extend_children : ℕ → Text → ℕ → Db → Db
extend_children job_id owner until db = record db {
  permits = map (extend_permit job_id owner until) db.permits;
  reservations = map (extend_reservation job_id owner until) db.reservations;
}

unfoldable pub heartbeat : Db → ℕ → Text → ℕ → ℕ → Result (Db × Bool)
heartbeat db job_id owner lease_for now =
    if leb lease_for 0
    then raise invalid_lease
    else let db' = update_jobs (held_by job_id owner now) (beat now lease_for) db in
      if count_if (held_by job_id owner now) db.jobs == 1
      then ok (extend_children job_id owner (now + lease_for) db', true)
      else ok (db', false)

-- `_finish`: a success with a pending payload goes back to the queue with that payload.
abbrev pub requeue_pending : JobPayload → ℕ → WorkJob → WorkJob
requeue_pending pending now j = record (unlease now j) {
  payload = pending;
  pending_payload = none;
  status = queued;
  available_at = now;
  error_code = txt "coalesced_observation";
  error_message = txt "a newer provider observation was coalesced while leased";
}

abbrev pub settle_job : JobState → Text → Text → ℕ → WorkJob → WorkJob
settle_job state code message now j = record (unlease now j) {
  status = state;
  error_code = code;
  error_message = message;
  completed_at = some now;
}

-- The pending payload that `_finish` puts back.
abbrev pub put_back : JobState → Option JobPayload → Option JobPayload
put_back succeeded pending = pending
put_back queued pending = none
put_back leased pending = none
put_back retry_wait pending = none
put_back failed pending = none
put_back cancelled pending = none

abbrev pub finish_job : JobState → Text → Text → ℕ → WorkJob → WorkJob
finish_job state code message now j = elim (put_back state j.pending_payload) [
  | some pending ↦ requeue_pending pending now j
  | none ↦ settle_job state code message now j
]

abbrev error_details : Text → List (Text × Detail)
error_details [] = []
error_details (c ∷ code) = (txt "error_code", Detail.text (c ∷ code)) ∷ []

unfoldable pub finish : Db → ℕ → Text → JobState → Text → Text → Text → ℕ → Db × Bool
finish db job_id owner state event_type code message now =
    elim (find (held_by job_id owner now) db.jobs) [
      | none ↦ (db, false)
      | some job ↦
          let job' = finish_job state code message now job in
          let db' =
            release_permits job.id
              (update_jobs (held_by job_id owner now) (finish_job state code message now) db) in
          elim (put_back state job.pending_payload) [
            | some pending ↦ (
              record_event job' (txt "released") owner job'.error_message
                  ((txt "coalesced", Detail.flag true) ∷ []) db',
              true,
            )
            | none ↦ (
              record_terminal_units job' state now
                  (record_event job' event_type owner message (error_details code) db'),
              true,
            )
          ]
    ]

unfoldable pub succeed : Db → ℕ → Text → ℕ → Db × Bool
succeed db job_id owner now = finish db job_id owner succeeded (txt "succeeded") [] [] now

unfoldable pub fail : Db → ℕ → Text → Text → Text → ℕ → Db × Bool
fail db job_id owner code message now =
    finish db job_id owner failed (txt "failed") code message now
