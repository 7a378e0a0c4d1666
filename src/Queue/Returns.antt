-- ===== src/Queue/Returns.antt =====
-- manga_manager/infrastructure/job_queue.py: a leased job goes back to the queue or ends without
-- success: retry, release, defer, cancel, and the expiry of a last attempt.
use manga_manager.Prelude.{
  not, count_if, ℕ, ◌-◌, Bool, true, false, ◌&&◌, List, [], ◌∷◌, Option, none, some, Text, txt,
  ◌==◌, nat_eq, leb, if◌then◌else◌, keep, find, length,
}
use manga_manager.Domain.Jobs.{
  JobState, leased, queued, retry_wait, failed, cancelled, state_eq, is_active,
}
use manga_manager.Queue.Rows.{WorkJob, Detail, Db}
use manga_manager.Queue.Store.{
  owned_by, held_by, expired_at, update_jobs, release_permits, record_event, record_terminal_units,
}
use manga_manager.Queue.Leases.{unlease, settle_job}

-- `retry`: the state that follows, by the attempts made so far.
abbrev pub is_final : WorkJob → Bool
is_final j = leb j.max_attempts j.attempts

abbrev pub retry_state : WorkJob → JobState
retry_state j = if is_final j then failed else retry_wait

abbrev pub retry_job : ℕ → Text → Text → ℕ → WorkJob → WorkJob
retry_job available_at code message now j = record (unlease now j) {
  status = retry_state j;
  available_at = available_at;
  error_code = code;
  error_message = message;
  completed_at = if is_final j then some now else none;
}

unfoldable pub retry : Db → ℕ → Text → ℕ → Text → Text → ℕ → Db × Option JobState
retry db job_id owner available_at code message now =
    elim (find (held_by job_id owner now) db.jobs) [
      | none ↦ (db, none)
      | some job ↦
          let job' = retry_job available_at code message now job in
          let db' =
            record_event job' (if is_final job then txt "failed" else txt "retry_scheduled") owner
              message
              ((txt "error_code", Detail.text code)
                ∷ (txt "available_at", Detail.time available_at)
                ∷ [])
              (release_permits job.id (
                update_jobs (held_by job_id owner now) (retry_job available_at code message now)
                  db)) in
          (
            if is_final job then record_terminal_units job' failed now db' else db',
            some (retry_state job),
          )
    ]

-- `release` and `defer` give the attempt back: `max(job.attempts - 1, 0)`.
abbrev pub release_job : Text → ℕ → WorkJob → WorkJob
release_job reason now j = record (unlease now j) {
  status = queued;
  attempts = j.attempts - 1;
  available_at = now;
  error_code = txt "released";
  error_message = reason;
}

unfoldable pub release : Db → ℕ → Text → Text → ℕ → Db × Bool
release db job_id owner reason now = elim (find (owned_by job_id owner) db.jobs) [
  | none ↦ (db, false)
  | some job ↦ (
    record_event (release_job reason now job) (txt "released") owner reason []
        (release_permits job.id (update_jobs (owned_by job_id owner) (release_job reason now) db)),
    true,
  )
]

abbrev pub defer_job : ℕ → Text → Text → ℕ → WorkJob → WorkJob
defer_job available_at code message now j = record (unlease now j) {
  status = retry_wait;
  attempts = j.attempts - 1;
  available_at = available_at;
  error_code = code;
  error_message = message;
}

unfoldable pub defer : Db → ℕ → Text → ℕ → Text → Text → ℕ → Db × Bool
defer db job_id owner available_at code message now = elim (find (owned_by job_id owner) db.jobs) [
  | none ↦ (db, false)
  | some job ↦ (
    record_event (defer_job available_at code message now job) (txt "retry_scheduled") owner message
        ((txt "error_code", Detail.text code)
          ∷ (txt "available_at", Detail.time available_at)
          ∷ (txt "blocked", Detail.flag true)
          ∷ [])
        (release_permits job.id
          (update_jobs (owned_by job_id owner) (defer_job available_at code message now) db)),
    true,
  )
]

abbrev pub is_open : ℕ → WorkJob → Bool
is_open job_id j = j.id == job_id && is_active j.status

abbrev pub cancel_job : Text → ℕ → WorkJob → WorkJob
cancel_job reason now = settle_job cancelled (txt "cancelled") reason now

unfoldable pub cancel : Db → ℕ → Text → ℕ → Db × Bool
cancel db job_id reason now = elim (find (is_open job_id) db.jobs) [
  | none ↦ (db, false)
  | some job ↦
      let job' = cancel_job reason now job in
      (
        record_terminal_units job' cancelled now (
            record_event job' (txt "cancelled") job.lease_owner reason []
              (release_permits job.id (update_jobs (is_open job_id) (cancel_job reason now) db))),
        true,
      )
]

-- `_fail_expired_job`
abbrev pub expire_job : ℕ → WorkJob → WorkJob
expire_job now =
    settle_job failed (txt "lease_expired") (txt "job lease expired after its final attempt") now

unfoldable pub fail_expired_job : WorkJob → ℕ → Db → Db
fail_expired_job job now db =
    let job' = expire_job now job in
    record_terminal_units job' failed now (
      release_permits job.id (
        record_event job' (txt "lease_expired") job.lease_owner job'.error_message []
          (update_jobs (λ j. j.id == job.id) (expire_job now) db)))

-- `fail_exhausted_leases`: the rows are selected first, then failed one after the other.
abbrev pub is_exhausted : ℕ → WorkJob → Bool
is_exhausted now j =
    j.status == leased && expired_at now j.lease_expires_at && leb j.max_attempts j.attempts

unfoldable pub fail_all : List WorkJob → ℕ → Db → Db
fail_all [] now db = db
fail_all (j ∷ js) now db = fail_all js now (fail_expired_job j now db)

unfoldable pub fail_exhausted_leases : Db → ℕ → Db × ℕ
fail_exhausted_leases db now =
    let expired = keep (is_exhausted now) db.jobs in (fail_all expired now db, length expired)

-- `cleanup_expired_permits`
unfoldable pub cleanup_expired_permits : Db → ℕ → Db × ℕ
cleanup_expired_permits db now = (
  record db { permits = keep (λ p. not (leb p.lease_expires_at now)) db.permits },
  count_if (λ p. leb p.lease_expires_at now) db.permits,
)
