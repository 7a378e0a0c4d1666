-- ===== src/Queue/Waiting.antt =====
-- manga_manager/infrastructure/job_queue.py: a job is sent to another provider, or a waiting job
-- is released early.
use manga_manager.Prelude.{
  ℕ, Bool, true, false, ◌&&◌, ◌||◌, List, [], ◌∷◌, ◌++◌, map, Option, none, some, Text, txt, ◌==◌,
  nat_eq, text_eq, ltb, keep, find, length, take, strip, contains,
}
use manga_manager.Domain.Jobs.{
  JobPayload, JobState, queued, retry_wait, state_eq, parse_job_payload,
}
use manga_manager.Queue.Rows.{WorkJob, Detail, Db}
use manga_manager.Queue.Store.{
  Result, ok, raise, invalid_payload, owned_by, update_jobs, release_permits, record_event,
  notify_workers,
}
use manga_manager.Queue.Leases.{unlease}
use manga_manager.Queue.Routing.{default_pool}

-- What a job is rerouted to.
pub record Reroute : Type 0 where
  pub payload : JobPayload
  pub source : Text
  pub available_at : ℕ
  pub message : Text
  pub details : List (Text × Detail)

-- The columns that both reroutings write; the payload is the validated one.
abbrev pub redirect : Reroute → ℕ → WorkJob → WorkJob
redirect r now j = record j {
  payload = r.payload;
  source = strip r.source;
  pool = default_pool j.kind (strip r.source);
  status = retry_wait;
  available_at = r.available_at;
  error_code = txt "rerouted";
  error_message = take 4000 r.message;
  updated_at = now;
}

abbrev pub reroute_job : Reroute → ℕ → WorkJob → WorkJob
reroute_job r now j = redirect r now (unlease now j)

unfoldable pub reroute : Db → ℕ → Text → Reroute → ℕ → Result (Db × Bool)
reroute db job_id owner r now = elim (find (owned_by job_id owner) db.jobs) [
  | none ↦ ok (db, false)
  | some job ↦ elim (parse_job_payload job.kind r.payload) [
    | none ↦ raise invalid_payload
    | some _ ↦
        let job' = reroute_job r now job in
        ok (
          record_event job' (txt "rerouted") owner r.message r.details (
              notify_workers job'.pool (
                release_permits job.id
                  (update_jobs (owned_by job_id owner) (reroute_job r now) db))),
          true,
        )
  ]
]

abbrev pub is_waiting : JobState → Bool
is_waiting s = s == queued || s == retry_wait

abbrev pub waits : ℕ → WorkJob → Bool
waits job_id j = j.id == job_id && is_waiting j.status

unfoldable pub reroute_waiting : Db → ℕ → Reroute → ℕ → Result (Db × Bool)
reroute_waiting db job_id r now = elim (find (waits job_id) db.jobs) [
  | none ↦ ok (db, false)
  | some job ↦ elim (parse_job_payload job.kind r.payload) [
    | none ↦ raise invalid_payload
    | some _ ↦
        let job' = redirect r now job in
        ok (
          record_event job' (txt "rerouted") [] r.message r.details
              (notify_workers job'.pool (update_jobs (waits job_id) (redirect r now) db)),
          true,
        )
  ]
]

-- `PROVIDER_RECOVERY_ERROR_CODES`
abbrev recovery_codes : List Text
recovery_codes =
    txt "provider_origin_unavailable" ∷ txt "source_http_error" ∷ txt "source_network_error" ∷ []

-- `resume_recovered_provider`: the rows that an outage deferred.
unfoldable pub is_outage_deferred : Text → ℕ → WorkJob → Bool
is_outage_deferred source now j =
    j.source == source
    && j.status == retry_wait
    && ltb now j.available_at
    && contains recovery_codes j.error_code

abbrev pub resume_job : ℕ → WorkJob → WorkJob
resume_job now j = record j {
  available_at = now;
  error_code = [];
  error_message = [];
  updated_at = now;
}

unfoldable pub announce_all : Text → List WorkJob → Db → Db
announce_all message [] db = db
announce_all message (j ∷ js) db =
    announce_all message js
      (notify_workers j.pool (record_event j (txt "released") [] message [] db))

unfoldable pub resume_recovered_provider : Db → Text → ℕ → Db × ℕ
resume_recovered_provider db source now =
    let resumed = keep (is_outage_deferred source now) db.jobs in
    (
      announce_all (source ++ txt " recovered; deferred work released")
          (map (resume_job now) resumed)
          (update_jobs (is_outage_deferred source now) (resume_job now) db),
      length resumed,
    )

abbrev pub in_retry_wait : ℕ → WorkJob → Bool
in_retry_wait job_id j = j.id == job_id && j.status == retry_wait

abbrev pub retry_now_job : ℕ → WorkJob → WorkJob
retry_now_job now j = record j {
  status = queued;
  available_at = now;
  updated_at = now;
  completed_at = none;
}

unfoldable pub retry_now : Db → ℕ → ℕ → Db × Option WorkJob
retry_now db job_id now = elim (find (in_retry_wait job_id) db.jobs) [
  | none ↦ (db, none)
  | some job ↦
      let job' = retry_now_job now job in
      (
        notify_workers job.pool (
            record_event job' (txt "released") [] (txt "scheduled retry released now by operator")
              ((txt "manual", Detail.flag true) ∷ (txt "attempts_unchanged", Detail.flag true) ∷ [])
              (update_jobs (in_retry_wait job_id) (retry_now_job now) db)),
        some job',
      )
]
