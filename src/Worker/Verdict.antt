-- ===== src/Worker/Verdict.antt =====
-- manga_manager/worker/runtime.py: what a worker reports of a lease, and what becomes of the job.
use manga_manager.Worker.Ends.{
  Completes, Retries, defer-Ends, find_row, Stands, owned_id, retry-Retries, is_failed, finish-Ends,
  is_retrying, release-Ends, is_queued, finish-Completes,
}
use manga_manager.Prelude.{
  ◌≡◌, ℕ, refl, inl, inr, Bool, true, false, [], Option, some, ◌+◌, Text, ◌⊎◌, In, find,
  Option-cases, Bool-cases, ap, arith, txt, if◌then◌else◌, both,
}
use manga_manager.Domain.Jobs.{JobState, succeeded, failed, state_eq}
use manga_manager.Queue.Rows.{WorkJob, Db}
use manga_manager.Queue.Store.{held_by, owned_by}
use manga_manager.Queue.Leases
use manga_manager.Queue.Leases.{finish, finish_job, put_back}
use manga_manager.Queue.Returns
use manga_manager.Queue.Returns.{is_final, retry_job, release_job, defer_job}
use manga_manager.Queue.Claim.{JobLease}
use manga_manager.Queue.WellFormed.{IsWellFormed}
use manga_manager.Queue.Fencing.{held_id}
use manga_manager.Worker.Handlers.{
  HandlerOutcome, returned, deferred_error, retryable_error, rerouted_error, permanent_error,
  lease_lost_error, cancelled_error, unexpected_error,
}
use manga_manager.Worker.Runtime.{
  JobWorker, idle, crashed, conclude, retry_lease, fail_lease, Ending, result, shut_down,
  WorkerRunResult, retry_scheduled, lease_lost, crashed, retried,
}

-- What the end of a turn tells, beside the database before and after it: a job that is reported
-- done has succeeded or waits with a newer payload, one that is reported failed has failed, one
-- that is reported retrying waits for that (or the handler has already sent it elsewhere), and
-- nothing has changed where the lease was lost.
abbrev pub Told : ℕ → HandlerOutcome → Db → Db × Ending → Type 0
Told i o db (d, result WorkerRunResult.succeeded) = (o ≡ returned) × Completes i db.jobs d.jobs
Told i o db (d, result WorkerRunResult.failed) = Stands i is_failed d.jobs
Told i o db (d, result retry_scheduled) =
    Stands i is_retrying d.jobs ⊎ ((o ≡ rerouted_error) × (d ≡ db))
Told i o db (d, result lease_lost) = d ≡ db
Told i o db (d, result idle) = ⊥
Told i o db (d, shut_down) = (o ≡ cancelled_error) × ((d ≡ db) ⊎ Stands i is_queued d.jobs)
Told i o db (d, crashed e) = ⊥

retried-Told :
    (i : ℕ) (o : HandlerOutcome) (db : Db) (r : Db × Option JobState)
    → Retries i db r
    → Told i o db (r.0, retried r.1)
retried-Told i o db (d, a) (inl e) = rw (ap (λ r. r.1) e) (ap (λ r. r.0) e)
retried-Told i o db (d, a) (inr (inl (row, told))) = rw told (inl row)
retried-Told i o db (d, a) (inr (inr (row, told))) = rw told row

-- Whatever ends the handler, the worker reports what has become of the job: reported done, it has
-- succeeded where nothing newer was pending, and otherwise waits with the newer payload; reported
-- failed, it has failed; reported retrying, it waits for that, or the handler had sent it elsewhere;
-- with a lost lease nothing has changed; at a shutdown it is released or nothing has changed.
pub conclude-Told :
    (w : JobWorker) (lease : JobLease) (o : HandlerOutcome) (jitter now : ℕ) (lost : Bool) (db : Db)
    → Told lease.id o db (conclude w lease o jitter now lost db)
unfolding conclude retry_lease fail_lease Leases.succeed Leases.fail
conclude-Told w lease (deferred_error code message retry_after) jitter now lost db =
    elim (defer-Ends db lease.id lease.owner (now + retry_after) code message now) [
      | inl e ↦ rw e refl
      | inr (row, told) ↦ rw told (inl row)
    ]
conclude-Told w lease (retryable_error code message retry_after) jitter now lost db =
    retried-Told lease.id _ db _ (retry-Retries db lease.id lease.owner _ code message now)
conclude-Told w lease rerouted_error jitter now lost db = inr (refl, refl)
conclude-Told w lease (permanent_error code message) jitter now lost db =
    elim (finish-Ends db lease.id lease.owner failed (txt "failed") code message now) [
      | inl e ↦ rw e refl
      | inr (row, told) ↦ rw told (row.0, row.1, row.2, let t = row.3 in ground arith)
    ]
conclude-Told w lease lease_lost_error jitter now lost db = refl
conclude-Told w lease cancelled_error jitter now lost db = (
  refl,
  elim (release-Ends db lease.id lease.owner (txt "worker shutting down") now) [
    | inl e ↦ inl (ap (λ r. r.0) e)
    | inr (row, told) ↦ inr row
  ],
)
conclude-Told w lease (unexpected_error e) jitter now lost db =
    retried-Told lease.id _ db _ (retry-Retries db lease.id lease.owner _ _ _ now)
conclude-Told w lease returned jitter now true db = refl
conclude-Told w lease returned jitter now false db =
    elim (finish-Completes db lease.id lease.owner (txt "succeeded") [] [] now) [
      | inl e ↦ rw e refl
      | inr (row, told) ↦ rw told (refl, row)
    ]

-- What the worker answers for a job that it still holds.
abbrev pub answer_of : WorkJob → HandlerOutcome → Ending
answer_of j returned = result WorkerRunResult.succeeded
answer_of j (deferred_error code message retry_after) = result retry_scheduled
answer_of j (retryable_error code message retry_after) =
    if is_final j then result WorkerRunResult.failed else result retry_scheduled
answer_of j rerouted_error = result retry_scheduled
answer_of j (permanent_error code message) = result WorkerRunResult.failed
answer_of j lease_lost_error = result lease_lost
answer_of j cancelled_error = shut_down
answer_of j (unexpected_error e) =
    if is_final j then result WorkerRunResult.failed else result retry_scheduled

module _ (db : Db) (j : WorkJob) (owner : Text) (now : ℕ) (w : IsWellFormed db) (m : In j db.jobs)
    (h : held_by j.id owner now j ≡ true) where
  pub held_found : find (held_by j.id owner now) db.jobs ≡ some j
  held_found = find_row db (held_by j.id owner now) j w (held_id j.id owner now) m h

  owned_found : find (owned_by j.id owner) db.jobs ≡ some j
  owned_found = find_row db (owned_by j.id owner) j w (owned_id j.id owner) m (both _ _ h).0

  finish-held :
      (s : JobState) (event code message : Text)
      → (finish db j.id owner s event code message now).1 ≡ true
  unfolding finish
  finish-held s event code message = elim (Option-cases (put_back s j.pending_payload)) [
    | inl q ↦ rw (held_found, finish, q) refl
    | inr (p, q) ↦ rw (held_found, finish, q) refl
  ]

  retry-held :
      (at : ℕ) (code message : Text)
      → retried (Returns.retry db j.id owner at code message now).1
        ≡ (if is_final j then result WorkerRunResult.failed else result retry_scheduled)
  unfolding Returns.retry
  retry-held at code message = elim (Bool-cases (is_final j)) [
    | inl q ↦ rw (held_found, Returns.retry, q) refl
    | inr q ↦ rw (held_found, Returns.retry, q) refl
  ]

  defer-held :
      (at : ℕ) (code message : Text) → (Returns.defer db j.id owner at code message now).1 ≡ true
  unfolding Returns.defer
  defer-held at code message = rw (owned_found, Returns.defer) refl

-- A worker whose lease is live when the handler ends, and whose heartbeats have not failed, in a
-- well-formed database, answers by how the handler ended: a job that the handler finished is done,
-- one that it deferred or sent elsewhere is retrying, one that it gave up has failed, and after any
-- other exception it has failed if that was the last attempt and is retrying otherwise.
pub conclude_held :
    (w : JobWorker) (lease : JobLease) (o : HandlerOutcome) (jitter now : ℕ) (db : Db) (j : WorkJob)
    → IsWellFormed db
    → In j db.jobs
    → lease.id ≡ j.id
    → held_by j.id lease.owner now j ≡ true
    → (conclude w lease o jitter now false db).1 ≡ answer_of j o
unfolding conclude retry_lease fail_lease Leases.succeed Leases.fail
conclude_held w lease (deferred_error code message retry_after) jitter now db j wf m same h =
    rw (same, defer-held db j lease.owner now wf m h (now + retry_after) code message) refl
conclude_held w lease (retryable_error code message retry_after) jitter now db j wf m same h =
    rw same (retry-held db j lease.owner now wf m h _ code message)
conclude_held w lease rerouted_error jitter now db j wf m same h = refl
conclude_held w lease (permanent_error code message) jitter now db j wf m same h =
    rw (same, finish-held db j lease.owner now wf m h failed (txt "failed") code message) refl
conclude_held w lease lease_lost_error jitter now db j wf m same h = refl
conclude_held w lease cancelled_error jitter now db j wf m same h = refl
conclude_held w lease (unexpected_error e) jitter now db j wf m same h =
    rw same (retry-held db j lease.owner now wf m h _ _ _)
conclude_held w lease returned jitter now db j wf m same h =
    rw (same, finish-held db j lease.owner now wf m h succeeded (txt "succeeded") [] []) refl
