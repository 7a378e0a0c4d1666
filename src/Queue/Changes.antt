-- ===== src/Queue/Changes.antt =====
-- manga_manager/infrastructure/job_queue.py: the operations on existing rows, for any relation
-- between a row before and after that their changes of a row respect.
use manga_manager.Prelude.{
  refl, ℕ, ◌≡◌, true, [], Text, arith, nat_eq, text_eq, Bool, Pointwise, update_where,
  Pointwise-refl, update_where-Pointwise, Option-cases, List, find, inl, ◌∷◌, inr, Bool-cases, leb,
  count_if, ◌==◌,
}
use manga_manager.Domain.Jobs.{
  JobState, leased, is_terminal, state_beq_iff, state_eq, retry_wait, parse_job_payload, is_active,
  JobPayload,
}
use manga_manager.Queue.Rows.{WorkJob, Db}
use manga_manager.Queue.Store.{owned_by, held_by, after}
use manga_manager.Queue.Leases.{finish_job, heartbeat, finish, beat, put_back, extend_children}
use manga_manager.Queue.Progress.{Report, report_job, progress, progress_of, announces}
use manga_manager.Queue.Returns.{
  release_job, defer_job, retry_job, is_open, cancel_job, cancel, retry, release, defer, is_final,
}
use manga_manager.Queue.Waiting.{
  Reroute, reroute, reroute_job, redirect, waits, resume_job, retry_now_job, reroute_waiting,
  retry_now, resume_recovered_provider, is_outage_deferred, in_retry_wait, announce_all,
}
use manga_manager.Queue.Frames.{frames}
use manga_manager.Queue.ClaimLoop.{RowLaws}
use manga_manager.Queue.Coalesce.{EnqueueRequest, promote, replace_payload}
use manga_manager.Queue.Enqueue.{move_pool}

-- A relation between a row before and after an enqueue, as far as its changes of a row go.
pub record PlaceChanges (now : ℕ) (R : WorkJob → WorkJob → Type 0) : Type 0 where
  pub same_row : (j : WorkJob) → R j j
  pub chain : (i j k : WorkJob) → R i j → R j k → R i k
  pub keeps_id : (j k : WorkJob) → R j k → k.id ≡ j.id
  pub promote_row :
      (r : EnqueueRequest) (j : WorkJob) → is_active j.status ≡ true → R j (promote r now j)
  pub replace_row :
      (r : EnqueueRequest) (p : JobPayload) (added : ℕ) (j : WorkJob)
      → is_active j.status ≡ true
      → R j (replace_payload r p added now j)
  pub move_row :
      (pool : Text) (j : WorkJob) → is_active j.status ≡ true → R j (move_pool pool now j)

-- A relation between a row before and after a call at one time, as far as the operations use it:
-- each change of a row under the condition on which the operations make it.
pub record RowChanges (now : ℕ) (R : WorkJob → WorkJob → Type 0) : Type 0 where
  pub loop : RowLaws now R
  pub place : PlaceChanges now R
  pub finish_row :
      (s : JobState) (code message : Text) (j : WorkJob)
      → is_terminal s ≡ true
      → j.status ≡ leased
      → R j (finish_job s code message now j)
  pub retry_row :
      (at : ℕ) (code message : Text) (j : WorkJob)
      → j.status ≡ leased
      → R j (retry_job at code message now j)
  pub release_row :
      (reason : Text) (j : WorkJob) → j.status ≡ leased → R j (release_job reason now j)
  pub defer_row :
      (at : ℕ) (code message : Text) (j : WorkJob)
      → j.status ≡ leased
      → R j (defer_job at code message now j)
  pub cancel_row :
      (reason : Text) (job_id : ℕ) (j : WorkJob)
      → is_open job_id j ≡ true
      → R j (cancel_job reason now j)
  pub beat_row :
      (lease_for job_id : ℕ) (owner : Text) (j : WorkJob)
      → held_by job_id owner now j ≡ true
      → R j (beat now lease_for j)
  pub progress_row : (r : Report) (j : WorkJob) → j.status ≡ leased → R j (report_job r now j)
  pub reroute_row : (r : Reroute) (j : WorkJob) → j.status ≡ leased → R j (reroute_job r now j)
  pub redirect_row :
      (r : Reroute) (job_id : ℕ) (j : WorkJob) → waits job_id j ≡ true → R j (redirect r now j)
  pub resume_row : (j : WorkJob) → j.status ≡ retry_wait → R j (resume_job now j)
  pub retry_now_row : (j : WorkJob) → j.status ≡ retry_wait → R j (retry_now_job now j)

-- A row that an owner holds is leased.
pub owned_by-leased :
    (job_id : ℕ) (owner : Text) (j : WorkJob) → owned_by job_id owner j ≡ true → j.status ≡ leased
owned_by-leased job_id owner j h = ground (arith, state_beq_iff j.status leased)

jobs-announce_all :
    (message : Text) (js : List WorkJob) (db : Db) → (announce_all message js db).jobs ≡ db.jobs
unfolding announce_all
jobs-announce_all message [] db = refl
jobs-announce_all message (j ∷ js) db = rw (jobs-announce_all message js) (simp frames)

module _ (now : ℕ) (R : WorkJob → WorkJob → Type 0) (laws : RowChanges now R) where
  open laws use {
    loop, finish_row, retry_row, release_row, defer_row, cancel_row, beat_row, progress_row,
    reroute_row, redirect_row, resume_row, retry_now_row,
  }
  open loop use {same_row}

  update_rows :
      (p : WorkJob → Bool) (f : WorkJob → WorkJob) (db : Db)
      → ((j : WorkJob) → p j ≡ true → R j (f j))
      → Pointwise R db.jobs (update_where p f db.jobs)
  update_rows p f db h = update_where-Pointwise R p f db.jobs h same_row

  pub same_rows : (db : Db) → Pointwise R db.jobs db.jobs
  same_rows db = Pointwise-refl R db.jobs same_row

  pub heartbeat-related :
      (db : Db) (job_id : ℕ) (owner : Text) (lease_for : ℕ)
      → Pointwise R db.jobs (after db (heartbeat db job_id owner lease_for now)).jobs
  unfolding heartbeat extend_children
  heartbeat-related db job_id owner lease_for = elim (Bool-cases (leb lease_for 0)) [
    | inl e ↦ rw e (same_rows db)
    | inr e ↦ elim (Bool-cases (count_if (held_by job_id owner now) db.jobs == 1)) [
      | inl q ↦ rw (e, q) moved
      | inr q ↦ rw (e, q) moved
    ]
  ]
    where
      moved :
          Pointwise R db.jobs (update_where (held_by job_id owner now) (beat now lease_for) db.jobs)
      moved =
          update_rows (held_by job_id owner now) (beat now lease_for) db
            (beat_row lease_for job_id owner)

  pub progress-related :
      (db : Db) (job_id : ℕ) (owner : Text) (r : Report)
      → Pointwise R db.jobs (progress db job_id owner r now).0.jobs
  unfolding progress
  progress-related db job_id owner r =
      elim (Option-cases (find (held_by job_id owner now) db.jobs)) [
        | inl e ↦ rw (e, progress) (same_rows db)
        | inr (j, e) ↦ elim (Bool-cases (announces j.progress (progress_of r now j.progress))) [
          | inl q ↦ rw (e, progress, q) (simp frames moved)
          | inr q ↦ rw (e, progress, q) moved
        ]
      ]
    where
      moved :
          Pointwise R db.jobs (update_where (held_by job_id owner now) (report_job r now) db.jobs)
      moved =
          update_rows (held_by job_id owner now) (report_job r now) db
            λ j h. progress_row r j (owned_by-leased job_id owner j (ground arith))

  pub finish-related :
      (db : Db) (job_id : ℕ) (owner : Text) (s : JobState) (event code message : Text)
      → is_terminal s ≡ true
      → Pointwise R db.jobs (finish db job_id owner s event code message now).0.jobs
  unfolding finish
  finish-related db job_id owner s event code message t =
      elim (Option-cases (find (held_by job_id owner now) db.jobs)) [
        | inl e ↦ rw (e, finish) (same_rows db)
        | inr (j, e) ↦ elim (Option-cases (put_back s j.pending_payload)) [
          | inl q ↦ rw (e, finish, q) (simp frames moved)
          | inr (p, q) ↦ rw (e, finish, q) (simp frames moved)
        ]
      ]
    where
      moved :
          Pointwise R db.jobs
            (update_where (held_by job_id owner now) (finish_job s code message now) db.jobs)
      moved =
          update_rows (held_by job_id owner now) (finish_job s code message now) db
            λ j h. finish_row s code message j t (owned_by-leased job_id owner j (ground arith))

  pub retry-related :
      (db : Db) (job_id : ℕ) (owner : Text) (at : ℕ) (code message : Text)
      → Pointwise R db.jobs (retry db job_id owner at code message now).0.jobs
  unfolding retry
  retry-related db job_id owner at code message =
      elim (Option-cases (find (held_by job_id owner now) db.jobs)) [
        | inl e ↦ rw (e, retry) (same_rows db)
        | inr (j, e) ↦ elim (Bool-cases (is_final j)) [
          | inl q ↦ rw (e, retry, q) (simp frames moved)
          | inr q ↦ rw (e, retry, q) (simp frames moved)
        ]
      ]
    where
      moved :
          Pointwise R db.jobs
            (update_where (held_by job_id owner now) (retry_job at code message now) db.jobs)
      moved =
          update_rows (held_by job_id owner now) (retry_job at code message now) db
            λ j h. retry_row at code message j (owned_by-leased job_id owner j (ground arith))

  pub release-related :
      (db : Db) (job_id : ℕ) (owner reason : Text)
      → Pointwise R db.jobs (release db job_id owner reason now).0.jobs
  unfolding release
  release-related db job_id owner reason =
      elim (Option-cases (find (owned_by job_id owner) db.jobs)) [
        | inl e ↦ rw (e, release) (same_rows db)
        | inr (j, e) ↦
            rw (e, release)
              (simp frames (
                update_rows (owned_by job_id owner) (release_job reason now) db
                  λ k h. release_row reason k (owned_by-leased job_id owner k h)))
      ]

  pub defer-related :
      (db : Db) (job_id : ℕ) (owner : Text) (at : ℕ) (code message : Text)
      → Pointwise R db.jobs (defer db job_id owner at code message now).0.jobs
  unfolding defer
  defer-related db job_id owner at code message =
      elim (Option-cases (find (owned_by job_id owner) db.jobs)) [
        | inl e ↦ rw (e, defer) (same_rows db)
        | inr (j, e) ↦
            rw (e, defer)
              (simp frames (
                update_rows (owned_by job_id owner) (defer_job at code message now) db
                  λ k h. defer_row at code message k (owned_by-leased job_id owner k h)))
      ]

  pub cancel-related :
      (db : Db) (job_id : ℕ) (reason : Text)
      → Pointwise R db.jobs (cancel db job_id reason now).0.jobs
  unfolding cancel
  cancel-related db job_id reason = elim (Option-cases (find (is_open job_id) db.jobs)) [
    | inl e ↦ rw (e, cancel) (same_rows db)
    | inr (j, e) ↦
        rw (e, cancel)
          (simp frames (
            update_rows (is_open job_id) (cancel_job reason now) db
              λ k h. cancel_row reason job_id k h))
  ]

  pub reroute-related :
      (db : Db) (job_id : ℕ) (owner : Text) (r : Reroute)
      → Pointwise R db.jobs (after db (reroute db job_id owner r now)).jobs
  unfolding reroute
  reroute-related db job_id owner r = elim (Option-cases (find (owned_by job_id owner) db.jobs)) [
    | inl e ↦ rw (e, reroute) (same_rows db)
    | inr (j, e) ↦ elim (Option-cases (parse_job_payload j.kind r.payload)) [
      | inl q ↦ rw (e, reroute, q) (same_rows db)
      | inr (p, q) ↦
          rw (e, reroute, q)
            (simp frames (
              update_rows (owned_by job_id owner) (reroute_job r now) db
                λ k h. reroute_row r k (owned_by-leased job_id owner k h)))
    ]
  ]

  pub reroute_waiting-related :
      (db : Db) (job_id : ℕ) (r : Reroute)
      → Pointwise R db.jobs (after db (reroute_waiting db job_id r now)).jobs
  unfolding reroute_waiting
  reroute_waiting-related db job_id r = elim (Option-cases (find (waits job_id) db.jobs)) [
    | inl e ↦ rw (e, reroute_waiting) (same_rows db)
    | inr (j, e) ↦ elim (Option-cases (parse_job_payload j.kind r.payload)) [
      | inl q ↦ rw (e, reroute_waiting, q) (same_rows db)
      | inr (p, q) ↦
          rw (e, reroute_waiting, q)
            (simp frames
              (update_rows (waits job_id) (redirect r now) db λ k h. redirect_row r job_id k h))
    ]
  ]

  pub resume-related :
      (db : Db) (source : Text)
      → Pointwise R db.jobs (resume_recovered_provider db source now).0.jobs
  unfolding resume_recovered_provider is_outage_deferred
  resume-related db source = rw jobs-announce_all (
      update_rows (is_outage_deferred source now) (resume_job now) db
        λ j h. resume_row j (ground (arith, state_beq_iff j.status retry_wait)))

  pub retry_now-related :
      (db : Db) (job_id : ℕ) → Pointwise R db.jobs (retry_now db job_id now).0.jobs
  unfolding retry_now
  retry_now-related db job_id = elim (Option-cases (find (in_retry_wait job_id) db.jobs)) [
    | inl e ↦ rw (e, retry_now) (same_rows db)
    | inr (j, e) ↦
        rw (e, retry_now)
          (simp frames (
            update_rows (in_retry_wait job_id) (retry_now_job now) db
              λ k h. retry_now_row k (ground (arith, state_beq_iff k.status retry_wait))))
  ]
