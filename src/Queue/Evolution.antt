-- ===== src/Queue/Evolution.antt =====
-- manga_manager/infrastructure/job_queue.py: the changes that the operations make of a row are
-- steps of it.
use manga_manager.Queue.ClaimChanges.{LeaseRow}
use manga_manager.Queue.Claim.{repooled}
use manga_manager.Prelude.{ℕ, ◌≡◌, true, Text, arith, nat_eq, text_eq}
use manga_manager.Domain.Jobs.{
  JobState, leased, is_terminal, state_eq, retry_wait, is_active, JobPayload,
}
use manga_manager.Queue.Rows.{WorkJob}
use manga_manager.Queue.Store.{held_by}
use manga_manager.Queue.Leases.{finish_job, beat}
use manga_manager.Queue.Returns.{release_job, defer_job, retry_job, is_open, expire_job, cancel_job}
use manga_manager.Queue.Waiting.{Reroute, reroute_job, redirect, waits, resume_job, retry_now_job}
use manga_manager.Queue.Validity.{Evolves, Evolves-refl, Evolves-trans}
use manga_manager.Queue.Changes.{RowChanges, PlaceChanges}
use manga_manager.Queue.ClaimLoop.{RowLaws}
use manga_manager.Queue.Coalesce.{EnqueueRequest, promote, replace_payload}
use manga_manager.Queue.Enqueue.{move_pool}

finish_job-Evolves :
    (s : JobState) (code message : Text) (now : ℕ) (j : WorkJob)
    → is_terminal s ≡ true
    → j.status ≡ leased
    → Evolves j (finish_job s code message now j)
finish_job-Evolves s code message now j t h = ground arith

retry_job-Evolves :
    (at : ℕ) (code message : Text) (now : ℕ) (j : WorkJob)
    → j.status ≡ leased
    → Evolves j (retry_job at code message now j)
retry_job-Evolves at code message now j h = ground arith

release_job-Evolves :
    (reason : Text) (now : ℕ) (j : WorkJob)
    → j.status ≡ leased
    → Evolves j (release_job reason now j)
release_job-Evolves reason now j h = ground arith

defer_job-Evolves :
    (at : ℕ) (code message : Text) (now : ℕ) (j : WorkJob)
    → j.status ≡ leased
    → Evolves j (defer_job at code message now j)
defer_job-Evolves at code message now j h = ground arith

cancel_job-Evolves :
    (reason : Text) (now job_id : ℕ) (j : WorkJob)
    → is_open job_id j ≡ true
    → Evolves j (cancel_job reason now j)
cancel_job-Evolves reason now job_id j h = ground arith

expire_job-Evolves : (now : ℕ) (j : WorkJob) → j.status ≡ leased → Evolves j (expire_job now j)
expire_job-Evolves now j h = ground arith

beat-Evolves :
    (now lease_for job_id : ℕ) (owner : Text) (j : WorkJob)
    → held_by job_id owner now j ≡ true
    → Evolves j (beat now lease_for j)
beat-Evolves now lease_for job_id owner j h = ground arith

reroute_job-Evolves :
    (r : Reroute) (now : ℕ) (j : WorkJob) → j.status ≡ leased → Evolves j (reroute_job r now j)
reroute_job-Evolves r now j h = ground arith

redirect-Evolves :
    (r : Reroute) (now job_id : ℕ) (j : WorkJob)
    → waits job_id j ≡ true
    → Evolves j (redirect r now j)
redirect-Evolves r now job_id j h = ground arith

resume_job-Evolves : (now : ℕ) (j : WorkJob) → j.status ≡ retry_wait → Evolves j (resume_job now j)
resume_job-Evolves now j h = ground arith

retry_now_job-Evolves :
    (now : ℕ) (j : WorkJob) → j.status ≡ retry_wait → Evolves j (retry_now_job now j)
retry_now_job-Evolves now j h = ground arith

promote-Evolves :
    (r : EnqueueRequest) (now : ℕ) (j : WorkJob)
    → is_active j.status ≡ true
    → Evolves j (promote r now j)
promote-Evolves r now j h = ground arith

replace_payload-Evolves :
    (r : EnqueueRequest) (p : JobPayload) (added now : ℕ) (j : WorkJob)
    → is_active j.status ≡ true
    → Evolves j (replace_payload r p added now j)
replace_payload-Evolves r p added now j h = ground arith

move_pool-Evolves :
    (pool : Text) (now : ℕ) (j : WorkJob)
    → is_active j.status ≡ true
    → Evolves j (move_pool pool now j)
move_pool-Evolves pool now j h = ground arith

repooled-Evolves : (j : WorkJob) → is_active j.status ≡ true → Evolves j (repooled j)
repooled-Evolves j h = ground arith

-- The changes of the loop of a claim are steps of a row.
pub claim_laws : (now : ℕ) → RowLaws now Evolves
claim_laws now = record {
  same_row = Evolves-refl;
  chain = Evolves-trans;
  keeps_id = λ j k e. e.same_id;
  expires = λ j h _. expire_job-Evolves now j h;
  repools = repooled-Evolves;
}

-- So are those of an enqueue.
place_evolution : (now : ℕ) → PlaceChanges now Evolves
place_evolution now = record {
  same_row = Evolves-refl;
  chain = Evolves-trans;
  keeps_id = λ j k e. e.same_id;
  promote_row = λ r j h. promote-Evolves r now j h;
  replace_row = λ r p added j h. replace_payload-Evolves r p added now j h;
  move_row = λ pool j h. move_pool-Evolves pool now j h;
}

-- So are those of all operations.
pub lease_evolution : LeaseRow Evolves
lease_evolution owner until now c e l = ground arith

pub evolution : (now : ℕ) → RowChanges now Evolves
evolution now = record {
  loop = claim_laws now;
  place = place_evolution now;
  finish_row = λ s code message j t h. finish_job-Evolves s code message now j t h;
  retry_row = λ at code message j h. retry_job-Evolves at code message now j h;
  release_row = λ reason j h. release_job-Evolves reason now j h;
  defer_row = λ at code message j h. defer_job-Evolves at code message now j h;
  cancel_row = λ reason job_id j h. cancel_job-Evolves reason now job_id j h;
  beat_row = λ lease_for job_id owner j h. beat-Evolves now lease_for job_id owner j h;
  progress_row = λ r j h. ground arith;
  reroute_row = λ r j h. reroute_job-Evolves r now j h;
  redirect_row = λ r job_id j h. redirect-Evolves r now job_id j h;
  resume_row = resume_job-Evolves now;
  retry_now_row = retry_now_job-Evolves now;
}
