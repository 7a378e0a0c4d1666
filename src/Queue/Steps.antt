-- ===== src/Queue/Steps.antt =====
-- manga_manager/infrastructure/job_queue.py: every call, for any relation between a row before and
-- after that the changes at the time of the call respect.
use manga_manager.Queue.ClaimChanges.{LeaseRow, claim-related}
use manga_manager.Prelude.{◌≡◌, refl, false, inl, inr, ◌⊎◌, subst}
use manga_manager.Domain.Jobs.{succeeded, failed}
use manga_manager.Queue.Rows.{WorkJob, Db}
use manga_manager.Queue.Validity.{Descending}
use manga_manager.Queue.ClaimLoop
use manga_manager.Queue.Claim.{ClaimRequest}
use manga_manager.Queue.Changes
use manga_manager.Queue.Changes.{RowChanges}
use manga_manager.Queue.EnqueueChanges.{Extends, evolves, enqueue-Extends}
use manga_manager.Queue.Operations.{Call, step, time_of, is_claim}
use manga_manager.Queue.Sequences
use manga_manager.Queue.Leases
use manga_manager.Queue.Returns

pub claim-or_not : (c : Call) → ((r : ClaimRequest) × (c ≡ Call.claim r)) ⊎ (is_claim c ≡ false)
claim-or_not (Call.claim r) = inl (r, refl)
claim-or_not _ = inr refl

pub call-Extends :
    (R : WorkJob → WorkJob → Type 0) (db : Db) (c : Call)
    → RowChanges (time_of c) R
    → Descending db.next_job_id db.jobs
    → is_claim c ≡ false
    → Extends R db (step db c)
unfolding step Leases.succeed Leases.fail Returns.cleanup_expired_permits
call-Extends R db (Call.enqueue r now) laws d h = enqueue-Extends now R laws.place db r d
call-Extends R db (Call.claim r) laws d h = cc
call-Extends R db (Call.heartbeat i o l now) laws d h =
    evolves (Changes.heartbeat-related now R laws db i o l) (Sequences.next-heartbeat db i o l now)
call-Extends R db (Call.progress i o r now) laws d h =
    evolves (Changes.progress-related now R laws db i o r) (Sequences.next-progress db i o r now)
call-Extends R db (Call.succeed i o now) laws d h =
    evolves (Changes.finish-related now R laws db i o succeeded _ _ _ refl)
      (Sequences.next-finish db i o succeeded _ _ _ now)
call-Extends R db (Call.fail i o code m now) laws d h =
    evolves (Changes.finish-related now R laws db i o failed _ code m refl)
      (Sequences.next-finish db i o failed _ code m now)
call-Extends R db (Call.retry i o at code m now) laws d h =
    evolves (Changes.retry-related now R laws db i o at code m)
      (Sequences.next-retry db i o at code m now)
call-Extends R db (Call.cancel i reason now) laws d h =
    evolves (Changes.cancel-related now R laws db i reason) (Sequences.next-cancel db i reason now)
call-Extends R db (Call.release i o reason now) laws d h =
    evolves (Changes.release-related now R laws db i o reason)
      (Sequences.next-release db i o reason now)
call-Extends R db (Call.defer i o at code m now) laws d h =
    evolves (Changes.defer-related now R laws db i o at code m)
      (Sequences.next-defer db i o at code m now)
call-Extends R db (Call.reroute i o r now) laws d h =
    evolves (Changes.reroute-related now R laws db i o r) (Sequences.next-reroute db i o r now)
call-Extends R db (Call.reroute_waiting i r now) laws d h =
    evolves (Changes.reroute_waiting-related now R laws db i r)
      (Sequences.next-reroute_waiting db i r now)
call-Extends R db (Call.resume source now) laws d h =
    evolves (Changes.resume-related now R laws db source) (Sequences.next-resume db source now)
call-Extends R db (Call.retry_now i now) laws d h =
    evolves (Changes.retry_now-related now R laws db i) (Sequences.next-retry_now db i now)
call-Extends R db (Call.fail_exhausted now) laws d h =
    evolves (ClaimLoop.fail_exhausted-related now R laws.loop db.next_job_id db d)
      (Sequences.next-fail_exhausted db now)
call-Extends R db (Call.cleanup now) laws d h = evolves (Changes.same_rows now R laws db) refl

-- Every call evolves the rows, or inserts one.
pub step-Extends :
    (R : WorkJob → WorkJob → Type 0) (db : Db) (c : Call)
    → RowChanges (time_of c) R
    → LeaseRow R
    → Descending db.next_job_id db.jobs
    → Extends R db (step db c)
step-Extends R db c laws lease d = elim (claim-or_not c) [
  | inl (r, e) ↦ rw e (
      unfold step in
      evolves
        (claim-related r R (subst (λ k. RowChanges (time_of k) R) e laws).loop lease db.next_job_id
          db d)
        (Sequences.next-claim db r))
  | inr e ↦ call-Extends R db c laws d e
]
