-- ===== src/Queue/ClaimChanges.antt =====
-- manga_manager/infrastructure/job_queue.py: `claim` as a change of the job table row by row, for any
-- relation between a row before and after that the loop and the writing of a lease respect.
use manga_manager.Prelude.{
  inl, inr, ℕ, [], Pointwise, ◌≡◌, Pointwise-trans, Option-cases, Bool-cases, Text, leb, strip, ◌+◌,
  is_empty, false, Pointwise-refl,
}
use manga_manager.Domain.Jobs.{parse_job_payload}
use manga_manager.Queue.Rows.{WorkJob, Db}
use manga_manager.Queue.Store.{after}
use manga_manager.Queue.Claim.{
  ClaimRequest, Claimed, granted, exhausted, claim_loop, lease_job, grant, claim, survey,
  repair_clash,
}
use manga_manager.Queue.Frames.{frames}
use manga_manager.Queue.Validity.{Descending, Descending-related, update_id-Pointwise}
use manga_manager.Queue.ClaimLoop.{Outcome, claim_loop-Outcome, RowLaws}
use manga_manager.Queue.Candidates.{Leasable}

-- The writing of a lease on a candidate is a step of its row.
abbrev pub LeaseRow : (WorkJob → WorkJob → Type 0) → Type 0
LeaseRow R =
    (owner : Text) (until now : ℕ) (c : WorkJob)
    → is_empty owner ≡ false
    → Leasable c
    → R c (lease_job owner until now c)

module _ (r : ClaimRequest) (R : WorkJob → WorkJob → Type 0) (laws : RowLaws r.now R)
    (lease : LeaseRow R) where
  open laws use {same_row, chain, keeps_id}

  grant-related :
      (n : ℕ) (db : Db) (o : Claimed)
      → is_empty (strip r.owner) ≡ false
      → Descending n db.jobs
      → Outcome r R laws db o
      → Pointwise R db.jobs (after db (grant r o)).jobs
  unfolding grant
  grant-related n db (exhausted d) e desc o = o.0
  grant-related n db (granted d c) e desc o = elim (Bool-cases (repair_clash d c)) [
    | inl t ↦ rw (t, grant) (Pointwise-refl R db.jobs same_row)
    | inr t ↦ elim (Option-cases (parse_job_payload c.kind c.payload)) [
      | inl q ↦ rw (t, q, grant) (Pointwise-refl R db.jobs same_row)
      | inr (p, q) ↦
          rw (t, q, grant)
            (simp frames (
              Pointwise-trans R _ _ _ chain o.0 (
                update_id-Pointwise R n (lease_job (strip r.owner) (r.now + r.lease_for) r.now) c
                  d.jobs (Descending-related R n _ _ keeps_id o.0 desc) o.1
                  (lease (strip r.owner) (r.now + r.lease_for) r.now c e o.2) same_row)))
    ]
  ]

  pub claim-related :
      (n : ℕ) (db : Db) → Descending n db.jobs → Pointwise R db.jobs (after db (claim db r)).jobs
  unfolding claim
  claim-related n db d = elim (Bool-cases (is_empty (strip r.owner))) [
    | inl e ↦ rw e (Pointwise-refl R db.jobs same_row)
    | inr e ↦ elim (Bool-cases (leb r.lease_for 0)) [
      | inl q ↦ rw (e, q) (Pointwise-refl R db.jobs same_row)
      | inr q ↦
          rw (e, q)
            (grant-related n db (claim_loop 50 r (survey r db [] []) db) e d
              (claim_loop-Outcome r R laws n 50 (survey r db [] []) db d))
    ]
  ]
