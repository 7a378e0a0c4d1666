-- ===== src/Queue/ClaimLoop.antt =====
-- manga_manager/infrastructure/job_queue.py: the loop of `claim` and `fail_exhausted_leases`, for
-- any relation between a row before and after that their changes of a row respect.
use manga_manager.Queue.PermitFrames.{
  fail_exhausted-NoMore, jobs-recover, NoMorePermits, active_permits-same, fail_expired_job-NoMore,
  recover-NoMore,
}
use manga_manager.Queue.Candidates.{Leasable, select_candidate-In, is_claimable-Leasable}
use manga_manager.Prelude.{
  zero, ◌∙◌, ℕ, ◌≡◌, ◌≤◌, ◌+◌, List, [], ◌∷◌, Text, refl, true, In, Pointwise, arith, some, both,
  All, Bool-cases, keep-In, keep, inl, Option-cases, inr, leb, Option, Pointwise-refl, strip,
  Pointwise-trans, suc, ◌&&◌, none,
}
use manga_manager.Domain.Jobs.{leased, is_active, state_beq_iff}
use manga_manager.Queue.Rows.{WorkJob, Db}
use manga_manager.Queue.Store.{expired_at}
use manga_manager.Queue.Returns.{
  expire_job, is_exhausted, fail_expired_job, fail_all, fail_exhausted_leases,
}
use manga_manager.Queue.Limits.{active_permits, Limits}
use manga_manager.Queue.Permits.{acquire_permits}
use manga_manager.Queue.Eligible.{ClaimFilter, select_candidate, is_expired}
use manga_manager.Queue.Claim.{
  ClaimRequest, Sweep, Claimed, granted, exhausted, claim_loop, try_candidate, repooled, repool,
  recover, survey, refused_sources, filter_of,
}
use manga_manager.Queue.Frames.{frames}
use manga_manager.Queue.Validity.{
  Descending, Descending-related, Descending-keep, update_id-Pointwise, In-update_ne,
  In-update_self,
}

-- The relation as far as the loop uses it, at the time of the claim.
pub record RowLaws (now : ℕ) (R : WorkJob → WorkJob → Type 0) : Type 0 where
  pub same_row : (j : WorkJob) → R j j
  pub chain : (i j k : WorkJob) → R i j → R j k → R i k
  pub keeps_id : (j k : WorkJob) → R j k → k.id ≡ j.id
  pub expires :
      (j : WorkJob)
      → j.status ≡ leased
      → expired_at now j.lease_expires_at ≡ true
      → R j (expire_job now j)
  pub repools : (j : WorkJob) → is_active j.status ≡ true → R j (repooled j)

-- A leased row of the table whose lease is over.
abbrev OverdueIn : ℕ → Db → WorkJob → Type 0
OverdueIn now db j = In j db.jobs × (j.status ≡ leased) × (expired_at now j.lease_expires_at ≡ true)

still_overdue :
    (n now : ℕ) (c : WorkJob) (js : List WorkJob) (db : Db)
    → n ≤ c.id
    → Descending n js
    → All (OverdueIn now db) js
    → All (OverdueIn now (fail_expired_job c now db)) js
unfolding fail_expired_job
still_overdue n now c [] db h d a = tt
still_overdue n now c (j ∷ js) db h d a = (
  (simp frames (In-update_ne c.id (expire_job now) j db.jobs (omega arith) a.0.0), a.0.1, a.0.2),
  still_overdue j.id now c js db (omega arith) d.1 a.1,
)

overdue_rows :
    (now : ℕ) (db : Db) (js : List WorkJob)
    → ((j : WorkJob) → In j js → In j db.jobs × (is_exhausted now j ≡ true))
    → All (OverdueIn now db) js
overdue_rows now db [] h = tt
overdue_rows now db (j ∷ js) h =
    let (m, t) = h j (inl refl) in
    let (leased_over, _) = both _ (leb j.max_attempts j.attempts) t in
    let (status, over) = both _ (expired_at now j.lease_expires_at) leased_over in
    (
      (m, (state_beq_iff j.status leased).0 status, over),
      overdue_rows now db js (λ k i. h k (inr i)),
    )

repooled-Leasable : (j : WorkJob) → Leasable j → Leasable (repooled j)
repooled-Leasable j h = ground arith

jobs-acquire_permits :
    (db : Db) (j : WorkJob) (owner : Text) (until now : ℕ) (limits : Limits) (window : ℕ) (d : Db)
    → acquire_permits db j owner until now limits window ≡ some d
    → d.jobs ≡ db.jobs
unfolding acquire_permits
jobs-acquire_permits db j owner until now limits window d h = ground arith

module _ (now : ℕ) (R : WorkJob → WorkJob → Type 0) (laws : RowLaws now R) where
  open laws use {same_row, chain, keeps_id, expires, repools}

  pub fail_expired_job-related :
      (n : ℕ) (j : WorkJob) (db : Db)
      → Descending n db.jobs
      → OverdueIn now db j
      → Pointwise R db.jobs (fail_expired_job j now db).jobs
  unfolding fail_expired_job
  fail_expired_job-related n j db d m =
      simp frames
        (update_id-Pointwise R n (expire_job now) j db.jobs d m.0 (expires j m.1 m.2) same_row)

  fail_all-related :
      (m n : ℕ) (js : List WorkJob) (db : Db)
      → Descending m js
      → Descending n db.jobs
      → All (OverdueIn now db) js
      → Pointwise R db.jobs (fail_all js now db).jobs
  unfolding fail_all
  fail_all-related m n [] db e d a = Pointwise-refl R db.jobs same_row
  fail_all-related m n (j ∷ js) db e d a =
      let first = fail_expired_job-related n j db d a.0 in
      Pointwise-trans R _ _ _ chain first (
        fail_all-related j.id n js (fail_expired_job j now db) e.1
          (Descending-related R n _ _ keeps_id first d)
          (still_overdue j.id now j js db (omega arith) e.1 a.1))

  pub fail_exhausted-related :
      (n : ℕ) (db : Db)
      → Descending n db.jobs
      → Pointwise R db.jobs (fail_exhausted_leases db now).0.jobs
  unfolding fail_exhausted_leases
  fail_exhausted-related n db d =
      fail_all-related n n (keep (is_exhausted now) db.jobs) db
        (Descending-keep (is_exhausted now) n db.jobs d) d
        (overdue_rows now db _ (keep-In (is_exhausted now) db.jobs))

-- What a grant rests on: the permits that the candidate took, over a database whose rows are those
-- that the grant leaves and whose permits are no more than before.
pub record Acquired (r : ClaimRequest) (db d : Db) (c : WorkJob) : Type 0 where
  pub base : Db
  pub same_jobs : base.jobs ≡ d.jobs
  pub no_more : NoMorePermits r.now db base
  pub taken :
      acquire_permits base c (strip r.owner) (r.now + r.lease_for) r.now r.limits r.pacing_window
      ≡ some d

module _ (r : ClaimRequest) (R : WorkJob → WorkJob → Type 0) (laws : RowLaws r.now R) where
  open laws use {same_row, chain, keeps_id, expires, repools}

  -- How the loop leaves the database: rows are related, and a granted job stands in the table,
  -- ready to be leased.
  abbrev pub Outcome : Db → Claimed → Type 0
  Outcome db (exhausted d) = Pointwise R db.jobs d.jobs × NoMorePermits r.now db d
  Outcome db (granted d c) =
      Pointwise R db.jobs d.jobs × In c d.jobs × Leasable c × Acquired r db d c

  Outcome-trans :
      (db db' : Db) (o : Claimed)
      → Pointwise R db.jobs db'.jobs
      → NoMorePermits r.now db db'
      → Outcome db' o
      → Outcome db o
  Outcome-trans db db' (exhausted d) p m o =
      (Pointwise-trans R _ _ _ chain p o.0, λ pool. omega (arith, m pool, o.1 pool))
  Outcome-trans db db' (granted d c) p m o =
      let a = o.3 in
      (
        Pointwise-trans R _ _ _ chain p o.0,
        o.1,
        o.2,
        record {
          base = a.base;
          same_jobs = a.same_jobs;
          no_more = λ pool. omega (arith, m pool, a.no_more pool);
          taken = a.taken;
        },
      )

  -- After the pool of the candidate is set, it stands in the table, still leasable.
  record Ready (db d : Db) (c : WorkJob) : Type 0 where
    moved : Pointwise R db.jobs d.jobs
    same_permits : d.permits ≡ db.permits
    present : In c d.jobs
    leasable : Leasable c

  repool-Ready :
      (n : ℕ) (db : Db) (f : ClaimFilter) (c : WorkJob)
      → Descending n db.jobs
      → select_candidate db r.now f ≡ some c
      → Ready db (repool c db) (repooled c)
  repool-Ready n db f c d e =
      let (m, t) = select_candidate-In db r.now f c e in
      let ok_row = is_claimable-Leasable db r.now f c t in
      record {
        moved = update_id-Pointwise R n repooled c db.jobs d m (repools c ok_row.0) same_row;
        same_permits = refl;
        present = In-update_self repooled c db.jobs m;
        leasable = repooled-Leasable c ok_row;
      }

  -- One round, over any rest of the loop that has such an outcome.
  try_candidate-Outcome :
      (n : ℕ) (next : Sweep → Db → Claimed) (s : Sweep) (db d : Db) (c : WorkJob)
      → ((s' : Sweep) (d' : Db) → Descending n d'.jobs → Outcome d' (next s' d'))
      → Descending n db.jobs
      → Ready db d c
      → Outcome db (try_candidate next r s d c)
  unfolding try_candidate
  try_candidate-Outcome n next s db d c ih e p =
      elim (Bool-cases (is_expired r.now c && leb c.max_attempts c.attempts)) [
        | inl q ↦
            let split = both (is_expired r.now c) _ q in
            let over = both _ (expired_at r.now c.lease_expires_at) split.0 in
            let overdue : OverdueIn r.now d c =
              (p.present, (state_beq_iff c.status leased).0 over.0, over.1) in
            let spent = fail_expired_job-related r.now R laws n c d e' overdue in
            rw q (
              Outcome-trans db (fail_expired_job c r.now d) _
                (Pointwise-trans R _ _ _ chain p.moved spent) dropped
                (ih _ _ (Descending-related R n _ _ keeps_id spent e')))
        | inr q ↦ rw q (
            permits
              (acquire_permits recovered c (strip r.owner) (r.now + r.lease_for) r.now r.limits
                r.pacing_window)
              refl)
      ]
    where
      e' : Descending n d.jobs
      e' = Descending-related R n _ _ keeps_id p.moved e

      recovered : Db
      recovered = recover r.now c d

      same : recovered.jobs ≡ d.jobs
      same = jobs-recover r.now c d

      same_count : (pool : Text) → active_permits d r.now pool ≡ active_permits db r.now pool
      same_count pool = active_permits-same d db r.now pool p.same_permits

      dropped : NoMorePermits r.now db (fail_expired_job c r.now d)
      dropped pool =
          let moved = fail_expired_job-NoMore r.now c d pool in
          omega (arith, moved, same_count pool)

      fewer : NoMorePermits r.now db recovered
      fewer pool =
          let moved = recover-NoMore r.now c d pool in omega (arith, moved, same_count pool)

      permits :
          (a : Option Db)
          → acquire_permits recovered c
              (strip r.owner)
              (r.now + r.lease_for)
              r.now
              r.limits
              r.pacing_window
            ≡ a
          → Outcome db (elim a [
            | some d' ↦ granted d' c
            | none ↦
                next
                  (survey r recovered (c.id ∷ s.rejected) (refused_sources c s.sources))
                  recovered
          ])
      permits (some d') h =
          let jobs : d'.jobs ≡ d.jobs =
            jobs-acquire_permits recovered c (strip r.owner) (r.now + r.lease_for) r.now r.limits
              r.pacing_window d' h
            ∙ same in
          (
            rw jobs p.moved,
            rw jobs p.present,
            p.leasable,
            record { base = recovered; same_jobs = rw (jobs, same); no_more = fewer; taken = h },
          )
      permits none h =
          Outcome-trans db recovered _ (rw same p.moved) fewer (ih _ recovered (rw same e'))

  pub claim_loop-Outcome :
      (n rounds : ℕ) (s : Sweep) (db : Db)
      → Descending n db.jobs
      → Outcome db (claim_loop rounds r s db)
  unfolding claim_loop
  claim_loop-Outcome n zero s db d = (Pointwise-refl R db.jobs same_row, λ pool. omega arith)
  claim_loop-Outcome n (suc rounds) s db d =
      elim (Option-cases (select_candidate db r.now (filter_of r s))) [
        | inl e ↦
            rw (e, claim_loop)
              (fail_exhausted-related r.now R laws n db d, fail_exhausted-NoMore r.now db)
        | inr (c, e) ↦
            rw (e, claim_loop)
              (try_candidate-Outcome n (claim_loop rounds r) s db (repool c db) (repooled c)
                (claim_loop-Outcome n rounds) d (repool-Ready n db (filter_of r s) c d e))
      ]
