-- ===== src/Queue/Start.antt =====
-- manga_manager/infrastructure/job_queue.py: `claim` starts the first job that has room.
use manga_manager.Queue.PermitFrames.{jobs-recover}
use manga_manager.Queue.WellFormed.{IsWellFormed}
use manga_manager.Domain.Jobs.{
  chapter_download, kind_eq, library_repair, JobKind, JobPayload, parse_job_payload, source_refresh,
  leased, state_eq,
}
use manga_manager.Queue.Routing.{is_mutating}
use manga_manager.Queue.Validity.{Descending}
use manga_manager.Prelude.{
  ℕ, ◌≡◌, ◌∷◌, [], List, inl, inr, ◌⊎◌, refl, ◌<◌, ◌||◌, ◌&&◌, any, true, Bool, In, false, is_empty,
  Bool-cases, arith, ◌==◌, both, nat_beq_iff, nat_eq, not, text_eq, some, strip, ◌+◌, leb, suc, ◌∙◌,
  update_where,
}
use manga_manager.Queue.Rows.{WorkJob, Db}
use manga_manager.Queue.Store.{ok, live_lease, after}
use manga_manager.Queue.Eligible.{
  is_claimable, series_free, series_leased, select_candidate, ClaimFilter, is_ready, is_expired,
  passes_filter,
}
use manga_manager.Queue.Permits.{acquire_permits, any_full, series_conflict, permit_pools}
use manga_manager.Queue.Claim.{
  claim, claim_loop, try_candidate, grant, recover, repool, repooled, Sweep, ClaimRequest, Claimed,
  repair_clash, JobLease, filter_of, granted, survey, lease_of, lease_job,
}
use manga_manager.Queue.Quota.{taken}
use manga_manager.Queue.Exclusion.{Descending-unique, any-false, excludes, update_id-before}
use manga_manager.Queue.Candidates.{select_candidate-In, is_claimable-Leasable}

-- What `claim_query` promises about leases: the row has none that is live, and its series is free.
claimable-parts :
    (db : Db) (now : ℕ) (f : ClaimFilter) (c : WorkJob)
    → is_claimable db now f c ≡ true
    → (live_lease now c ≡ false) × (series_free db now c ≡ true)
unfolding is_claimable
claimable-parts db now f c h =
    let unfiltered = (both _ (passes_filter f c) h).0 in
    let stored = (both _ _ unfiltered).0 in
    let (rest, free) = both _ (series_free db now c) stored in
    let sourced = (both _ _ rest).0 in
    let due = (both (is_ready now c || is_expired now c) _ sourced).0 in (idle due, free)
  where
    idle : (is_ready now c || is_expired now c) ≡ true → live_lease now c ≡ false
    idle due = ground arith

pub any_of_none :
    (p : WorkJob → Bool) (js : List WorkJob)
    → ((k : WorkJob) → In k js → p k ≡ false)
    → any p js ≡ false
unfolding any
any_of_none p [] h = refl
any_of_none p (j ∷ js) h =
    let here = h j (inl refl) in rw here (any_of_none p js (λ k m. h k (inr m)))

-- A free series of a mutating job, by the kind of the job.
pub series_free-cases :
    (db : Db) (now : ℕ) (c : WorkJob)
    → series_free db now c ≡ true
    → is_mutating c.kind ≡ true
    → is_empty c.series_key ≡ false
    → ((c.kind ≡ chapter_download) × (series_leased (λ k. k == library_repair) db now c ≡ false))
      ⊎ ((c.kind ≡ library_repair) × (series_leased is_mutating db now c ≡ false))
unfolding series_free
series_free-cases db now c free mutating named = ground arith

pub leased-false :
    (test : JobKind → Bool) (db : Db) (now : ℕ) (c k : WorkJob)
    → series_leased test db now c ≡ false
    → In k db.jobs
    → (k.id == c.id) ≡ false
    → (test k.kind && live_lease now k && k.series_key == c.series_key) ≡ false
unfolding series_leased
leased-false test db now c k h m e =
    let none_here =
      any-false
        (λ j. not (j.id == c.id) && test j.kind && live_lease now j && j.series_key == c.series_key)
        db.jobs k h m in
    ground (arith, none_here)

-- The recheck under the lock agrees with the query: what the query lets through has no conflict.
claimable-no_conflict :
    (n : ℕ) (db : Db) (now : ℕ) (c : WorkJob)
    → Descending n db.jobs
    → In c db.jobs
    → live_lease now c ≡ false
    → series_free db now c ≡ true
    → is_mutating c.kind ≡ true
    → is_empty c.series_key ≡ false
    → (k : WorkJob) → In k db.jobs
    → excludes now c k ≡ false
claimable-no_conflict n db now c d m idle free mutating named k i =
    elim (Bool-cases (k.id == c.id)) [
      | inl e ↦
          let same = Descending-unique n db.jobs k c d i m ((nat_beq_iff k.id c.id).0 e) in
          rw same (ground (arith, idle))
      | inr e ↦ elim (series_free-cases db now c free mutating named) [
        | inl (q, l) ↦ rw q (leased-false (λ j. j == library_repair) db now c k l i e)
        | inr (q, l) ↦ rw q (leased-false is_mutating db now c k l i e)
      ]
    ]

-- The pool plays no part in a conflict.
excludes-repooled :
    (now : ℕ) (c j k : WorkJob)
    → excludes now c j ≡ false
    → (k ≡ repooled j) ⊎ (k ≡ j)
    → excludes now (repooled c) k ≡ false
excludes-repooled now c j k h (inl e) = rw e (ground (arith, h))
excludes-repooled now c j k h (inr e) = rw e (ground (arith, h))

candidate-no_conflict :
    (db : Db) (now : ℕ) (f : ClaimFilter) (c : WorkJob)
    → IsWellFormed db
    → select_candidate db now f ≡ some c
    → series_conflict (recover now (repooled c) (repool c db)) now (repooled c) ≡ false
unfolding series_conflict
candidate-no_conflict db now f c w e =
    let (m, t) = select_candidate-In db now f c e in
    let (idle, free) = claimable-parts db now f c t in
    let kind : (repooled c).kind ≡ c.kind = ground arith in
    let series : (repooled c).series_key ≡ c.series_key = ground arith in
    elim (Bool-cases (is_mutating c.kind && not (is_empty c.series_key))) [
      | inr q ↦ rw (kind, series) (ground (arith, q))
      | inl q ↦
          let (mutating, named) = both (is_mutating c.kind) (not (is_empty c.series_key)) q in
          let clear = any_of_none (excludes now (repooled c)) (repool c db).jobs (λ k i.
            let (j, there, o) = update_id-before repooled c.id db.jobs k i in
            excludes-repooled now c j k
              (claimable-no_conflict db.next_job_id db now c w.ids m idle free mutating
                (ground (arith, named)) j there)
              (elim o [ inl (_, e) ↦ inl e | inr (_, e) ↦ inr e ])) in
          let same = jobs-recover now (repooled c) (repool c db) in rw same (ground (arith, clear))
    ]

abbrev granted_db : ClaimRequest → Db → WorkJob → Db
granted_db r db c = taken (recover r.now c db) c (strip r.owner) (r.now + r.lease_for) r.limits

-- One round of the loop grants a candidate with attempts left that the permits let start.
try_candidate-granted :
    (next : Sweep → Db → Claimed) (r : ClaimRequest) (s : Sweep) (db : Db) (c : WorkJob)
    → c.attempts < c.max_attempts
    → series_conflict (recover r.now c db) r.now c ≡ false
    → any_full (recover r.now c db) r.now r.limits r.pacing_window c.source (permit_pools c) ≡ false
    → try_candidate next r s db c ≡ granted (granted_db r db c) c
unfolding try_candidate acquire_permits
try_candidate-granted next r s db c left apart room =
    let alive : (is_expired r.now c && leb c.max_attempts c.attempts) ≡ false = ground arith in
    rw (alive, apart, room)

claim_loop-granted :
    (n : ℕ) (r : ClaimRequest) (s : Sweep) (db d : Db) (c : WorkJob)
    → select_candidate db r.now (filter_of r s) ≡ some c
    → try_candidate (claim_loop n r) r s (repool c db) (repooled c) ≡ granted d (repooled c)
    → claim_loop (suc n) r s db ≡ granted d (repooled c)
unfolding claim_loop
claim_loop-granted n r s db d c e got = rw (e, claim_loop) got

-- The lease of a job that a request takes.
abbrev pub lease_for : ClaimRequest → WorkJob → JobPayload → JobLease
lease_for r c p =
    let until = r.now + r.lease_for in
    lease_of (lease_job (strip r.owner) until r.now c) p (strip r.owner) until

grant-leased :
    (r : ClaimRequest) (db d : Db) (c : WorkJob) (p : JobPayload)
    → repair_clash d c ≡ false
    → parse_job_payload c.kind c.payload ≡ some p
    → grant r (granted d c) ≡ ok (after db (grant r (granted d c)), some (lease_for r c p))
unfolding grant
grant-leased r db d c p apart valid = rw (apart, valid, grant)

-- A test that does not see the pool answers alike after a refresh is moved to its pool.
any-update :
    (p q : WorkJob → Bool) (f : WorkJob → WorkJob) (js : List WorkJob)
    → ((j : WorkJob) → p (f j) ≡ p j)
    → any p (update_where q f js) ≡ any p js
unfolding any update_where
any-update p q f [] h = refl
any-update p q f (j ∷ js) h = elim (Bool-cases (q j)) [
  | inl e ↦ rw (e, h j, any-update p q f js h) refl
  | inr e ↦ rw (e, any-update p q f js h) refl
]

-- The other leased repairs of the series of a candidate are the same when the lease is written.
granted-repair_clash :
    (db : Db) (r : ClaimRequest) (c : WorkJob)
    → repair_clash (granted_db r (repool c db) (repooled c)) (repooled c) ≡ repair_clash db c
unfolding repair_clash
granted-repair_clash db r c =
    let kind : (repooled c).kind ≡ c.kind = ground arith in
    let series : (repooled c).series_key ≡ c.series_key = ground arith in
    let same_id : (repooled c).id ≡ c.id = ground arith in
    let same = jobs-recover r.now (repooled c) (repool c db) in
    let p = λ (j : WorkJob).
      not (j.id == c.id)
      && j.kind == library_repair
      && j.status == leased
      && j.series_key == c.series_key in
    let moved = any-update p (λ j. j.id == c.id) repooled db.jobs (λ j. ground arith) in
    rw (same, kind, series, same_id, moved) refl

repooled-payload :
    (c : WorkJob) (p : JobPayload)
    → parse_job_payload c.kind c.payload ≡ some p
    → parse_job_payload (repooled c).kind (repooled c).payload ≡ some p
repooled-payload c p valid = elim (Bool-cases (c.kind == source_refresh)) [
  | inl e ↦ rw e valid
  | inr e ↦ rw e valid
]

-- In a well-formed database, a request with an owner and a positive lease takes the first candidate
-- of the query, where none of the pools of that job is full, no other repair of its series is leased
-- if it is one, live or not, and its payload is valid: the claim succeeds, and its lease is that
-- job's.
pub claim-first :
    (db : Db) (r : ClaimRequest) (c : WorkJob) (p : JobPayload)
    → IsWellFormed db
    → is_empty (strip r.owner) ≡ false
    → 0 < r.lease_for
    → select_candidate db r.now (filter_of r (survey r db [] [])) ≡ some c
    → any_full
        (recover r.now (repooled c) (repool c db))
        r.now
        r.limits
        r.pacing_window
        (repooled c).source
        (permit_pools (repooled c))
      ≡ false
    → repair_clash db c ≡ false
    → parse_job_payload c.kind c.payload ≡ some p
    → (d : Db) × (claim db r ≡ ok (d, some (lease_for r (repooled c) p)))
unfolding claim
claim-first db r c p w owner pos e room apart valid =
    let (m, t) = select_candidate-In db r.now _ c e in
    let left = (is_claimable-Leasable db r.now _ c t).1 in
    let got =
      try_candidate-granted (claim_loop 49 r) r (survey r db [] []) (repool c db) (repooled c)
        (ground arith) (candidate-no_conflict db r.now _ c w e) room in
    let looped : claim_loop 50 r (survey r db [] []) db
        ≡ granted (granted_db r (repool c db) (repooled c)) (repooled c) =
      claim_loop-granted 49 r (survey r db [] []) db _ c e got in
    let short : leb r.lease_for 0 ≡ false = ground arith in
    (
      after db (grant r (granted (granted_db r (repool c db) (repooled c)) (repooled c))),
      rw (owner, short, looped)
          (grant-leased r db _ (repooled c) p (granted-repair_clash db r c ∙ apart)
            (repooled-payload c p valid)),
    )
