-- ===== src/Queue/Quota.antt =====
-- manga_manager/infrastructure/job_queue.py: `claim` keeps within the configured limits.
use manga_manager.Queue.WellFormed.{IsWellFormed}
use manga_manager.Domain.Jobs.{parse_job_payload}
use manga_manager.Queue.PoolOrder.{permit_pools_once}
use manga_manager.Queue.Store.{after, record_event}
use manga_manager.Queue.ClaimLoop.{RowLaws, Outcome, claim_loop-Outcome}
use manga_manager.Queue.Claim.{
  granted, exhausted, grant, repair_clash, ClaimRequest, Claimed, exhausted, granted, claim, survey,
}
use manga_manager.Queue.Limits.{Limits, limit_of, active_permits}
use manga_manager.Queue.Rows.{JobPermit, Db, WorkJob}
use manga_manager.Prelude.{
  ℕ, count_if, Text, Bool, List, ◌==◌, ◌++◌, ◌≡◌, ◌&&◌, some, ltb, ◌+◌, ◌≤◌, ◌∷◌, arith, false, [],
  ◌⊎◌, text_eq, refl, ◌<◌, inl, Bool-cases, list_beq_iff, inr, max, leb, true, subst, nat_eq, none,
  Option-cases, some-injective, strip, ◌∙◌, is_empty,
}
use manga_manager.Queue.Permits.{
  provider_scoped, acquire_permits, any_full, pool_limit, new_permits, permit_pools,
  provider_scoped, at_limit, series_conflict,
}

count_if-append :
    (p : JobPermit → Bool) (xs ys : List JobPermit)
    → count_if p (xs ++ ys) ≡ count_if p xs + count_if p ys
unfolding count_if
count_if-append p [] ys = omega arith
count_if-append p (x ∷ xs) ys = let rest = count_if-append p xs ys in omega arith

-- The new permits that count for a pool, at most one for each place of the pool in the list.
new_permits-le :
    (i : ℕ) (owner : Text) (until now : ℕ) (limits : Limits) (pool : Text) (pools : List Text)
    → count_if
        (λ p. p.pool == pool && ltb now p.lease_expires_at)
        (new_permits i owner until limits pools)
      ≤ count_if (λ p. p == pool) pools
unfolding new_permits count_if
new_permits-le i owner until now limits pool [] = omega arith
new_permits-le i owner until now limits pool (x ∷ xs) =
    ground (arith, new_permits-le i owner until now limits pool xs)

-- A pool with a limit of its own that is not full has room.
room :
    (db : Db) (now : ℕ) (limits : Limits) (window : ℕ) (source pool : Text) (n m : ℕ)
    → limit_of limits pool ≡ some n
    → provider_scoped pool ≡ false
    → at_limit (pool_limit db now limits window source pool) m ≡ false
    → m < n
unfolding pool_limit
room db now limits window source pool n m l s h =
    let free : leb n m ≡ false = rw (s, l) at h in ground (arith, free)

any_full-room :
    (db : Db) (now : ℕ) (limits : Limits) (window : ℕ) (source pool : Text) (n : ℕ)
    (pools : List Text)
    → limit_of limits pool ≡ some n
    → provider_scoped pool ≡ false
    → any_full db now limits window source pools ≡ false
    → (count_if (λ p. p == pool) pools ≡ 0) ⊎ (active_permits db now pool < n)
unfolding any_full count_if
any_full-room db now limits window source pool n [] l s h = inl refl
any_full-room db now limits window source pool n (x ∷ xs) l s h =
    elim (Bool-cases
      (at_limit (pool_limit db now limits window source x) (active_permits db now x))) [
        | inl full ↦ absurd (let bad : true ≡ false = rw full at h in cc)
        | inr free ↦ elim (Bool-cases (x == pool)) [
          | inl e ↦
              let same = (list_beq_iff x pool).0 e in
              inr (
                room db now limits window source pool n (active_permits db now pool) l s (
                  subst
                    (λ y.
                      at_limit (pool_limit db now limits window source y) (active_permits db now y)
                      ≡ false)
                    same free))
          | inr e ↦
              rw e (elim (any_full-room db now limits window source pool n xs l s (rw free at h)) [
                | inl none_left ↦ inl (omega (arith, none_left))
                | inr fits ↦ inr fits
              ])
        ]
      ]

abbrev pub taken : Db → WorkJob → Text → ℕ → Limits → Db
taken db c owner until limits = record db {
  permits = new_permits c.id owner until limits (permit_pools c) ++ db.permits;
}

taken-le :
    (db : Db) (c : WorkJob) (owner : Text) (until now : ℕ) (limits : Limits) (pool : Text)
    → active_permits (taken db c owner until limits) now pool
      ≤ count_if (λ p. p == pool) (permit_pools c) + active_permits db now pool
unfolding active_permits
taken-le db c owner until now limits pool =
    let split =
      count_if-append (λ p. p.pool == pool && ltb now p.lease_expires_at)
        (new_permits c.id owner until limits (permit_pools c)) db.permits in
    let fresh = new_permits-le c.id owner until now limits pool (permit_pools c) in
    omega (arith, split, fresh)

acquire_permits-le :
    (db : Db) (c : WorkJob) (owner : Text) (until now : ℕ) (limits : Limits) (window : ℕ)
    (pool : Text) (n : ℕ) (d : Db)
    → limit_of limits pool ≡ some n
    → provider_scoped pool ≡ false
    → acquire_permits db c owner until now limits window ≡ some d
    → active_permits d now pool ≤ max n (active_permits db now pool)
unfolding acquire_permits
acquire_permits-le db c owner until now limits window pool n d l s h =
    elim (Bool-cases (series_conflict db now c)) [
      | inl e ↦ absurd (let bad : none ≡ some d = rw e at h in cc)
      | inr e ↦ elim (Bool-cases (any_full db now limits window c.source (permit_pools c))) [
        | inl f ↦ absurd (let bad : none ≡ some d = rw (e, f) at h in cc)
        | inr f ↦
            let same : some (taken db c owner until limits) ≡ some d = rw (e, f) at h in
            let grown =
              subst
                (λ x.
                  active_permits x now pool
                  ≤ count_if (λ p. p == pool) (permit_pools c) + active_permits db now pool)
                (some-injective _ _ same) (taken-le db c owner until now limits pool) in
            let pools_once = permit_pools_once c pool in
            elim (any_full-room db now limits window c.source pool n (permit_pools c) l s f) [
              | inl apart ↦ ground (arith, grown, apart)
              | inr fits ↦ ground (arith, grown, pools_once, fits)
            ]
      ]
    ]

grant-le :
    (r : ClaimRequest) (R : WorkJob → WorkJob → Type 0) (laws : RowLaws r.now R) (db : Db)
    (o : Claimed) (pool : Text) (n : ℕ)
    → limit_of r.limits pool ≡ some n
    → provider_scoped pool ≡ false
    → Outcome r R laws db o
    → active_permits (after db (grant r o)) r.now pool ≤ max n (active_permits db r.now pool)
unfolding grant active_permits record_event
grant-le r R laws db (exhausted d) pool n l s o = let fewer = o.1 pool in ground (arith, fewer)
grant-le r R laws db (granted d c) pool n l s o = elim (Bool-cases (repair_clash d c)) [
  | inl t ↦ rw (t, grant) (ground arith)
  | inr t ↦ elim (Option-cases (parse_job_payload c.kind c.payload)) [
    | inl q ↦ rw (t, q, grant) (ground arith)
    | inr (p, q) ↦
        let a = o.3 in
        let fewer = a.no_more pool in
        let kept =
          acquire_permits-le a.base c (strip r.owner) (r.now + r.lease_for) r.now r.limits
            r.pacing_window pool n d l s a.taken in
        rw (t, q, grant) (ground (arith, fewer, kept))
  ]
]

-- The ids of the rows, which is all that the loop has to keep.
id_laws : (now : ℕ) → RowLaws now (λ j k. k.id ≡ j.id)
id_laws now = record {
  same_row = λ j. refl;
  chain = λ i j k p q. q ∙ p;
  keeps_id = λ j k p. p;
  expires = λ j h e. refl;
  repools = λ j h. ground arith;
}

-- A claim in a well-formed database, for a pool with a configured limit that is no provider's pool:
-- if the permits of the pool that count at the time of the claim were within the limit, they are
-- after it, and otherwise they are no more than before. The claim may also fail or lease nothing.
pub claim-within_limit :
    (db : Db) (r : ClaimRequest) (pool : Text) (n : ℕ)
    → IsWellFormed db
    → limit_of r.limits pool ≡ some n
    → provider_scoped pool ≡ false
    → active_permits (after db (claim db r)) r.now pool ≤ max n (active_permits db r.now pool)
unfolding claim
claim-within_limit db r pool n w l s = elim (Bool-cases (is_empty (strip r.owner))) [
  | inl e ↦ rw e (ground arith)
  | inr e ↦ elim (Bool-cases (leb r.lease_for 0)) [
    | inl q ↦ rw (e, q) (ground arith)
    | inr q ↦
        rw (e, q)
          (grant-le r (λ j k. k.id ≡ j.id) (id_laws r.now) db _ pool n l s
            (claim_loop-Outcome r (λ j k. k.id ≡ j.id) (id_laws r.now) db.next_job_id 50
              (survey r db [] []) db w.ids))
  ]
]
