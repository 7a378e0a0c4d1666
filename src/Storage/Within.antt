-- ===== src/Storage/Within.antt =====
-- manga_manager/infrastructure/storage_capacity.py: reservations and the reserve fit on the disk.
use manga_manager.Prelude.{
  ℕ, ◌≡◌, ◌≤◌, ◌<◌, ◌+◌, ◌⊎◌, inl, inr, refl, List, [], ◌∷◌, true, false, some, none, find, keep,
  sum_of, update_where, All, not, Bool, Bool-cases, some-injective, leb, arith, ltb, ◌==◌,
  Option-cases, nat_eq, ltb→lt, nat_beq_iff,
}
use manga_manager.Queue.Rows.{StorageReservation, Db}
use manga_manager.Queue.Store.{release_permits}
use manga_manager.Storage.Capacity.{
  SpaceRequest, reserve, refresh, grant_space, expire_reservations, reserved_bytes, extend, is_for,
  crosses, new_reservation,
}

sum_of-keep-le :
    (p : StorageReservation → Bool) (rs : List StorageReservation)
    → sum_of (λ r. r.reserved_bytes) (keep p rs) ≤ sum_of (λ r. r.reserved_bytes) rs
unfolding sum_of keep
sum_of-keep-le p [] = omega arith
sum_of-keep-le p (r ∷ rs) = ground (arith, sum_of-keep-le p rs)

sum_of-extend :
    (p : StorageReservation → Bool) (until : ℕ) (rs : List StorageReservation)
    → sum_of (λ r. r.reserved_bytes) (update_where p (extend until) rs)
      ≡ sum_of (λ r. r.reserved_bytes) rs
unfolding sum_of update_where
sum_of-extend p until [] = refl
sum_of-extend p until (r ∷ rs) = ground (arith, sum_of-extend p until rs)

find-extend :
    (i until : ℕ) (rs : List StorageReservation) (x : StorageReservation)
    → find (is_for i) rs ≡ some x
    → find (is_for i) (update_where (is_for i) (extend until) rs) ≡ some (extend until x)
unfolding find update_where
find-extend i until [] x h = cc
find-extend i until (r ∷ rs) x h = elim (Bool-cases (is_for i r)) [
  | inl e ↦ let same : some r ≡ some x = rw e at h in rw (e, e, some-injective _ _ same)
  | inr e ↦ rw (e, e) (find-extend i until rs x (rw e at h))
]

ltb-not : (a b : ℕ) → ltb a b ≡ false → b ≤ a
ltb-not a b h = ground arith

-- The reservations and the configured reserve fit into `space`.
abbrev pub Fits : ℕ → ℕ → Db → Type 0
Fits space min_free db = reserved_bytes db + min_free ≤ space

expire-Fits :
    (space min_free now : ℕ) (db : Db)
    → Fits space min_free db
    → Fits space min_free (expire_reservations now db)
unfolding reserved_bytes expire_reservations
expire-Fits space min_free now db h =
    let less = sum_of-keep-le (λ r. not (leb r.lease_expires_at now)) db.reservations in
    omega (arith, less)

grant_space-Fits :
    (space min_free : ℕ) (db : Db) (r : SpaceRequest)
    → r.free ≤ space
    → Fits space min_free db
    → Fits space min_free (grant_space min_free db r).0
unfolding grant_space reserved_bytes sum_of
grant_space-Fits space min_free db r le h =
    elim (Bool-cases (crosses r.free (reserved_bytes db) r.requested min_free)) [
      | inl e ↦ rw e h
      | inr e ↦ rw e (omega (arith, ltb-not _ _ e, le))
    ]

reserve-Fits :
    (space min_free : ℕ) (db : Db) (r : SpaceRequest)
    → r.free ≤ space
    → Fits space min_free db
    → Fits space min_free (reserve min_free db r).0
unfolding reserve
reserve-Fits space min_free db r le h =
    let live = expire_reservations r.now db in
    let kept = expire-Fits space min_free r.now db h in
    elim (Option-cases (find (is_for r.job_id) live.reservations)) [
      | inl e ↦ rw (e, reserve) (grant_space-Fits space min_free live r le kept)
      | inr (x, e) ↦ rw (e, reserve) (extended live kept)
    ]
  where
    extended :
        (d : Db)
        → Fits space min_free d
        → Fits space min_free (record d {
          reservations = update_where (is_for r.job_id) (extend r.until) d.reservations;
        })
    extended d k = unfold reserved_bytes in rw sum_of-extend k

-- What happens to the reservations: requests, readings of the disk, and jobs that release theirs.
pub data Event : Type 0 where
  request : SpaceRequest → Event
  reading : (free now : ℕ) → Event
  released : (job_id : ℕ) → Event

abbrev pub after_event : ℕ → Db → Event → Db
after_event min_free db (request r) = (reserve min_free db r).0
after_event min_free db (reading free now) = refresh min_free free now db
after_event min_free db (released job_id) = release_permits job_id db

abbrev pub after_events : ℕ → Db → List Event → Db
after_events min_free db [] = db
after_events min_free db (e ∷ es) = after_events min_free (after_event min_free db e) es

-- What an event reads as free is within the space.
abbrev pub ReadsWithin : ℕ → Event → Type 0
ReadsWithin space (request r) = r.free ≤ space
ReadsWithin space (reading free now) = Unit {0}
ReadsWithin space (released job_id) = Unit {0}

event-Fits :
    (space min_free : ℕ) (db : Db) (e : Event)
    → ReadsWithin space e
    → Fits space min_free db
    → Fits space min_free (after_event min_free db e)
unfolding refresh release_permits reserved_bytes
event-Fits space min_free db (request r) le h = reserve-Fits space min_free db r le h
event-Fits space min_free db (reading free now) le h = expire-Fits space min_free now db h
event-Fits space min_free db (released job_id) le h =
    let less = sum_of-keep-le (λ r. not (r.job_id == job_id)) db.reservations in omega (arith, less)

-- Over any history of requests, readings and releases in which no request reads more free space
-- than `space`: where the reserved bytes and the configured reserve fit into `space`, they still
-- do.
pub events-Fits :
    (space min_free : ℕ) (db : Db) (es : List Event)
    → All (ReadsWithin space) es
    → Fits space min_free db
    → Fits space min_free (after_events min_free db es)
events-Fits space min_free db [] le h = h
events-Fits space min_free db (e ∷ es) le h =
    events-Fits space min_free (after_event min_free db e) es le.1
      (event-Fits space min_free db e le.0 h)

-- `reserve` answers no only to a job without a live reservation whose bytes would cross the
-- reserve, and then no reservation changes but for those whose lease is over. After a yes the job
-- has a reservation until the end that was asked for.
pub reserve-answer :
    (min_free : ℕ) (db : Db) (r : SpaceRequest)
    → (((reserve min_free db r).1 ≡ false)
        × (find (is_for r.job_id) (expire_reservations r.now db).reservations ≡ none)
        × ((reserve min_free db r).0.reservations ≡ (expire_reservations r.now db).reservations)
        × (r.free < reserved_bytes (expire_reservations r.now db) + r.requested + min_free))
      ⊎ (((reserve min_free db r).1 ≡ true)
          × (x : StorageReservation) × (find
                (is_for r.job_id)
                (reserve min_free db r).0.reservations
              ≡ some x)
          × (x.lease_expires_at ≡ r.until))
unfolding reserve grant_space find
reserve-answer min_free db r =
    let live = expire_reservations r.now db in
    elim (Option-cases (find (is_for r.job_id) live.reservations)) [
      | inr (x, e) ↦ inr (
          rw (e, reserve)
            (refl, extend r.until x, find-extend r.job_id r.until live.reservations x e, refl))
      | inl e ↦ elim (Bool-cases (crosses r.free (reserved_bytes live) r.requested min_free)) [
        | inl c ↦ inl (rw (e, reserve, c) refl, e, rw (e, reserve, c) refl, ltb→lt _ _ c)
        | inr c ↦
            let self = (nat_beq_iff r.job_id r.job_id).1 refl in
            inr (rw (e, reserve, c) (refl, new_reservation r, rw self, refl))
      ]
    ]
