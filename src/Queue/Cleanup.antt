-- ===== src/Queue/Cleanup.antt =====
-- manga_manager/infrastructure/job_queue.py: an operation that ends a lease frees what the job
-- held.
use manga_manager.Queue.Fencing.{held_id}
use manga_manager.Queue.Store.{
  record_terminal_units, release_permits, record_event, held_by, owned_by,
}
use manga_manager.Queue.WellFormed.{IsWellFormed}
use manga_manager.Queue.Validity.{Descending}
use manga_manager.Domain.Jobs.{leased, JobState, is_terminal, succeeded, cancelled, failed}
use manga_manager.Prelude.{
  ℕ, ◌≡◌, ◌≢◌, ◌∙◌, refl, ◌∷◌, [], List, inl, inr, ◌⊎◌, update_where, Bool, In, true, keep, find,
  not, false, some, ◌==◌, Bool-cases, keep-In, find-In, nat_beq_iff, ap, sym, nat_eq, ◌∙◌, subst,
  Option-cases, Text, none, arith,
}
use manga_manager.Queue.Rows.{WorkJob, Db, JobPermit, StorageReservation}
use manga_manager.Queue.Leases.{succeed, fail, finish, finish_job, put_back}
use manga_manager.Queue.Returns.{
  retry, release, defer, cancel, is_open, cancel_job, release_job, retry_job, defer_job, is_final,
}
use manga_manager.Queue.Exclusion.{Descending-unique}

-- The job is not leased, and no permit and no reservation of space is left to it.
pub record IsFree (i : ℕ) (d : Db) : Type 0 where
  pub unleased : (k : WorkJob) → In k d.jobs → k.id ≡ i → k.status ≢ leased
  pub permits : (p : JobPermit) → In p d.permits → p.job_id ≢ i
  pub reservations : (r : StorageReservation) → In r d.reservations → r.job_id ≢ i

pub In-update_where :
    (p : WorkJob → Bool) (f : WorkJob → WorkJob) (js : List WorkJob) (k : WorkJob)
    → In k (update_where p f js)
    → (x : WorkJob) × In x js × (((p x ≡ true) × (k ≡ f x)) ⊎ ((p x ≡ false) × (k ≡ x)))
unfolding update_where
In-update_where p f [] k m = elim m [ ]
In-update_where p f (j ∷ js) k (inl e) = elim (Bool-cases (p j)) [
  | inl q ↦ (j, inl refl, inl (q, rw q at e))
  | inr q ↦ (j, inl refl, inr (q, rw q at e))
]
In-update_where p f (j ∷ js) k (inr m) =
    let (x, there, r) = In-update_where p f js k m in (x, inr there, r)

-- The row that an operation selects is the only one with its id, so the change reaches it.
selected-unleased :
    (n i : ℕ) (p : WorkJob → Bool) (f : WorkJob → WorkJob) (j : WorkJob) (js : List WorkJob)
    → Descending n js
    → find p js ≡ some j
    → j.id ≡ i
    → ((x : WorkJob) → (f x).status ≢ leased)
    → (k : WorkJob) → In k (update_where p f js)
    → k.id ≡ i
    → k.status ≢ leased
selected-unleased n i p f j js d e same ends k m at_i =
    let (x, there, o) = In-update_where p f js k m in
    elim o [
      | inl (q, c) ↦ rw c (ends x)
      | inr (q, c) ↦
          let (found, t) = find-In p js j e in
          let one =
            Descending-unique n js x j d there found (ap (λ y. y.id) (sym c) ∙ at_i ∙ sym same) in
          absurd (let bad : p j ≡ false = rw one at q in cc)
    ]

kept_not :
    {A : Type 0}
    → (key : A → ℕ) (i : ℕ) (xs : List A) (a : A) → In a (keep (λ x. not (key x == i)) xs)
    → key a ≢ i
kept_not key i xs a m same =
    let (_, t) = keep-In (λ x. not (key x == i)) xs a m in
    let hit = (nat_beq_iff (key a) i).1 same in cc

-- The rows of a database after the change of the selected rows and the release for the job.
record EndsLease (db d : Db) (p : WorkJob → Bool) (f : WorkJob → WorkJob) (i : ℕ) : Type 0 where
  jobs : d.jobs ≡ update_where p f db.jobs
  permits : d.permits ≡ keep (λ x. not (x.job_id == i)) db.permits
  reservations : d.reservations ≡ keep (λ x. not (x.job_id == i)) db.reservations

EndsLease-IsFree :
    (db d : Db) (p : WorkJob → Bool) (f : WorkJob → WorkJob) (j : WorkJob) (i : ℕ)
    → IsWellFormed db
    → find p db.jobs ≡ some j
    → ((x : WorkJob) → p x ≡ true → x.id ≡ i)
    → ((x : WorkJob) → (f x).status ≢ leased)
    → EndsLease db d p f j.id
    → IsFree i d
EndsLease-IsFree db d p f j i w e only ends r =
    let same = only j (find-In p db.jobs j e).1 in
    record {
      unleased = λ k m at_i.
          selected-unleased db.next_job_id i p f j db.jobs w.ids e same ends k
            (subst (In k) r.jobs m) at_i;
      permits = λ x m at_i.
          kept_not (λ y. y.job_id) j.id db.permits x (subst (In x) r.permits m) (at_i ∙ sym same);
      reservations = λ x m at_i.
          kept_not (λ y. y.job_id) j.id db.reservations x (subst (In x) r.reservations m)
            (at_i ∙ sym same);
    }

-- Closing the units of a cycle leaves these rows alone.
EndsLease-record_terminal_units :
    (db d : Db) (p : WorkJob → Bool) (f : WorkJob → WorkJob) (i : ℕ) (k : WorkJob) (s : JobState)
    (now : ℕ)
    → EndsLease db d p f i
    → EndsLease db (record_terminal_units k s now d) p f i
unfolding record_terminal_units
EndsLease-record_terminal_units db d p f i k s now r = elim (Option-cases k.cycle_id) [
  | inl e ↦ rw (e, record_terminal_units) r
  | inr (c, e) ↦
      rw (e, record_terminal_units)
        (record { jobs = r.jobs; permits = r.permits; reservations = r.reservations })
]

finish_job_unleased :
    (s : JobState) (code message : Text) (now : ℕ)
    → is_terminal s ≡ true
    → (x : WorkJob) → (finish_job s code message now x).status ≢ leased
finish_job_unleased s code message now t x h = ground arith

finish-IsFree :
    (db : Db) (i : ℕ) (owner : Text) (s : JobState) (event code message : Text) (now : ℕ)
    → IsWellFormed db
    → is_terminal s ≡ true
    → (finish db i owner s event code message now ≡ (db, false))
      ⊎ IsFree i (finish db i owner s event code message now).0
unfolding finish release_permits record_event
finish-IsFree db i owner s event code message now w t =
    elim (Option-cases (find (held_by i owner now) db.jobs)) [
      | inl e ↦ inl (rw (e, finish))
      | inr (j, e) ↦ inr (
          EndsLease-IsFree db _ (held_by i owner now) (finish_job s code message now) j i w e
            (held_id i owner now) (finish_job_unleased s code message now t)
            (elim (Option-cases (put_back s j.pending_payload)) [
              | inl q ↦
                  rw (e, finish, q)
                    (EndsLease-record_terminal_units db _ (held_by i owner now)
                      (finish_job s code message now) j.id _ s now
                      (record { jobs = refl; permits = refl; reservations = refl }))
              | inr (pending, q) ↦
                  rw (e, finish, q) (record { jobs = refl; permits = refl; reservations = refl })
            ]))
    ]

retry-IsFree :
    (db : Db) (i : ℕ) (owner : Text) (at : ℕ) (code message : Text) (now : ℕ)
    → IsWellFormed db
    → (retry db i owner at code message now ≡ (db, none))
      ⊎ IsFree i (retry db i owner at code message now).0
unfolding retry release_permits record_event
retry-IsFree db i owner at code message now w =
    elim (Option-cases (find (held_by i owner now) db.jobs)) [
      | inl e ↦ inl (rw (e, retry))
      | inr (j, e) ↦ inr (
          EndsLease-IsFree db _ (held_by i owner now) (retry_job at code message now) j i w e
            (held_id i owner now) (λ x h. ground arith)
            (elim (Bool-cases (is_final j)) [
              | inl q ↦
                  rw (e, retry, q)
                    (EndsLease-record_terminal_units db _ (held_by i owner now)
                      (retry_job at code message now) j.id _ failed now
                      (record { jobs = refl; permits = refl; reservations = refl }))
              | inr q ↦
                  rw (e, retry, q) (record { jobs = refl; permits = refl; reservations = refl })
            ]))
    ]

owned_id : (i : ℕ) (owner : Text) (k : WorkJob) → owned_by i owner k ≡ true → k.id ≡ i
owned_id i owner k h = ground (arith, nat_beq_iff k.id i)

release-IsFree :
    (db : Db) (i : ℕ) (owner reason : Text) (now : ℕ)
    → IsWellFormed db
    → (release db i owner reason now ≡ (db, false)) ⊎ IsFree i (release db i owner reason now).0
unfolding release release_permits record_event
release-IsFree db i owner reason now w = elim (Option-cases (find (owned_by i owner) db.jobs)) [
  | inl e ↦ inl (rw (e, release))
  | inr (j, e) ↦ inr (
      EndsLease-IsFree db _ (owned_by i owner) (release_job reason now) j i w e (owned_id i owner)
        (λ x h. ground arith)
        (rw (e, release) (record { jobs = refl; permits = refl; reservations = refl })))
]

defer-IsFree :
    (db : Db) (i : ℕ) (owner : Text) (at : ℕ) (code message : Text) (now : ℕ)
    → IsWellFormed db
    → (defer db i owner at code message now ≡ (db, false))
      ⊎ IsFree i (defer db i owner at code message now).0
unfolding defer release_permits record_event
defer-IsFree db i owner at code message now w =
    elim (Option-cases (find (owned_by i owner) db.jobs)) [
      | inl e ↦ inl (rw (e, defer))
      | inr (j, e) ↦ inr (
          EndsLease-IsFree db _ (owned_by i owner) (defer_job at code message now) j i w e
            (owned_id i owner) (λ x h. ground arith)
            (rw (e, defer) (record { jobs = refl; permits = refl; reservations = refl })))
    ]

cancel-IsFree :
    (db : Db) (i : ℕ) (reason : Text) (now : ℕ)
    → IsWellFormed db
    → (cancel db i reason now ≡ (db, false)) ⊎ IsFree i (cancel db i reason now).0
unfolding cancel release_permits record_event
cancel-IsFree db i reason now w = elim (Option-cases (find (is_open i) db.jobs)) [
  | inl e ↦ inl (rw (e, cancel))
  | inr (j, e) ↦ inr (
      EndsLease-IsFree db _ (is_open i) (cancel_job reason now) j i w e
        (λ x h. ground (arith, nat_beq_iff x.id i)) (λ x h. ground arith)
        (rw (e, cancel)
          (EndsLease-record_terminal_units db _ (is_open i) (cancel_job reason now) j.id _ cancelled
            now (record { jobs = refl; permits = refl; reservations = refl }))))
]

-- In a well-formed database, each of success, failure, retry, release, deferral and cancellation of
-- a job reports that nothing was done and leaves the database as it was, or leaves the job unleased
-- with no permit and no reservation of space.
pub end-IsFree :
    (db : Db) (i : ℕ) (owner : Text) (at now : ℕ) (code message : Text)
    → IsWellFormed db
    → ((succeed db i owner now ≡ (db, false)) ⊎ IsFree i (succeed db i owner now).0)
      × ((fail db i owner code message now ≡ (db, false))
          ⊎ IsFree i (fail db i owner code message now).0)
      × ((retry db i owner at code message now ≡ (db, none))
          ⊎ IsFree i (retry db i owner at code message now).0)
      × ((release db i owner message now ≡ (db, false))
          ⊎ IsFree i (release db i owner message now).0)
      × ((defer db i owner at code message now ≡ (db, false))
          ⊎ IsFree i (defer db i owner at code message now).0)
      × ((cancel db i message now ≡ (db, false)) ⊎ IsFree i (cancel db i message now).0)
unfolding succeed fail
end-IsFree db i owner at now code message w = (
  finish-IsFree db i owner succeeded _ _ _ now w refl,
  finish-IsFree db i owner failed _ code message now w refl,
  retry-IsFree db i owner at code message now w,
  release-IsFree db i owner message now w,
  defer-IsFree db i owner at code message now w,
  cancel-IsFree db i message now w,
)
