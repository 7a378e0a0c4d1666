-- ===== src/Queue/Fencing.antt =====
-- manga_manager/infrastructure/job_queue.py: a worker whose lease has expired or has passed to
-- another cannot act on the job.
use manga_manager.Queue.Validity.{Descending, Descending-In}
use manga_manager.Queue.WellFormed.{IsWellFormed}
use manga_manager.Prelude.{
  ℕ, ◌≡◌, refl, List, Text, arith, false, none, some, find, ◌<◌, update_where, Bool, count_if, ◌∷◌,
  Bool-cases, inl, inr, ap, ◌≢◌, list_beq_iff, true, nat_beq_iff, In, ◌⊎◌, ◌≤◌, nat_eq, [],
}
use manga_manager.Queue.Rows.{WorkJob, Db}
use manga_manager.Queue.Store.{ok, held_by, expires_after}
use manga_manager.Queue.Leases.{heartbeat, succeed, fail, finish, beat}
use manga_manager.Queue.Returns.{retry}

-- No row is held: an update of the held rows changes nothing.
update_none :
    (p : WorkJob → Bool) (f : WorkJob → WorkJob) (js : List WorkJob)
    → find p js ≡ none
    → (update_where p f js ≡ js) × (count_if p js ≡ 0)
unfolding find update_where count_if
update_none p f [] h = (refl, refl)
update_none p f (j ∷ js) h = elim (Bool-cases (p j)) [
  | inl e ↦ absurd (let bad : some j ≡ none = rw e at h in cc)
  | inr e ↦
      let (same, zero_held) = update_none p f js (rw e at h) in
      rw e (ap (◌∷◌ j) same, omega (arith, zero_held))
]

-- A test that fits one id at most, and not the row with that id, finds nothing.
find_other :
    (n : ℕ) (p : WorkJob → Bool) (j : WorkJob) (js : List WorkJob)
    → ((k : WorkJob) → p k ≡ true → k.id ≡ j.id)
    → Descending n js
    → n ≤ j.id
    → find p js ≡ none
unfolding find
find_other n p j [] only d h = refl
find_other n p j (k ∷ ks) only d h = elim (Bool-cases (p k)) [
  | inl e ↦ absurd (let same = only k e in omega arith)
  | inr e ↦ rw e (find_other k.id p j ks only d.1 (omega arith))
]

find_unheld :
    (n : ℕ) (p : WorkJob → Bool) (j : WorkJob) (js : List WorkJob)
    → ((k : WorkJob) → p k ≡ true → k.id ≡ j.id)
    → Descending n js
    → In j js
    → p j ≡ false
    → find p js ≡ none
unfolding find
find_unheld n p j [] only d m h = elim m [ ]
find_unheld n p j (k ∷ ks) only d (inl e) h =
    let here : p k ≡ false = rw e at h in
    rw here (find_other k.id p j ks only d.1 (rw e (omega arith)))
find_unheld n p j (k ∷ ks) only d (inr m) h = elim (Bool-cases (p k)) [
  | inl e ↦ absurd (let same = only k e in let below = Descending-In k.id ks j d.1 m in omega arith)
  | inr e ↦ rw e (find_unheld k.id p j ks only d.1 m h)
]

pub held_id :
    (i : ℕ) (owner : Text) (now : ℕ) (k : WorkJob) → held_by i owner now k ≡ true → k.id ≡ i
held_id i owner now k h = ground (arith, nat_beq_iff k.id i)

-- A row of another owner, or whose lease is over.
abbrev pub IsStale : Text → ℕ → WorkJob → Type 0
IsStale owner now j = (j.lease_owner ≢ owner) ⊎ (expires_after now j.lease_expires_at ≡ false)

stale_unheld :
    (owner : Text) (now : ℕ) (j : WorkJob) → IsStale owner now j → held_by j.id owner now j ≡ false
stale_unheld owner now j (inl other) = ground (arith, list_beq_iff j.lease_owner owner)
stale_unheld owner now j (inr over) = ground (arith, over)

-- In a well-formed database, take a worker that is not the owner of a job's lease, or whose lease
-- is over. Its heartbeat (of a positive length), success, failure and retry for the job report that
-- nothing was done, and leave the whole database as it was.
pub stale_owner :
    (db : Db) (j : WorkJob) (owner : Text) (now lease_for available_at : ℕ) (code message : Text)
    → IsWellFormed db
    → In j db.jobs
    → IsStale owner now j
    → 0 < lease_for
    → (heartbeat db j.id owner lease_for now ≡ ok (db, false))
      × (succeed db j.id owner now ≡ (db, false))
      × (fail db j.id owner code message now ≡ (db, false))
      × (retry db j.id owner available_at code message now ≡ (db, none))
unfolding heartbeat succeed fail finish retry
stale_owner db j owner now lease_for available_at code message w m stale pos =
    (beat_nothing, rw (h, finish), rw (h, finish), rw (h, retry))
  where
    held : WorkJob → Bool
    held = held_by j.id owner now

    h : find held db.jobs ≡ none
    h =
        find_unheld db.next_job_id held j db.jobs (held_id j.id owner now) w.ids m
          (stale_unheld owner now j stale)

    untouched :
        (update_where held (beat now lease_for) db.jobs ≡ db.jobs) × (count_if held db.jobs ≡ 0)
    untouched = update_none held (beat now lease_for) db.jobs h

    beat_nothing : heartbeat db j.id owner lease_for now ≡ ok (db, false)
    beat_nothing = ground (arith, untouched.0, untouched.1)
