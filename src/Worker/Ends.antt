-- ===== src/Worker/Ends.antt =====
-- manga_manager/worker/runtime.py: what the calls that end a lease do to the job, and what they
-- answer.
use manga_manager.Prelude.{
  ◌≡◌, ℕ, refl, inl, inr, Bool, true, false, List, Option, none, some, Text, ◌⊎◌, In, find,
  update_where, find-In, find-none, In-changed, Option-cases, Bool-cases, ◌==◌, ◌∙◌, ap, ◌||◌, ◌&&◌,
  arith, nat_beq_iff,
}
use manga_manager.Domain.Jobs.{
  JobPayload, leased, cancelled, JobState, queued, retry_wait, succeeded, failed, state_eq,
}
use manga_manager.Queue.Rows.{WorkJob, Db}
use manga_manager.Queue.Store.{held_by, owned_by}
use manga_manager.Queue.Frames.{frames}
use manga_manager.Queue.Leases.{finish, finish_job, put_back}
use manga_manager.Queue.Returns
use manga_manager.Queue.Returns.{is_final, retry_job, release_job, defer_job}
use manga_manager.Queue.WellFormed.{IsWellFormed}
use manga_manager.Queue.Exclusion.{Descending-unique}
use manga_manager.Queue.Fencing.{held_id}

-- A row with the id is in a state that the test accepts.
abbrev pub Stands : ℕ → (JobState → Bool) → List WorkJob → Type 0
Stands i p js = (k : WorkJob) × In k js × (k.id ≡ i) × (p k.status ≡ true)

-- A search by owner finds the row of the id that it holds.
pub find_row :
    (db : Db) (p : WorkJob → Bool) (j : WorkJob)
    → IsWellFormed db
    → ((k : WorkJob) → p k ≡ true → k.id ≡ j.id)
    → In j db.jobs
    → p j ≡ true
    → find p db.jobs ≡ some j
find_row db p j w same i h = elim (Option-cases (find p db.jobs)) [
  | inl e ↦ absurd (let bad = find-none p db.jobs j e i in cc)
  | inr (k, e) ↦
      let (there, t) = find-In p db.jobs k e in
      e ∙ ap (λ x. some x) (Descending-unique db.next_job_id db.jobs k j w.ids there i (same k t))
]

found_Stands :
    (i : ℕ) (p : WorkJob → Bool) (f : WorkJob → WorkJob) (q : JobState → Bool) (j : WorkJob)
    (js : List WorkJob)
    → find p js ≡ some j
    → (f j).id ≡ i
    → q (f j).status ≡ true
    → Stands i q (update_where p f js)
found_Stands i p f q j js e same t =
    let (there, h) = find-In p js j e in (f j, In-changed p f j js there h, same, t)

-- What an operation that ends a lease does to the row: nothing, and it says so, or the row is in a
-- state that the test accepts.
abbrev pub Ends : ℕ → (JobState → Bool) → Db → Db × Bool → Type 0
Ends i q db r = (r ≡ (db, false)) ⊎ (Stands i q r.0.jobs × (r.1 ≡ true))

abbrev pub is_failed : JobState → Bool
is_failed s = s == failed

abbrev pub is_retrying : JobState → Bool
is_retrying s = s == retry_wait

abbrev pub is_queued : JobState → Bool
is_queued s = s == queued

pub owned_id : (i : ℕ) (owner : Text) (j : WorkJob) → owned_by i owner j ≡ true → j.id ≡ i
owned_id i owner j h = ground (arith, nat_beq_iff j.id i)

pub release-Ends :
    (db : Db) (i : ℕ) (owner reason : Text) (now : ℕ)
    → Ends i is_queued db (Returns.release db i owner reason now)
unfolding Returns.release
release-Ends db i owner reason now = elim (Option-cases (find (owned_by i owner) db.jobs)) [
  | inl e ↦ rw (e, Returns.release) (inl refl)
  | inr (j, e) ↦
      let same = owned_id i owner j (find-In (owned_by i owner) db.jobs j e).1 in
      let row =
        found_Stands i (owned_by i owner) (release_job reason now) is_queued j db.jobs e same
          refl in
      rw (e, Returns.release) (inr (simp frames row, refl))
]

pub defer-Ends :
    (db : Db) (i : ℕ) (owner : Text) (at : ℕ) (code message : Text) (now : ℕ)
    → Ends i is_retrying db (Returns.defer db i owner at code message now)
unfolding Returns.defer
defer-Ends db i owner at code message now = elim (Option-cases (find (owned_by i owner) db.jobs)) [
  | inl e ↦ rw (e, Returns.defer) (inl refl)
  | inr (j, e) ↦
      let same = owned_id i owner j (find-In (owned_by i owner) db.jobs j e).1 in
      let row =
        found_Stands i (owned_by i owner) (defer_job at code message now) is_retrying j db.jobs e
          same refl in
      rw (e, Returns.defer) (inr (simp frames row, refl))
]

finish_job-fits :
    (s : JobState) (code message : Text) (now : ℕ) (j : WorkJob)
    → ((finish_job s code message now j).id ≡ j.id)
      × (((finish_job s code message now j).status == s
            || (finish_job s code message now j).status == queued && s == succeeded)
          ≡ true)
finish_job-fits succeeded code message now j = elim (Option-cases j.pending_payload) [
  | inl e ↦ rw e (refl, refl)
  | inr (p, e) ↦ rw e (refl, refl)
]
finish_job-fits queued code message now j = (refl, refl)
finish_job-fits leased code message now j = (refl, refl)
finish_job-fits retry_wait code message now j = (refl, refl)
finish_job-fits failed code message now j = (refl, refl)
finish_job-fits cancelled code message now j = (refl, refl)

pub finish-Ends :
    (db : Db) (i : ℕ) (owner : Text) (s : JobState) (event code message : Text) (now : ℕ)
    → Ends i
        (λ x. x == s || x == queued && s == succeeded)
        db
        (finish db i owner s event code message now)
unfolding finish
finish-Ends db i owner s event code message now =
    elim (Option-cases (find (held_by i owner now) db.jobs)) [
      | inl e ↦ rw (e, finish) (inl refl)
      | inr (j, e) ↦
          let same = held_id i owner now j (find-In (held_by i owner now) db.jobs j e).1 in
          let (kept, fits) = finish_job-fits s code message now j in
          let row =
            found_Stands i (held_by i owner now) (finish_job s code message now)
              (λ x. x == s || x == queued && s == succeeded) j db.jobs e (kept ∙ same) fits in
          elim (Option-cases (put_back s j.pending_payload)) [
            | inl q ↦ rw (e, finish, q) (inr (simp frames row, refl))
            | inr (p, q) ↦ rw (e, finish, q) (inr (simp frames row, refl))
          ]
    ]

-- A row with the id, and that row afterwards: it has succeeded where nothing newer was pending, and
-- otherwise waits with the newer payload in place of its own.
abbrev pub Completes : ℕ → List WorkJob → List WorkJob → Type 0
Completes i js ks =
    (j : WorkJob) × (k : WorkJob) × In j js
    × In k ks
    × (j.id ≡ i)
    × (k.id ≡ i)
    × (((j.pending_payload ≡ none) × (k.status ≡ succeeded) × (k.payload ≡ j.payload))
        ⊎ ((p : JobPayload) × (j.pending_payload ≡ some p)
            × (k.status ≡ queued)
            × (k.payload ≡ p)
            × (k.pending_payload ≡ none)))

pub finish-Completes :
    (db : Db) (i : ℕ) (owner event code message : Text) (now : ℕ)
    → (finish db i owner succeeded event code message now ≡ (db, false))
      ⊎ (Completes i db.jobs (finish db i owner succeeded event code message now).0.jobs
          × ((finish db i owner succeeded event code message now).1 ≡ true))
unfolding finish
finish-Completes db i owner event code message now =
    elim (Option-cases (find (held_by i owner now) db.jobs)) [
      | inl e ↦ rw (e, finish) (inl refl)
      | inr (j, e) ↦
          let (there, t) = find-In (held_by i owner now) db.jobs j e in
          let same = held_id i owner now j t in
          let f = finish_job succeeded code message now in
          let changed = In-changed (held_by i owner now) f j db.jobs there t in
          elim (Option-cases j.pending_payload) [
            | inl q ↦
                rw (e, finish, q)
                  (inr (
                    simp frames
                        (j, f j, there, changed, same, rw q same, rw q (inl (refl, refl, refl))),
                    refl,
                  ))
            | inr (p, q) ↦
                rw (e, finish, q)
                  (inr (
                    simp frames (
                      j,
                      f j,
                      there,
                      changed,
                      same,
                      rw q same,
                      rw q (inr (p, refl, refl, refl, refl)),
                    ),
                    refl,
                  ))
          ]
    ]

-- `retry` tells the state that it leaves the row in.
abbrev pub Retries : ℕ → Db → Db × Option JobState → Type 0
Retries i db r =
    (r ≡ (db, none))
    ⊎ ((Stands i is_retrying r.0.jobs × (r.1 ≡ some retry_wait))
        ⊎ (Stands i is_failed r.0.jobs × (r.1 ≡ some failed)))

pub retry-Retries :
    (db : Db) (i : ℕ) (owner : Text) (at : ℕ) (code message : Text) (now : ℕ)
    → Retries i db (Returns.retry db i owner at code message now)
unfolding Returns.retry
retry-Retries db i owner at code message now =
    elim (Option-cases (find (held_by i owner now) db.jobs)) [
      | inl e ↦ rw (e, Returns.retry) (inl refl)
      | inr (j, e) ↦
          let same = held_id i owner now j (find-In (held_by i owner now) db.jobs j e).1 in
          elim (Bool-cases (is_final j)) [
            | inl q ↦
                let row =
                  found_Stands i (held_by i owner now) (retry_job at code message now) is_failed j
                    db.jobs e same (rw q refl) in
                rw (e, Returns.retry, q) (inr (inr (simp frames row, refl)))
            | inr q ↦
                let row =
                  found_Stands i (held_by i owner now) (retry_job at code message now) is_retrying j
                    db.jobs e same (rw q refl) in
                rw (e, Returns.retry, q) (inr (inl (simp frames row, refl)))
          ]
    ]
