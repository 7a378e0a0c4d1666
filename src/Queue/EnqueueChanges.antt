-- ===== src/Queue/EnqueueChanges.antt =====
-- manga_manager/infrastructure/job_queue.py: `enqueue` on the job table, for any relation between a
-- row before and after that its changes respect: the existing row changes, or one new row stands
-- before the others.
use manga_manager.Prelude.{
  ap, nat_eq, none, true, false, ℕ, ◌≡◌, refl, inl, inr, ◌∷◌, Text, Bool, In, true, if◌then◌else◌,
  Pointwise, Option-cases, Bool-cases, Pointwise-trans, update_where, ◌==◌, ltb, suc, is_empty,
  strip, Pointwise-refl,
}
use manga_manager.Domain.Jobs.{queued, JobPayload, is_active, parse_job_payload}
use manga_manager.Queue.Rows.{WorkJob, Db}
use manga_manager.Queue.Store.{after, notify_workers, record_event}
use manga_manager.Queue.Coalesce.{
  EnqueueRequest, coalesce_into, promote, added_units, merge_payload, coalesced, apply_merge,
  promotes, current_payload, should_coalesce,
}
use manga_manager.Queue.Enqueue.{
  active_job, active_cycle, new_job, fold_in, insert_job, enqueue, move_pool, moves, moved_table,
  place,
}
use manga_manager.Queue.Frames.{frames}
use manga_manager.Queue.Validity.{
  IsValid, Descending, update_id-Pointwise, In-update_self, Descending-related,
}
use manga_manager.Queue.Changes.{PlaceChanges}
use manga_manager.Queue.EnqueueFrames.{
  jobs-grow_cycles, move_pool_active, new_job-IsValid, active_cycle_frame, next-fold_in,
  active_job-found,
}

-- The table after an operation: the old rows evolve, or a new row with a fresh id and a free key
-- stands before them.
pub data Extends (R : WorkJob → WorkJob → Type 0) (db db' : Db) : Type 0 where
  evolves : Pointwise R db.jobs db'.jobs → db'.next_job_id ≡ db.next_job_id → Extends R db db'
  inserts :
      (j : WorkJob)
      → db'.jobs ≡ j ∷ db.jobs
      → db'.next_job_id ≡ suc db.next_job_id
      → j.id ≡ db.next_job_id
      → IsValid j
      → j.status ≡ queued
      → j.attempts ≡ 0
      → active_job db j.kind j.dedupe_key ≡ none
      → Extends R db db'

module _ (now : ℕ) (R : WorkJob → WorkJob → Type 0) (laws : PlaceChanges now R) where
  open laws use {same_row, chain, keeps_id, promote_row, replace_row, move_row}

  coalesced-related :
      (r : EnqueueRequest) (p : JobPayload) (added : ℕ) (promoting : Bool) (j : WorkJob)
      → is_active j.status ≡ true
      → R j (coalesced r p added now promoting j)
  coalesced-related r p added true j h =
      chain _ _ _ (promote_row r j h) (replace_row r p added (promote r now j) h)
  coalesced-related r p added false j h = replace_row r p added j h

  apply_merge-related :
      (n : ℕ) (db : Db) (r : EnqueueRequest) (p : JobPayload) (pool : Text) (j : WorkJob)
      (q : JobPayload) (merged : ℕ)
      → Descending n db.jobs
      → In j db.jobs
      → is_active j.status ≡ true
      → Pointwise R db.jobs (apply_merge db r p pool now j q merged).jobs
  unfolding apply_merge
  apply_merge-related n db r p pool j q merged d m h =
      elim (Bool-cases (should_coalesce r.kind (current_payload j) q)) [
        | inl e ↦ elim (Bool-cases (ltb 0 (added_units r j q merged))) [
          | inl u ↦
              rw (e, u) (rw jobs-grow_cycles (changed (promotes r.kind (current_payload j) p)))
          | inr u ↦ rw (e, u) (changed (promotes r.kind (current_payload j) p))
        ]
        | inr e ↦ rw e (Pointwise-refl R db.jobs same_row)
      ]
    where
      change : Pointwise R db.jobs (
          update_where
            (λ k. k.id == j.id)
            (coalesced r q (added_units r j q merged) now (promotes r.kind (current_payload j) p))
            db.jobs)
      change =
          update_id-Pointwise R n _ j db.jobs d m
            (coalesced-related r q (added_units r j q merged)
              (promotes r.kind (current_payload j) p) j h)
            same_row

      changed :
          (promoting : Bool)
          → Pointwise R db.jobs (
              update_where
                (λ k. k.id == j.id)
                (coalesced r q
                  (added_units r j q merged)
                  now
                  (promotes r.kind (current_payload j) p))
                (if promoting then notify_workers pool db else db).jobs)
      changed true = simp frames change
      changed false = change

  coalesce_into-related :
      (n : ℕ) (db : Db) (r : EnqueueRequest) (p : JobPayload) (pool : Text) (j : WorkJob)
      → Descending n db.jobs
      → In j db.jobs
      → is_active j.status ≡ true
      → Pointwise R db.jobs (coalesce_into db r p pool now j).jobs
  unfolding coalesce_into
  coalesce_into-related n db r p pool j d m h = elim (Option-cases (merge_payload r.kind j p)) [
    | inl e ↦ rw (e, coalesce_into) (Pointwise-refl R db.jobs same_row)
    | inr (q, e) ↦ rw (e, coalesce_into) (apply_merge-related n db r p pool j q.0 q.1 d m h)
  ]

  moved_table-related :
      (n : ℕ) (db : Db) (pool : Text) (j : WorkJob)
      → Descending n db.jobs
      → In j db.jobs
      → is_active j.status ≡ true
      → Pointwise R db.jobs (moved_table db pool now j).jobs
        × In (move_pool pool now j) (moved_table db pool now j).jobs
  unfolding moved_table
  moved_table-related n db pool j d m h = elim (Bool-cases (moves pool j)) [
    | inl e ↦ rw e (
      simp frames
          (update_id-Pointwise R n (move_pool pool now) j db.jobs d m (move_row pool j h) same_row),
      simp frames (rw e at (In-update_self (move_pool pool now) j db.jobs m)),
    )
    | inr e ↦ rw e (Pointwise-refl R db.jobs same_row, m)
  ]

  pub fold_in-related :
      (n : ℕ) (db : Db) (r : EnqueueRequest) (p : JobPayload) (pool : Text) (j : WorkJob)
      → Descending n db.jobs
      → In j db.jobs
      → is_active j.status ≡ true
      → Pointwise R db.jobs (fold_in db r p pool now j).jobs
  unfolding fold_in
  fold_in-related n db r p pool j d m h =
      let (moved, there) = moved_table-related n db pool j d m h in
      elim (Bool-cases r.coalesce) [
        | inl e ↦ simp e (
            Pointwise-trans R _ _ _ chain moved (
              coalesce_into-related n (moved_table db pool now j) r p pool (move_pool pool now j)
                (Descending-related R n _ _ keeps_id moved d) there
                (move_pool_active pool now j h)))
        | inr e ↦ simp e moved
      ]

  insert_job-Extends :
      (db : Db) (r : EnqueueRequest) (p : JobPayload) (key source pool : Text)
      → is_empty key ≡ false
      → active_job db r.kind key ≡ none
      → Extends R db (insert_job db r p key source pool now)
  unfolding insert_job notify_workers record_event new_job
  insert_job-Extends db r p key source pool k h =
      let (jobs, next) = active_cycle_frame db now in
      inserts job (ap (◌∷◌ job) jobs) (ap suc next) next
        (new_job-IsValid r p key source pool (active_cycle db now).1 cycled.next_job_id now k) refl
        refl h
    where
      cycled : Db
      cycled = (active_cycle db now).0

      job : WorkJob
      job = new_job r p key source pool (active_cycle db now).1 cycled.next_job_id now

  place-Extends :
      (db : Db) (r : EnqueueRequest) (p : JobPayload) (key : Text)
      → Descending db.next_job_id db.jobs
      → is_empty key ≡ false
      → Extends R db (place db r p key now).0
  unfolding place
  place-Extends db r p key d k = elim (Option-cases (active_job db r.kind key)) [
    | inl e ↦ rw (e, place) (insert_job-Extends db r p key _ _ k e)
    | inr (j, e) ↦
        let (m, active, _) = active_job-found db r.kind key j e in
        rw (e, place)
          (evolves (fold_in-related db.next_job_id db r p _ j d m active)
            (next-fold_in db r p _ now j))
  ]

  -- `enqueue` raises and leaves the table alone, or evolves the active row of the key, or inserts.
  pub enqueue-Extends :
      (db : Db) (r : EnqueueRequest)
      → Descending db.next_job_id db.jobs
      → Extends R db (after db (enqueue db r now))
  unfolding enqueue
  enqueue-Extends db r d = elim (Bool-cases (is_empty (strip r.dedupe_key))) [
    | inl e ↦ rw e (evolves (Pointwise-refl R db.jobs same_row) refl)
    | inr e ↦ elim (Bool-cases (r.max_attempts == 0)) [
      | inl q ↦ rw e (rw q (evolves (Pointwise-refl R db.jobs same_row) refl))
      | inr q ↦ rw e (
          rw q (elim (Option-cases (parse_job_payload r.kind r.payload)) [
            | inl v ↦ rw v (evolves (Pointwise-refl R db.jobs same_row) refl)
            | inr (p, v) ↦ rw v (place-Extends db r p (strip r.dedupe_key) d e)
          ]))
    ]
  ]
