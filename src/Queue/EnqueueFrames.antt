-- ===== src/Queue/EnqueueFrames.antt =====
-- manga_manager/infrastructure/job_queue.py: what the steps of `enqueue` leave as it was.
use manga_manager.Prelude.{
  nat_eq, none, some, true, false, ℕ, ◌≡◌, refl, inl, inr, Text, arith, Bool, Option, In, true,
  if◌then◌else◌, some, Option-cases, Bool-cases, ltb, find, is_empty, any, ◌&&◌, ◌∙◌, find-In, both,
}
use manga_manager.Domain.Jobs.{JobKind, JobPayload, is_active}
use manga_manager.Queue.Rows.{WorkJob, Db}
use manga_manager.Queue.Store.{notify_workers, in_cycle}
use manga_manager.Queue.Coalesce.{
  EnqueueRequest, coalesce_into, grow_cycles, added_units, merge_payload, apply_merge, promotes,
  current_payload, should_coalesce,
}
use manga_manager.Queue.Enqueue.{
  has_key, active_job, active_cycle, open_cycle, new_job, fold_in, move_pool, moved_table,
  is_running,
}
use manga_manager.Queue.Validity.{IsValid}

pub jobs-grow_cycles :
    (c : Option ℕ) (units now : ℕ) (db : Db) → (grow_cycles c units now db).jobs ≡ db.jobs
jobs-grow_cycles none units now db = refl
jobs-grow_cycles (some c) units now db = refl

pub move_pool_active :
    (pool : Text) (now : ℕ) (j : WorkJob)
    → is_active j.status ≡ true
    → is_active (move_pool pool now j).status ≡ true
move_pool_active pool now j h = ground arith

-- A new row is valid, whatever the arguments that `enqueue` lets through.
pub new_job-IsValid :
    (r : EnqueueRequest) (p : JobPayload) (key source pool : Text) (cycle id now : ℕ)
    → is_empty key ≡ false
    → IsValid (new_job r p key source pool cycle id now)
unfolding new_job
new_job-IsValid r p key source pool cycle id now h = ground arith

pub open_cycle_frame :
    (db : Db) (now : ℕ)
    → ((open_cycle db now).0.jobs ≡ db.jobs) × ((open_cycle db now).0.next_job_id ≡ db.next_job_id)
unfolding open_cycle
open_cycle_frame db now = (refl, refl)

pub active_cycle_frame :
    (db : Db) (now : ℕ)
    → ((active_cycle db now).0.jobs ≡ db.jobs)
      × ((active_cycle db now).0.next_job_id ≡ db.next_job_id)
unfolding active_cycle open_cycle
active_cycle_frame db now = elim (Option-cases (find (λ c. is_running c.status) db.cycles)) [
  | inl e ↦ rw (e, active_cycle) (refl, refl)
  | inr (c, e) ↦ elim (Bool-cases (any (λ j. in_cycle c.id j && is_active j.status) db.jobs)) [
    | inl q ↦ rw (e, active_cycle, q) (refl, refl)
    | inr q ↦ rw (e, active_cycle, q) (refl, refl)
  ]
]

pub next-grow_cycles :
    (c : Option ℕ) (units now : ℕ) (db : Db)
    → (grow_cycles c units now db).next_job_id ≡ db.next_job_id
next-grow_cycles none units now db = refl
next-grow_cycles (some c) units now db = refl

pub next-moved_table :
    (db : Db) (pool : Text) (now : ℕ) (j : WorkJob)
    → (moved_table db pool now j).next_job_id ≡ db.next_job_id
unfolding moved_table notify_workers
next-moved_table db pool now j = ground arith

pub next-apply_merge :
    (db : Db) (r : EnqueueRequest) (p : JobPayload) (pool : Text) (now : ℕ) (j : WorkJob)
    (q : JobPayload) (merged : ℕ)
    → (apply_merge db r p pool now j q merged).next_job_id ≡ db.next_job_id
unfolding apply_merge notify_workers
next-apply_merge db r p pool now j q merged =
    elim (Bool-cases (should_coalesce r.kind (current_payload j) q)) [
      | inl e ↦ elim (Bool-cases (ltb 0 (added_units r j q merged))) [
        | inl u ↦ rw (e, u) (rw next-grow_cycles (notified (promotes r.kind (current_payload j) p)))
        | inr u ↦ rw (e, u) (notified (promotes r.kind (current_payload j) p))
      ]
      | inr e ↦ rw e
    ]
  where
    notified : (b : Bool) → (if b then notify_workers pool db else db).next_job_id ≡ db.next_job_id
    notified true = refl
    notified false = refl

pub next-fold_in :
    (db : Db) (r : EnqueueRequest) (p : JobPayload) (pool : Text) (now : ℕ) (j : WorkJob)
    → (fold_in db r p pool now j).next_job_id ≡ db.next_job_id
unfolding fold_in coalesce_into
next-fold_in db r p pool now j =
    let moved = next-moved_table db pool now j in
    elim (Bool-cases r.coalesce) [
      | inl e ↦ simp e (elim (Option-cases (merge_payload r.kind (move_pool pool now j) p)) [
        | inl q ↦ rw (q, coalesce_into) moved
        | inr (q, m) ↦
            rw (m, coalesce_into)
              (next-apply_merge (moved_table db pool now j) r p pool now (move_pool pool now j) q.0
                  q.1
                ∙ moved)
      ])
      | inr e ↦ simp e moved
    ]

-- The row that `active_job` finds is active and has the key.
pub active_job-found :
    (db : Db) (kind : JobKind) (key : Text) (j : WorkJob)
    → active_job db kind key ≡ some j
    → In j db.jobs × (is_active j.status ≡ true) × (has_key kind key j ≡ true)
unfolding active_job
active_job-found db kind key j h =
    let (m, t) = find-In (λ k. has_key kind key k && is_active k.status) db.jobs j h in
    let (keyed, active) = both (has_key kind key j) _ t in (m, active, keyed)
