-- ===== src/Plans/Untracking.antt =====
-- manga_manager/application/download_plans.py: what `untrack` leaves of a series, and of the job queue.

use manga_manager.Domain.Jobs.{is_active}
use manga_manager.Queue.Cleanup.{In-update_where}
use manga_manager.Queue.Waiting.{is_waiting}
use manga_manager.Plans.Reconcile.{
  job_of, cancel_jobs, cancel_waiting, untrack, is_open_intent, is_plan, is_active_plan,
  cancel_intent, cancel_plan,
}
use manga_manager.Queue.Rows.{Db, WorkJob}
use manga_manager.Queue.Returns.{cancel, is_open, cancel_job}
use manga_manager.Prelude.{
  ◌≡◌, ℕ, Text, txt, In, ◌⊎◌, false, some, ◌==◌, true, find-In, ◌∙◌, Pointwise, nat_beq_iff, sym,
  Option-cases, arith, nat_eq, find, inl, inr, refl, Pointwise-refl, ap, find-none,
  update_In-Pointwise, both, Option, Pointwise-origin, List, Bool-cases, subst, ◌∷◌, none,
  Pointwise-trans, [], All, keep, All-update_where, In-keep,
}
use manga_manager.Queue.Frames.{frames}
use manga_manager.Queue.Exclusion.{Descending-unique}
use manga_manager.Queue.WellFormed.{IsWellFormed, step-IsWellFormed}
use manga_manager.Queue.Operations.{Call, step}
use manga_manager.Prelude.{All-update_where}
use manga_manager.Plans.Rows.{Intent, Catalog}

abbrev reason : Text
reason = txt "series was untracked"

-- A row stays, or it waited and is cancelled.
abbrev pub StaysOrDrops : ℕ → WorkJob → WorkJob → Type 0
StaysOrDrops now j k = (k ≡ j) ⊎ ((is_waiting j.status ≡ true) × (k ≡ cancel_job reason now j))

StaysOrDrops-trans :
    (now : ℕ) (i j k : WorkJob) → StaysOrDrops now i j → StaysOrDrops now j k → StaysOrDrops now i k
StaysOrDrops-trans now i j k (inl e) (inl f) = inl (f ∙ e)
StaysOrDrops-trans now i j k (inl e) (inr (w, f)) =
    inr (rw (sym e) w, f ∙ ap (cancel_job reason now) e)
StaysOrDrops-trans now i j k (inr p) (inl f) = inr (p.0, f ∙ p.1)
StaysOrDrops-trans now i j k (inr p) (inr q) = absurd (let bad : false ≡ true = rw p.1 at q.0 in cc)

-- No row with that id waits.
abbrev pub Stopped : ℕ → Db → Type 0
Stopped id db = (j : WorkJob) → In j db.jobs → j.id ≡ id → is_waiting j.status ≡ false

found_row :
    (db : Db) (id : ℕ) (j k : WorkJob)
    → IsWellFormed db
    → job_of db id ≡ some j
    → In k db.jobs
    → k.id ≡ id
    → k ≡ j
found_row db id j k w e m same =
    let (found, t) = find-In (λ x. x.id == id) db.jobs j e in
    Descending-unique db.next_job_id db.jobs k j w.ids m found
      (same ∙ sym ((nat_beq_iff j.id id).0 t))

is_open-id : (id : ℕ) (k : WorkJob) → is_open id k ≡ true → k.id ≡ id
is_open-id id k t = (nat_beq_iff k.id id).0 (both (k.id == id) (is_active k.status) t).0

cancel-Drops :
    (db : Db) (id now : ℕ)
    → ((k : WorkJob) → In k db.jobs → k.id ≡ id → is_waiting k.status ≡ true)
    → Pointwise (StaysOrDrops now) db.jobs (cancel db id reason now).0.jobs
unfolding cancel
cancel-Drops db id now h = elim (Option-cases (find (is_open id) db.jobs)) [
  | inl e ↦ rw (e, cancel) (Pointwise-refl (StaysOrDrops now) db.jobs (λ _. inl refl))
  | inr (j, e) ↦
      rw (e, cancel)
        (simp frames (
          update_In-Pointwise (StaysOrDrops now) (is_open id) (cancel_job reason now) db.jobs
            (λ k m t. inr (h k m (is_open-id id k t), refl)) (λ _. inl refl)))
]

cancel-Stopped : (db : Db) (id now : ℕ) → Stopped id (cancel db id reason now).0
unfolding cancel
cancel-Stopped db id now = elim (Option-cases (find (is_open id) db.jobs)) [
  | inl e ↦ rw (e, cancel) λ k m same. ended k (find-none (is_open id) db.jobs k e m) same
  | inr (j, e) ↦
      rw (e, cancel)
        (simp frames (λ k m same.
          let (x, there, o) = In-update_where (is_open id) (cancel_job reason now) db.jobs k m in
          elim o [ inl (t, c) ↦ rw c refl | inr (t, c) ↦ ended k (rw c t) same ]))
]
  where
    ended : (k : WorkJob) → is_open id k ≡ false → k.id ≡ id → is_waiting k.status ≡ false
    ended k t same = let at_id : (k.id == id) ≡ true = (nat_beq_iff k.id id).1 same in ground arith

-- What cancelling the job of one intent does to the queue.
record Untracks (now : ℕ) (db db' : Db) : Type 0 where
  sound : IsWellFormed db'
  drops : Pointwise (StaysOrDrops now) db.jobs db'.jobs

same_queue : (now : ℕ) (db : Db) → IsWellFormed db → Untracks now db db
same_queue now db w = record {
  sound = w;
  drops = Pointwise-refl (StaysOrDrops now) db.jobs (λ _. inl refl);
}

job_of-id : (db : Db) (id : ℕ) (j : WorkJob) → job_of db id ≡ some j → j.id ≡ id
job_of-id db id j e = (nat_beq_iff j.id id).0 (find-In (λ x. x.id == id) db.jobs j e).1

cancel_waiting-Untracks :
    (o : Option ℕ) (now : ℕ) (db : Db) → IsWellFormed db → Untracks now db (cancel_waiting o now db)
cancel_waiting-Untracks none now db w = same_queue now db w
cancel_waiting-Untracks (some id) now db w = elim (Bool-cases (id == 0)) [
  | inl z ↦ rw z (same_queue now db w)
  | inr z ↦ elim (Option-cases (job_of db id)) [
    | inl e ↦ rw (z, e) (same_queue now db w)
    | inr (j, e) ↦ elim (Bool-cases (is_waiting j.status)) [
      | inr t ↦ rw (z, e, t) (same_queue now db w)
      | inl t ↦
          rw (z, e, t)
            (record {
              sound = unfold step in step-IsWellFormed db (Call.cancel j.id reason now) w;
              drops =
                  cancel-Drops db j.id now
                    (λ k m same. rw (found_row db id j k w e m (same ∙ job_of-id db id j e)) t);
            })
    ]
  ]
]

cancel_waiting-Stopped :
    (id now : ℕ) (db : Db)
    → IsWellFormed db
    → (id == 0) ≡ false
    → Stopped id (cancel_waiting (some id) now db)
cancel_waiting-Stopped id now db w z = elim (Option-cases (job_of db id)) [
  | inl e ↦
      rw (z, e)
        λ k m same.
          let bad : (k.id == id) ≡ false = find-none (λ x. x.id == id) db.jobs k e m in
          absurd (let worse : true ≡ false = sym ((nat_beq_iff k.id id).1 same) ∙ bad in cc)
  | inr (j, e) ↦ elim (Bool-cases (is_waiting j.status)) [
    | inr t ↦ rw (z, e, t) λ k m same. rw (found_row db id j k w e m same) t
    | inl t ↦
        rw (z, e, t)
          (subst (λ i. Stopped i (cancel db j.id reason now).0) (job_of-id db id j e)
            (cancel-Stopped db j.id now))
  ]
]

Stopped-kept : (id now : ℕ) (db db' : Db) → Untracks now db db' → Stopped id db → Stopped id db'
Stopped-kept id now db db' u s k m same =
    let (j, there, c) = Pointwise-origin (StaysOrDrops now) db.jobs db'.jobs k u.drops m in
    elim c [ inl e ↦ rw e (s j there (rw (sym e) same)) | inr (t, e) ↦ rw e refl ]

cancel_jobs-Untracks :
    (is : List Intent) (now : ℕ) (db : Db)
    → IsWellFormed db
    → Untracks now db (cancel_jobs is now db)
unfolding cancel_jobs
cancel_jobs-Untracks [] now db w = same_queue now db w
cancel_jobs-Untracks (i ∷ is) now db w =
    let first = cancel_waiting-Untracks i.job_id now db w in
    let rest = cancel_jobs-Untracks is now (cancel_waiting i.job_id now db) first.sound in
    record {
      sound = rest.sound;
      drops =
          Pointwise-trans (StaysOrDrops now) _ _ _ (StaysOrDrops-trans now) first.drops rest.drops;
    }

cancel_jobs-Stopped :
    (is : List Intent) (i : Intent) (id now : ℕ) (db : Db)
    → IsWellFormed db
    → In i is
    → i.job_id ≡ some id
    → (id == 0) ≡ false
    → Stopped id (cancel_jobs is now db)
unfolding cancel_jobs
cancel_jobs-Stopped [] i id now db w m e z = elim m [ ]
cancel_jobs-Stopped (x ∷ is) i id now db w (inl same) e z =
    let first = cancel_waiting-Untracks x.job_id now db w in
    let d = cancel_waiting x.job_id now db in
    let stopped : Stopped id d =
      let o : x.job_id ≡ some id = rw (sym same) e in rw o (cancel_waiting-Stopped id now db w z) in
    Stopped-kept id now d (cancel_jobs is now d) (cancel_jobs-Untracks is now d first.sound) stopped
cancel_jobs-Stopped (x ∷ is) i id now db w (inr m) e z =
    cancel_jobs-Stopped is i id now (cancel_waiting x.job_id now db)
      (cancel_waiting-Untracks x.job_id now db w).sound m e z

-- After a series is untracked in a well-formed database no intent of it is open and no plan of it
-- is active; the queue stays well formed; a job stays as it was, or it waited and is cancelled; and
-- of an intent that was open no job waits.
pub untrack-Clears :
    (series_id now : ℕ) (k : Catalog)
    → IsWellFormed k.queue
    → All (λ i. is_open_intent series_id i ≡ false) (untrack series_id now k).intents
      × All
          (λ p. is_plan series_id p ≡ true → is_active_plan p ≡ false)
          (untrack series_id now k).plans
      × IsWellFormed (untrack series_id now k).queue
      × Pointwise (StaysOrDrops now) k.queue.jobs (untrack series_id now k).queue.jobs
      × ((i : Intent) (id : ℕ)
          → In i k.intents
          → is_open_intent series_id i ≡ true
          → i.job_id ≡ some id
          → (id == 0) ≡ false
          → Stopped id (untrack series_id now k).queue)
unfolding untrack
untrack-Clears series_id now k w =
    let open_intents = keep (is_open_intent series_id) k.intents in
    let kept = cancel_jobs-Untracks open_intents now k.queue w in
    (
      All-update_where (λ _. Unit {0}) (λ i. is_open_intent series_id i ≡ false)
          (is_open_intent series_id) (cancel_intent now) k.intents (λ i t _. closed i) (λ i f _. f)
          (trivial k.intents),
      All-update_where (λ _. Unit {0}) (λ p. is_plan series_id p ≡ true → is_active_plan p ≡ false)
          (is_plan series_id) (cancel_plan now) k.plans (λ p t _ _. refl)
          (λ p f _ t. absurd (let bad : true ≡ false = sym t ∙ f in cc)) (trivial k.plans),
      kept.sound,
      kept.drops,
      λ i id m t e z.
          cancel_jobs-Stopped open_intents i id now k.queue w
            (In-keep (is_open_intent series_id) i k.intents m t) e z,
    )
  where
    closed : (i : Intent) → is_open_intent series_id (cancel_intent now i) ≡ false
    closed i = ground arith

    trivial : {A : Type 0} (xs : List A) → All (λ _. Unit {0}) xs
    trivial [] = tt
    trivial (x ∷ xs) = (tt, trivial xs)
