-- ===== src/Queue/WellFormed.antt =====
-- manga_manager/infrastructure/job_queue.py and db_models.py: the job table between two calls:
-- unique ids below the sequence, rows that satisfy the constraints, one active job for each key.
use manga_manager.Prelude.{
  ◌≡◌, refl, List, [], ◌∷◌, arith, All, Pointwise, true, false, find, ◌∙◌, All-Pointwise,
  Bool-cases, ◌&&◌, inl, none, inr, Bool, sym, some,
}
use manga_manager.Domain.Jobs.{is_active, is_terminal, JobState}
use manga_manager.Queue.Rows.{WorkJob, Db}
use manga_manager.Queue.Validity.{IsValid, Evolves, Descending, Descending-Pointwise}
use manga_manager.Queue.Enqueue.{has_key, active_job}
use manga_manager.Queue.Evolution.{evolution, lease_evolution}
use manga_manager.Queue.EnqueueChanges.{Extends, evolves, inserts}
use manga_manager.Queue.Steps.{step-Extends}
use manga_manager.Queue.Operations.{Call, step, run, time_of}

-- No active row of the list has the key of `j`.
abbrev pub Unclaimed : WorkJob → List WorkJob → Type 0
Unclaimed j [] = Unit {0}
Unclaimed j (k ∷ ks) =
    (is_active k.status ≡ true → has_key j.kind j.dedupe_key k ≡ false) × Unclaimed j ks

-- The partial unique index `uq_job_active_dedupe`.
abbrev pub UniqueActive : List WorkJob → Type 0
UniqueActive [] = Unit {0}
UniqueActive (j ∷ js) = (is_active j.status ≡ true → Unclaimed j js) × UniqueActive js

pub record IsWellFormed (db : Db) : Type 0 where
  pub ids : Descending db.next_job_id db.jobs
  pub rows : All IsValid db.jobs
  pub keys : UniqueActive db.jobs

-- What is active after a change was active before it.
still_active : (j k : WorkJob) → Evolves j k → is_active k.status ≡ true → is_active j.status ≡ true
still_active j k e h = elim (Bool-cases (is_terminal j.status)) [
  | inl t ↦ rw (← e.absorbing t) h
  | inr t ↦ active_or_terminal j.status t
]
  where
    active_or_terminal : (s : JobState) → is_terminal s ≡ false → is_active s ≡ true
    active_or_terminal s t = ground arith

same_key_test :
    (i j x k : WorkJob)
    → Evolves i j
    → Evolves x k
    → has_key j.kind j.dedupe_key k ≡ has_key i.kind i.dedupe_key x
same_key_test i j x k e f = rw (e.same_kind, e.same_key, f.same_kind, f.same_key)

Unclaimed-Pointwise :
    (i j : WorkJob) (js ks : List WorkJob)
    → Evolves i j
    → Pointwise Evolves js ks
    → Unclaimed i js
    → Unclaimed j ks
Unclaimed-Pointwise i j [] [] e p u = tt
Unclaimed-Pointwise i j [] (k ∷ ks) e p u = elim p [ ]
Unclaimed-Pointwise i j (x ∷ js) [] e p u = elim p [ ]
Unclaimed-Pointwise i j (x ∷ js) (k ∷ ks) e p u = (
  λ active. same_key_test i j x k e p.0 ∙ u.0 (still_active x k p.0 active),
  Unclaimed-Pointwise i j js ks e p.1 u.1,
)

UniqueActive-Pointwise :
    (js ks : List WorkJob) → Pointwise Evolves js ks → UniqueActive js → UniqueActive ks
UniqueActive-Pointwise [] [] p u = tt
UniqueActive-Pointwise [] (k ∷ ks) p u = elim p [ ]
UniqueActive-Pointwise (x ∷ js) [] p u = elim p [ ]
UniqueActive-Pointwise (x ∷ js) (k ∷ ks) p u = (
  λ active. Unclaimed-Pointwise x k js ks p.0 p.1 (u.0 (still_active x k p.0 active)),
  UniqueActive-Pointwise js ks p.1 u.1,
)

-- No active row has the key that `active_job` does not find.
Unclaimed-of_none :
    (j : WorkJob) (js : List WorkJob)
    → find (λ k. has_key j.kind j.dedupe_key k && is_active k.status) js ≡ none
    → Unclaimed j js
unfolding find
Unclaimed-of_none j [] h = tt
Unclaimed-of_none j (k ∷ ks) h =
    elim (Bool-cases (has_key j.kind j.dedupe_key k && is_active k.status)) [
      | inl e ↦ absurd (let bad : some k ≡ none = rw e at h in cc)
      | inr e ↦ (λ active. fails _ _ e active, Unclaimed-of_none j ks (rw e at h))
    ]
  where
    fails : (a b : Bool) → (a && b) ≡ false → b ≡ true → a ≡ false
    fails true b e t = absurd (let bad : true ≡ false = sym t ∙ e in cc)
    fails false b e t = refl

pub Extends-IsWellFormed :
    (db db' : Db) → Extends Evolves db db' → IsWellFormed db → IsWellFormed db'
unfolding active_job
Extends-IsWellFormed db db' (evolves p next) w = record {
  ids = rw next (Descending-Pointwise db.next_job_id db.jobs db'.jobs p w.ids);
  rows = All-Pointwise IsValid Evolves db.jobs db'.jobs (λ j k e. e.keeps) p w.rows;
  keys = UniqueActive-Pointwise db.jobs db'.jobs p w.keys;
}
Extends-IsWellFormed db db' (inserts j jobs next id v fresh unmade free) w = record {
  ids = rw (jobs, next, id) (omega arith, w.ids);
  rows = rw jobs (v, w.rows);
  keys = rw jobs (λ _. Unclaimed-of_none j db.jobs free, w.keys);
}

-- Every call evolves the rows, or inserts one.
pub step-Evolves : (db : Db) (c : Call) → IsWellFormed db → Extends Evolves db (step db c)
step-Evolves db c w = step-Extends Evolves db c (evolution (time_of c)) lease_evolution w.ids

-- Every call keeps the job table well formed.
pub step-IsWellFormed : (db : Db) (c : Call) → IsWellFormed db → IsWellFormed (step db c)
step-IsWellFormed db c w = Extends-IsWellFormed db (step db c) (step-Evolves db c w) w

-- Over any history of calls from a well-formed database, the database stays well formed: the ids of
-- the jobs are unique and below the sequence, every row satisfies the constraints on its lease, its
-- attempts, its end, its units and its key, and no two active jobs have the same kind and key.
pub run-IsWellFormed : (db : Db) (cs : List Call) → IsWellFormed db → IsWellFormed (run db cs)
unfolding run
run-IsWellFormed db [] w = w
run-IsWellFormed db (c ∷ cs) w = run-IsWellFormed (step db c) cs (step-IsWellFormed db c w)
