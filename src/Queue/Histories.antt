-- ===== src/Queue/Histories.antt =====
-- manga_manager/infrastructure/job_queue.py: series stay exclusive over a history of calls whose
-- times do not go back.
use manga_manager.Queue.Store.{live_lease}
use manga_manager.Queue.WellFormed.{IsWellFormed, step-IsWellFormed}
use manga_manager.Domain.Jobs.{queued}
use manga_manager.Queue.Rows.{WorkJob, Db}
use manga_manager.Prelude.{ℕ, [], ◌∷◌, List, inl, inr, arith, ◌≡◌, ◌≤◌, subst, true, sym}
use manga_manager.Queue.Changes.{RowChanges, PlaceChanges}
use manga_manager.Queue.Calm.{Calm, calm_laws, IsExclusive, IsExclusive-Pointwise}
use manga_manager.Queue.Steps.{claim-or_not, call-Extends}
use manga_manager.Queue.EnqueueChanges.{Extends, evolves, inserts}
use manga_manager.Queue.Exclusion.{claim-IsExclusive}
use manga_manager.Queue.Operations.{Call, step, run, time_of}

calm_place : (now : ℕ) → PlaceChanges now (Calm now)
calm_place now =
    let laws = calm_laws now in
    record {
      same_row = laws.same_row;
      chain = laws.chain;
      keeps_id = laws.keeps_id;
      promote_row = λ r j h. ground arith;
      replace_row = λ r p added j h. ground arith;
      move_row = λ pool j h. ground arith;
    }

calm_changes : (now : ℕ) → RowChanges now (Calm now)
calm_changes now = record {
  loop = calm_laws now;
  place = calm_place now;
  finish_row = λ s code message j t h. ground arith;
  retry_row = λ at code message j h. ground arith;
  release_row = λ reason j h. ground arith;
  defer_row = λ at code message j h. ground arith;
  cancel_row = λ reason job_id j h. ground arith;
  beat_row = λ lease_for job_id owner j h. ground arith;
  progress_row = λ r j h. ground arith;
  reroute_row = λ r j h. ground arith;
  redirect_row = λ r job_id j h. ground arith;
  resume_row = λ j h. ground arith;
  retry_now_row = λ j h. ground arith;
}

-- A row that waits joins exclusive rows.
queued-IsExclusive :
    (now : ℕ) (k : WorkJob) (js : List WorkJob)
    → k.status ≡ queued
    → IsExclusive now js
    → IsExclusive now (k ∷ js)
queued-IsExclusive now k js q x i j mi mj repair mutating li lj ne same = elim mi [
  | inl a ↦ absurd (let bad : live_lease now k ≡ true = rw a at li in ground arith)
  | inr m ↦ elim mj [
    | inl b ↦ absurd (let bad : live_lease now k ≡ true = rw b at lj in ground arith)
    | inr n ↦ x i j m n repair mutating li lj ne same
  ]
]

Extends-IsExclusive :
    (now : ℕ) (db db' : Db)
    → Extends (Calm now) db db'
    → IsExclusive now db.jobs
    → IsExclusive now db'.jobs
Extends-IsExclusive now db db' (evolves p next) x = IsExclusive-Pointwise now db.jobs db'.jobs p x
Extends-IsExclusive now db db' (inserts k jobs next id v fresh unmade free) x =
    subst (IsExclusive now) (sym jobs) (queued-IsExclusive now k db.jobs fresh x)

step-IsExclusive :
    (db : Db) (c : Call)
    → IsWellFormed db
    → IsExclusive (time_of c) db.jobs
    → IsExclusive (time_of c) (step db c).jobs
step-IsExclusive db c w x = elim (claim-or_not c) [
  | inl (r, e) ↦
      subst (λ k. IsExclusive (time_of k) (step db k).jobs) (sym e)
        (unfold step in claim-IsExclusive db r w (subst (λ k. IsExclusive (time_of k) db.jobs) e x))
  | inr e ↦
      Extends-IsExclusive (time_of c) db (step db c)
        (call-Extends (Calm (time_of c)) db c (calm_changes (time_of c)) w.ids e) x
]

-- A lease that is live later is live now.
later-IsExclusive : (t u : ℕ) (js : List WorkJob) → t ≤ u → IsExclusive t js → IsExclusive u js
later-IsExclusive t u js h x i j mi mj repair mutating li lj ne same =
    x i j mi mj repair mutating (still i li) (still j lj) ne same
  where
    still : (k : WorkJob) → live_lease u k ≡ true → live_lease t k ≡ true
    still k live = ground arith

-- The times of the calls do not go back, from `t` on.
abbrev pub InOrder : ℕ → List Call → Type 0
InOrder t [] = Unit {0}
InOrder t (c ∷ cs) = (t ≤ time_of c) × InOrder (time_of c) cs

abbrev pub last_time : ℕ → List Call → ℕ
last_time t [] = t
last_time t (c ∷ cs) = last_time (time_of c) cs

-- Over any history of calls whose times do not go back, from a well-formed database in which series
-- are exclusive at the time it starts, series are exclusive at the time of the last call: of a
-- repair with a live lease and a download or repair with a live lease on the same series (a series
-- that is named), both are one job.
pub run-IsExclusive :
    (db : Db) (t : ℕ) (cs : List Call)
    → IsWellFormed db
    → IsExclusive t db.jobs
    → InOrder t cs
    → IsExclusive (last_time t cs) (run db cs).jobs
unfolding run
run-IsExclusive db t [] w x o = x
run-IsExclusive db t (c ∷ cs) w x o =
    run-IsExclusive (step db c) (time_of c) cs (step-IsWellFormed db c w)
      (step-IsExclusive db c w (later-IsExclusive t (time_of c) db.jobs o.0 x)) o.1
