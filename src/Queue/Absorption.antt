-- ===== src/Queue/Absorption.antt =====
-- manga_manager/infrastructure/job_queue.py: what becomes of a row over a history of calls.
use manga_manager.Prelude.{◌≡◌, sym, inl, inr, List, [], ◌∷◌, true, In, Pointwise, ◌∙◌}
use manga_manager.Domain.Jobs.{is_terminal}
use manga_manager.Queue.Rows.{WorkJob, Db}
use manga_manager.Queue.Validity.{Evolves}
use manga_manager.Queue.EnqueueChanges.{Extends, evolves, inserts}
use manga_manager.Queue.Operations.{Call, step, run}
use manga_manager.Queue.WellFormed.{IsWellFormed, step-Evolves, step-IsWellFormed}

In-absorbed :
    (j : WorkJob) (js ks : List WorkJob)
    → Pointwise Evolves js ks
    → is_terminal j.status ≡ true
    → In j js
    → In j ks
In-absorbed j [] ks p t m = elim m [ ]
In-absorbed j (x ∷ js) [] p t m = elim p [ ]
In-absorbed j (x ∷ js) (k ∷ ks) p t (inl e) = inl (e ∙ sym (p.0.absorbing (rw (← e) t)))
In-absorbed j (x ∷ js) (k ∷ ks) p t (inr m) = inr (In-absorbed j js ks p.1 t m)

Extends-absorbed :
    (db db' : Db) (j : WorkJob)
    → Extends Evolves db db'
    → is_terminal j.status ≡ true
    → In j db.jobs
    → In j db'.jobs
Extends-absorbed db db' j (evolves p next) t m = In-absorbed j db.jobs db'.jobs p t m
Extends-absorbed db db' j (inserts k jobs next id v fresh unmade free) t m = rw jobs (inr m)

-- Over any history, a job that has succeeded, failed or been cancelled stays in the table with
-- every column as it was.
pub run-absorbed :
    (db : Db) (cs : List Call) (j : WorkJob)
    → IsWellFormed db
    → In j db.jobs
    → is_terminal j.status ≡ true
    → In j (run db cs).jobs
unfolding run
run-absorbed db [] j w m t = m
run-absorbed db (c ∷ cs) j w m t =
    run-absorbed (step db c) cs j (step-IsWellFormed db c w)
      (Extends-absorbed db (step db c) j (step-Evolves db c w) t m) t
