-- ===== src/Queue/Refinement.antt =====
-- manga_manager/infrastructure/job_queue.py: each row lives the abstract life of a job, whatever
-- calls are made.
use manga_manager.Queue.Steps.{step-Extends}
use manga_manager.Queue.WellFormed.{IsWellFormed, step-IsWellFormed}
use manga_manager.Queue.Operations.{run, Call, step, time_of}
use manga_manager.Queue.EnqueueChanges.{Extends, evolves, inserts}
use manga_manager.Queue.Enqueue.{move_pool, moves}
use manga_manager.Queue.Coalesce.{EnqueueRequest, replace_payload}
use manga_manager.Queue.Leases.{finish_job, put_back}
use manga_manager.Queue.Returns.{retry_job, is_final}
use manga_manager.Queue.Claim.{repooled, lease_job}
use manga_manager.Prelude.{
  ℕ, ◌≡◌, true, List, [], ◌∷◌, Pointwise, both, max, ◌∙◌, Text, refl, arith, Bool-cases,
  Option-cases, inl, inr, ◌==◌, Pointwise-trans, Pointwise-refl, subst, sym,
}
use manga_manager.Domain.Jobs.{
  leased, queued, JobState, failed, is_terminal, state_beq_iff, retry_wait, source_refresh,
  JobPayload, kind_eq, state_eq,
}
use manga_manager.Queue.Rows.{WorkJob, Db}
use manga_manager.Queue.LifeCycle.{Move, Lives, here, further, Lives-trans, born, life_of}
use manga_manager.Queue.Changes.{RowChanges, PlaceChanges}
use manga_manager.Queue.ClaimLoop.{RowLaws}
use manga_manager.Queue.ClaimChanges.{LeaseRow}

-- A row before and after: one job, further on in its life.
pub record Aged (j k : WorkJob) : Type 0 where
  pub same_job : k.id ≡ j.id
  pub lives : Lives (life_of j) (life_of k)

one : (j k : WorkJob) → k.id ≡ j.id → Move (life_of j) (life_of k) → Aged j k
one j k e m = record { same_job = e; lives = further here m }

same_life : (j k : WorkJob) → k.id ≡ j.id → life_of k ≡ life_of j → Aged j k
same_life j k e h = record { same_job = e; lives = rw h here }

repooled-Aged : (j : WorkJob) → Aged j (repooled j)
repooled-Aged j = elim (Bool-cases (j.kind == source_refresh)) [
  | inl e ↦ rw e (same_life j _ refl refl)
  | inr e ↦ rw e (same_life j _ refl refl)
]

replace_payload-Aged :
    (r : EnqueueRequest) (p : JobPayload) (added now : ℕ) (j : WorkJob)
    → Aged j (replace_payload r p added now j)
replace_payload-Aged r p added now j = elim (Bool-cases (j.status == leased)) [
  | inl e ↦ rw e (same_life j _ refl refl)
  | inr e ↦ rw e (same_life j _ refl refl)
]

finish_job-Aged :
    (s : JobState) (code message : Text) (now : ℕ) (j : WorkJob)
    → is_terminal s ≡ true
    → j.status ≡ leased
    → Aged j (finish_job s code message now j)
finish_job-Aged s code message now j t h = elim (Option-cases (put_back s j.pending_payload)) [
  | inl e ↦ rw (e, finish_job) (one j _ refl (Move.end (life_of j) s h t))
  | inr (p, e) ↦ rw (e, finish_job) (one j _ refl (Move.requeue (life_of j) h))
]

retry_job-Aged :
    (at : ℕ) (code message : Text) (now : ℕ) (j : WorkJob)
    → j.status ≡ leased
    → Aged j (retry_job at code message now j)
retry_job-Aged at code message now j h = elim (Bool-cases (is_final j)) [
  | inl e ↦ rw e (one j _ refl (Move.end (life_of j) failed h refl))
  | inr e ↦ rw e (one j _ refl (Move.hold (life_of j) (rw h refl)))
]

move_pool-Aged : (pool : Text) (now : ℕ) (j : WorkJob) → Aged j (move_pool pool now j)
move_pool-Aged pool now j = elim (Bool-cases (moves pool j)) [
  | inl e ↦ rw e (same_life j _ refl refl)
  | inr e ↦ rw e (same_life j _ refl refl)
]

ageing_loop : (now : ℕ) → RowLaws now Aged
ageing_loop now = record {
  same_row = λ j. same_life j _ refl refl;
  chain = λ i j k p q. record {
    same_job = q.same_job ∙ p.same_job;
    lives = Lives-trans p.lives q.lives;
  };
  keeps_id = λ j k p. p.same_job;
  expires = λ j h _. one j _ refl (Move.end (life_of j) failed h refl);
  repools = λ j _. repooled-Aged j;
}

ageing_place : (now : ℕ) → PlaceChanges now Aged
ageing_place now =
    let laws = ageing_loop now in
    record {
      same_row = laws.same_row;
      chain = laws.chain;
      keeps_id = laws.keeps_id;
      promote_row = λ r j h.
          one j _ refl
            (Move.allow (life_of j) (max j.max_attempts r.max_attempts) h (ground arith));
      replace_row = λ r p added j h. replace_payload-Aged r p added now j;
      move_row = λ pool j h. move_pool-Aged pool now j;
    }

ageing_changes : (now : ℕ) → RowChanges now Aged
ageing_changes now = record {
  loop = ageing_loop now;
  place = ageing_place now;
  finish_row = λ s code message j t h. finish_job-Aged s code message now j t h;
  retry_row = λ at code message j h. retry_job-Aged at code message now j h;
  release_row = λ reason j h. one j _ refl (Move.give_back (life_of j) h);
  defer_row = λ at code message j h. one j _ refl (Move.put_off (life_of j) h);
  cancel_row = λ reason job_id j h. one j _ refl (Move.drop (life_of j) (both _ _ h).1);
  beat_row = λ lease_for job_id owner j h. same_life j _ refl refl;
  progress_row = λ r j h. same_life j _ refl refl;
  reroute_row = λ r j h. one j _ refl (Move.hold (life_of j) (rw h refl));
  redirect_row = λ r job_id j h. one j _ refl (
      Move.hold (life_of j)
        (ground (arith, state_beq_iff j.status queued, state_beq_iff j.status retry_wait)));
  resume_row = λ j h. same_life j _ refl refl;
  retry_now_row = λ j h. one j _ refl (Move.wake (life_of j) h);
}

ageing_lease : LeaseRow Aged
ageing_lease owner until now c e l =
    one c (lease_job owner until now c) refl (Move.start (life_of c) l.0 l.1)

-- The jobs of one table, later: the old rows further on in their lives, below those of new jobs.
pub data Follows (js : List WorkJob) : List WorkJob → Type 0 where
  ages : {ks : List WorkJob} → Pointwise Aged js ks → Follows js ks
  joins :
      (n : ℕ) (k : WorkJob) {ks : List WorkJob}
      → Lives (born n) (life_of k)
      → Follows js ks
      → Follows js (k ∷ ks)

Follows-ages : (js ks ls : List WorkJob) → Follows js ks → Pointwise Aged ks ls → Follows js ls
Follows-ages js ks ls (ages p) q = ages (Pointwise-trans Aged _ _ _ (ageing_loop 0).chain p q)
Follows-ages js _ [] (joins n k l f) q = elim q [ ]
Follows-ages js _ (m ∷ ls) (joins n k l f) q =
    joins n m (Lives-trans l q.0.lives) (Follows-ages js _ ls f q.1)

first_life :
    (k : WorkJob) → k.status ≡ queued → k.attempts ≡ 0 → Lives (born k.max_attempts) (life_of k)
first_life k fresh unmade = rw (fresh, unmade) here

Extends-Follows :
    (js : List WorkJob) (db db' : Db)
    → Follows js db.jobs
    → Extends Aged db db'
    → Follows js db'.jobs
Extends-Follows js db db' f (evolves p next) = Follows-ages js db.jobs db'.jobs f p
Extends-Follows js db db' f (inserts k jobs next id v fresh unmade free) =
    subst (Follows js) (sym jobs) (joins k.max_attempts k (first_life k fresh unmade) f)

run-extends :
    (js : List WorkJob) (db : Db) (cs : List Call)
    → IsWellFormed db
    → Follows js db.jobs
    → Follows js (run db cs).jobs
unfolding run
run-extends js db [] w f = f
run-extends js db (c ∷ cs) w f = run-extends js (step db c) cs (step-IsWellFormed db c w) (
    Extends-Follows js db (step db c) f
      (step-Extends Aged db c (ageing_changes (time_of c)) ageing_lease w.ids))

-- Over any history of calls from a well-formed database, the job table refines the abstract life of
-- a job (started, ended, put back, given back, postponed, woken, dropped, or allowed more attempts):
-- each row is the row with that id of the old table, some such steps later, or it stands before
-- them and is some such steps after a new job, which waits and has made no attempt.
pub run-Follows : (db : Db) (cs : List Call) → IsWellFormed db → Follows db.jobs (run db cs).jobs
run-Follows db cs w =
    run-extends db.jobs db cs w (ages (Pointwise-refl Aged db.jobs (ageing_loop 0).same_row))
