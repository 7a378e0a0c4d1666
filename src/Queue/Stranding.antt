-- ===== src/Queue/Stranding.antt =====
-- manga_manager/infrastructure/job_queue.py: a job that is put back after its last attempt.
use manga_manager.Queue.Frames.{frames}
use manga_manager.Queue.Leases.{succeed, finish_job, finish}
use manga_manager.Prelude.{
  ℕ, ◌≡◌, true, List, [], ◌∷◌, ◌≤◌, ◌<◌, ◌⊎◌, In, Text, some, ◌||◌, ◌==◌, refl, inl, inr, arith,
  ◌∙◌, update_where, Pointwise-In, Option-cases, find, find-none, txt, In-changed,
}
use manga_manager.Domain.Jobs.{JobState, cancelled, JobPayload, state_eq, succeeded}
use manga_manager.Queue.Rows.{WorkJob, Db}
use manga_manager.Queue.Store.{held_by}
use manga_manager.Queue.Waiting.{is_waiting}
use manga_manager.Queue.Changes.{RowChanges, PlaceChanges}
use manga_manager.Queue.ClaimLoop.{RowLaws}
use manga_manager.Queue.ClaimChanges.{LeaseRow}
use manga_manager.Queue.WellFormed.{IsWellFormed, step-IsWellFormed}
use manga_manager.Queue.Operations.{Call, run, step, time_of}
use manga_manager.Queue.EnqueueChanges.{Extends, evolves, inserts}
use manga_manager.Queue.Leases.{finish, finish_job, put_back, succeed}
use manga_manager.Queue.Steps.{step-Extends}

-- More attempts than `m` are allowed, or the job waits or is cancelled, and `m` attempts were made.
abbrev pub Stranded : ℕ → WorkJob → Type 0
Stranded m k =
    (m < k.max_attempts)
    ⊎ (((is_waiting k.status || k.status == cancelled) ≡ true)
        × (m ≤ k.attempts)
        × (k.max_attempts ≤ m))

-- One job, still stranded if it was.
record Stays (m : ℕ) (j k : WorkJob) : Type 0 where
  same_job : k.id ≡ j.id
  stranded : Stranded m j → Stranded m k

stranding_loop : (m now : ℕ) → RowLaws now (Stays m)
stranding_loop m now = record {
  same_row = λ j. record { same_job = refl; stranded = λ s. s };
  chain = λ i j k p q. record {
    same_job = q.same_job ∙ p.same_job;
    stranded = λ s. q.stranded (p.stranded s);
  };
  keeps_id = λ j k p. p.same_job;
  expires = λ j h _. ground arith;
  repools = λ j _. ground arith;
}

stranding_place : (m now : ℕ) → PlaceChanges now (Stays m)
stranding_place m now =
    let laws = stranding_loop m now in
    record {
      same_row = laws.same_row;
      chain = laws.chain;
      keeps_id = laws.keeps_id;
      promote_row = λ r j h. ground arith;
      replace_row = λ r p added j h. ground arith;
      move_row = λ pool j h. ground arith;
    }

stranding_changes : (m now : ℕ) → RowChanges now (Stays m)
stranding_changes m now = record {
  loop = stranding_loop m now;
  place = stranding_place m now;
  finish_row = λ s code message j t h. ground arith;
  retry_row = λ at code message j h. ground arith;
  release_row = λ reason j h. ground arith;
  defer_row = λ at code message j h. ground arith;
  cancel_row = λ reason job_id j h. ground arith;
  beat_row = λ lease_for job_id owner j h. ground arith;
  progress_row = λ r j h. ground arith;
  reroute_row = λ r j h. ground arith;
  redirect_row = λ r job_id j h. ground arith;
  resume_row = λ j h. ground arith;
  retry_now_row = λ j h. ground arith;
}

stranding_lease : (m : ℕ) → LeaseRow (Stays m)
stranding_lease m owner until now c e l = ground arith

Extends-Stays :
    (m : ℕ) (db db' : Db) (j : WorkJob)
    → Extends (Stays m) db db'
    → In j db.jobs
    → Stranded m j
    → (k : WorkJob) × In k db'.jobs × (k.id ≡ j.id) × Stranded m k
Extends-Stays m db db' j (evolves p next) i s =
    let (k, there, r) = Pointwise-In (Stays m) db.jobs db'.jobs j p i in
    (k, there, r.same_job, r.stranded s)
Extends-Stays m db db' j (inserts k jobs next id v fresh unmade free) i s =
    (j, rw jobs (inr i), refl, s)

-- Over any history from a well-formed database, a row on which `m` attempts were made, all that it
-- allows, and which waits or is cancelled, is never leased and never ends in another way unless
-- more than `m` attempts are allowed on it.
pub run-Stranded :
    (m : ℕ) (db : Db) (cs : List Call) (j : WorkJob)
    → IsWellFormed db
    → In j db.jobs
    → Stranded m j
    → (k : WorkJob) × In k (run db cs).jobs × (k.id ≡ j.id) × Stranded m k
unfolding run
run-Stranded m db [] j w i s = (j, i, refl, s)
run-Stranded m db (c ∷ cs) j w i s =
    let (k, there, same, s') =
      Extends-Stays m db (step db c) j
        (step-Extends (Stays m) db c (stranding_changes m (time_of c)) (stranding_lease m) w.ids) i
        s in
    let (l, there', same', s'') =
      run-Stranded m (step db c) cs k (step-IsWellFormed db c w) there s' in
    (l, there', same' ∙ same, s'')

jobs-finish :
    (db : Db) (job_id : ℕ) (owner : Text) (s : JobState) (event code message : Text) (now : ℕ)
    (j : WorkJob)
    → find (held_by job_id owner now) db.jobs ≡ some j
    → (finish db job_id owner s event code message now).0.jobs
      ≡ update_where (held_by job_id owner now) (finish_job s code message now) db.jobs
unfolding finish
jobs-finish db job_id owner s event code message now j e =
    elim (Option-cases (put_back s j.pending_payload)) [
      | inl q ↦ rw (e, finish, q) (simp frames refl)
      | inr (p, q) ↦ rw (e, finish, q) (simp frames refl)
    ]

id-finish_job : (now : ℕ) (j : WorkJob) → (finish_job succeeded [] [] now j).id ≡ j.id
id-finish_job now j = ground arith

put_back-Stranded :
    (now : ℕ) (j : WorkJob) (p : JobPayload)
    → j.pending_payload ≡ some p
    → j.attempts ≡ j.max_attempts
    → Stranded j.max_attempts (finish_job succeeded [] [] now j)
put_back-Stranded now j p e h = ground arith

-- A job that succeeds on its last attempt while a newer observation is pending is put back with
-- that observation, and then no call starts it: over any history of calls after the success, from a
-- well-formed database, it waits or is cancelled, unless more attempts are allowed on it.
pub succeed-Stranded :
    (db : Db) (cs : List Call) (j : WorkJob) (p : JobPayload) (owner : Text) (now : ℕ)
    → IsWellFormed db
    → In j db.jobs
    → held_by j.id owner now j ≡ true
    → j.pending_payload ≡ some p
    → j.attempts ≡ j.max_attempts
    → (k : WorkJob) × In k (run db (Call.succeed j.id owner now ∷ cs)).jobs
      × (k.id ≡ j.id)
      × Stranded j.max_attempts k
unfolding run step succeed
succeed-Stranded db cs j p owner now w i h e a =
    elim (Option-cases (find (held_by j.id owner now) db.jobs)) [
      | inl none_held ↦ absurd (let bad = find-none _ db.jobs j none_held i in cc)
      | inr (held, found) ↦
          let back : In (finish_job succeeded [] [] now j)
              (step db (Call.succeed j.id owner now)).jobs =
            rw (jobs-finish db j.id owner succeeded (txt "succeeded") [] [] now held found) (
              In-changed (held_by j.id owner now) (finish_job succeeded [] [] now) j db.jobs i h) in
          let (k, there, same, s) =
            run-Stranded j.max_attempts (step db (Call.succeed j.id owner now)) cs
              (finish_job succeeded [] [] now j)
              (step-IsWellFormed db (Call.succeed j.id owner now) w) back
              (put_back-Stranded now j p e a) in
          (k, there, same ∙ id-finish_job now j, s)
    ]
