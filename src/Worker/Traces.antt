-- ===== src/Worker/Traces.antt =====
-- manga_manager/worker/runtime.py: a turn of a worker is a history of calls on the queue.
use manga_manager.Prelude.{
  ◌≡◌, ℕ, refl, inl, inr, Bool, true, false, List, [], ◌∷◌, ◌++◌, Option, none, some, ◌+◌,
  Bool-cases, if◌then◌else◌, txt, Text, sym, not, ◌∙◌, ap,
}
use manga_manager.Queue.Rows.{Db}
use manga_manager.Queue.Store.{Result, ok, raise, after}
use manga_manager.Queue.Leases
use manga_manager.Queue.Claim
use manga_manager.Queue.Claim.{JobLease, ClaimRequest}
use manga_manager.Queue.Operations.{Call, step, run}
use manga_manager.Domain.Jobs.{kind_value}
use manga_manager.Worker.Handlers.{
  HandlerOutcome, returned, deferred_error, retryable_error, rerouted_error, permanent_error,
  lease_lost_error, cancelled_error, unexpected_error, exception_message,
}
use manga_manager.Worker.Runtime.{
  JobWorker, WorkerSettings, TurnEvent, beat, called, run_events, Turn, run_once, work, conclude,
  retry_lease, fail_lease, or_delay, retry_delay, claim_request_of, after_claim, after_beat,
}

-- A heartbeat, and whether it extended the lease.
abbrev extended : Result (Db × Bool) → Bool
extended (ok r) = r.1
extended (raise e) = false

-- The calls made while the handler runs.
event_calls : WorkerSettings → JobLease → List TurnEvent → Db → Bool → List Call
event_calls s lease [] db lost = []
event_calls s lease (called c ∷ es) db lost = c ∷ event_calls s lease es (step db c) lost
event_calls s lease (beat now ∷ es) db true = event_calls s lease es db true
event_calls s lease (beat now ∷ es) db false =
    let c = Call.heartbeat lease.id lease.owner s.lease_for now in
    c
    ∷ event_calls s lease es (step db c)
        (not (extended (Leases.heartbeat db lease.id lease.owner s.lease_for now)))

-- The call that ends the turn.
abbrev retry_call : JobWorker → JobLease → Text → Text → Option ℕ → ℕ → ℕ → Call
retry_call w lease code message retry_after jitter now =
    Call.retry lease.id lease.owner
      (now + or_delay retry_after (retry_delay w.settings jitter lease.attempt)) code message now

abbrev last_calls : JobWorker → JobLease → HandlerOutcome → ℕ → ℕ → Bool → List Call
last_calls w lease (deferred_error code message retry_after) jitter now lost =
    Call.defer lease.id lease.owner (now + retry_after) code message now ∷ []
last_calls w lease (retryable_error code message retry_after) jitter now lost =
    retry_call w lease code message retry_after jitter now ∷ []
last_calls w lease rerouted_error jitter now lost = []
last_calls w lease (permanent_error code message) jitter now lost =
    Call.fail lease.id lease.owner code message now ∷ []
last_calls w lease lease_lost_error jitter now lost = []
last_calls w lease cancelled_error jitter now lost =
    Call.release lease.id lease.owner (txt "worker shutting down") now ∷ []
last_calls w lease (unexpected_error e) jitter now lost =
    retry_call w lease (txt "unexpected_error") (exception_message e) none jitter now ∷ []
last_calls w lease returned jitter now true = []
last_calls w lease returned jitter now false = Call.succeed lease.id lease.owner now ∷ []

-- A heartbeat, over any rest of the events that agrees with its calls.
after_beat-run :
    (next : Db → Bool → Db × Bool) (cs : Db → Bool → List Call) (db : Db) (r : Result (Db × Bool))
    → ((d : Db) (lost : Bool) → (next d lost).0 ≡ run d (cs d lost))
    → (after_beat next db r).0 ≡ run (after db r) (cs (after db r) (not (extended r)))
after_beat-run next cs db (ok (d, true)) ih = ih d false
after_beat-run next cs db (ok (d, false)) ih = ih d true
after_beat-run next cs db (raise x) ih = ih db true

run_events-run :
    (s : WorkerSettings) (lease : JobLease) (es : List TurnEvent) (db : Db) (lost : Bool)
    → (run_events s lease es db lost).0 ≡ run db (event_calls s lease es db lost)
unfolding run_events event_calls run step
run_events-run s lease [] db lost = refl
run_events-run s lease (called c ∷ es) db lost = run_events-run s lease es (step db c) lost
run_events-run s lease (beat now ∷ es) db true = run_events-run s lease es db true
run_events-run s lease (beat now ∷ es) db false =
    after_beat-run (run_events s lease es) (event_calls s lease es) db
      (Leases.heartbeat db lease.id lease.owner s.lease_for now)
      (λ d lost. run_events-run s lease es d lost)

conclude-run :
    (w : JobWorker) (lease : JobLease) (o : HandlerOutcome) (jitter now : ℕ) (lost : Bool) (db : Db)
    → (conclude w lease o jitter now lost db).0 ≡ run db (last_calls w lease o jitter now lost)
unfolding conclude run step retry_lease fail_lease
conclude-run w lease (deferred_error code message retry_after) jitter now lost db = refl
conclude-run w lease (retryable_error code message retry_after) jitter now lost db = refl
conclude-run w lease rerouted_error jitter now lost db = refl
conclude-run w lease (permanent_error code message) jitter now lost db = refl
conclude-run w lease lease_lost_error jitter now lost db = refl
conclude-run w lease cancelled_error jitter now lost db = refl
conclude-run w lease (unexpected_error e) jitter now lost db = refl
conclude-run w lease returned jitter now true db = refl
conclude-run w lease returned jitter now false db = refl

run-append : (db : Db) (cs ds : List Call) → run db (cs ++ ds) ≡ run (run db cs) ds
unfolding run
run-append db [] ds = refl
run-append db (c ∷ cs) ds = run-append (step db c) cs ds

-- The calls of a turn with a lease, and of a turn.
work_calls : JobWorker → Turn → JobLease → Db → List Call
work_calls w t lease db =
    if w.handles lease.kind
    then event_calls w.settings lease t.events db false
      ++ last_calls w lease t.outcome t.jitter t.ended_at
          (run_events w.settings lease t.events db false).1
    else Call.fail lease.id lease.owner (txt "handler_missing")
        (txt "no handler registered for " ++ kind_value lease.kind) t.ended_at
      ∷ []

leased_calls : JobWorker → Turn → Result (Db × Option JobLease) → List Call
leased_calls w t (raise e) = []
leased_calls w t (ok (db, none)) = []
leased_calls w t (ok (db, some lease)) = work_calls w t lease db

pub turn_calls : JobWorker → Turn → Db → List Call
turn_calls w t db =
    let r = claim_request_of w t.claimed_at in Call.claim r ∷ leased_calls w t (Claim.claim db r)

work-run :
    (w : JobWorker) (t : Turn) (lease : JobLease) (db : Db)
    → (work w t lease db).0 ≡ run db (work_calls w t lease db)
unfolding work work_calls
work-run w t lease db =
    let st = run_events w.settings lease t.events db false in
    let cs = last_calls w lease t.outcome t.jitter t.ended_at st.1 in
    elim (Bool-cases (w.handles lease.kind)) [
      | inl e ↦ rw e (
          conclude-run w lease t.outcome t.jitter t.ended_at st.1 st.0
          ∙ ap (λ d. run d cs) (run_events-run w.settings lease t.events db false)
          ∙ sym (run-append db (event_calls w.settings lease t.events db false) cs))
      | inr e ↦ rw e (unfold fail_lease run step in refl)
    ]

run-claim :
    (db : Db) (r : ClaimRequest) (a : Result (Db × Option JobLease)) (cs : List Call)
    → Claim.claim db r ≡ a
    → run db (Call.claim r ∷ cs) ≡ run (after db a) cs
unfolding run step
run-claim db r a cs e = ap (λ x. run (after db x) cs) e

-- What the answer to the claim leads to.
after_claim-run :
    (w : JobWorker) (t : Turn) (db : Db) (a : Result (Db × Option JobLease))
    → (after_claim w t db a).0 ≡ run (after db a) (leased_calls w t a)
unfolding leased_calls run
after_claim-run w t db (raise x) = refl
after_claim-run w t db (ok (d, none)) = refl
after_claim-run w t db (ok (d, some lease)) = work-run w t lease d

-- A turn of a worker leaves the database that its calls leave one after the other: its claim, what
-- is called while the handler runs, its heartbeats until one fails, and the call that the end of
-- the handler asks for.
pub run_once-run :
    (w : JobWorker) (t : Turn) (db : Db) → (run_once w t db).0 ≡ run db (turn_calls w t db)
unfolding run_once turn_calls
run_once-run w t db =
    let r = claim_request_of w t.claimed_at in
    after_claim-run w t db (Claim.claim db r)
    ∙ sym (run-claim db r (Claim.claim db r) (leased_calls w t (Claim.claim db r)) refl)
