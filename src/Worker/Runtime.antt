-- ===== src/Worker/Runtime.antt =====
-- manga_manager/worker/runtime.py: `JobWorker`. Its transactions run one after another; what happens
-- to the database while the handler runs is a list of events, each a heartbeat of this worker or a
-- call of anyone, and how the handler ends is an argument. Times are microseconds, and the random
-- factor of a delay is counted in thousandths.
use manga_manager.Prelude.{
  ℕ, zero, suc, ◌+◌, ◌-◌, ◌*◌, ◌/◌, ◌^◌, min, Bool, true, false, ◌&&◌, List, [], ◌∷◌, Option, none,
  some, Text, txt, leb, ltb, if◌then◌else◌, ◌++◌,
}
use manga_manager.Domain.Jobs.{JobKind, JobState, queued, leased, retry_wait, cancelled, kind_value}
use manga_manager.Queue.Rows.{Db}
use manga_manager.Queue.Store.{Error, Result, ok, raise}
use manga_manager.Queue.Limits.{Limits}
use manga_manager.Queue.Leases
use manga_manager.Queue.Returns
use manga_manager.Queue.Claim
use manga_manager.Queue.Claim.{ClaimRequest, JobLease}
use manga_manager.Queue.Operations.{Call, step}
use manga_manager.Worker.Handlers.{
  HandlerOutcome, returned, deferred_error, retryable_error, rerouted_error, permanent_error,
  lease_lost_error, cancelled_error, unexpected_error, exception_message,
}

pub data WorkerRunResult : Type 0 where
  idle succeeded retry_scheduled failed lease_lost : WorkerRunResult

pub record WorkerSettings : Type 0 where
  pub lease_for : ℕ
  pub heartbeat_interval : ℕ
  pub poll_interval : ℕ
  pub retry_base : ℕ
  pub retry_cap : ℕ
  pub pool_limits : Limits
  pub pacing_window : ℕ

-- `__post_init__` raises nothing.
abbrev pub are_valid : WorkerSettings → Bool
are_valid s =
    ltb 0 s.lease_for
    && ltb 0 s.heartbeat_interval
    && ltb s.heartbeat_interval s.lease_for
    && ltb 0 s.poll_interval
    && ltb 0 s.retry_base
    && leb s.retry_base s.retry_cap
    && ltb 0 s.pacing_window

pub record JobWorker : Type 0 where
  pub owner : Text
  pub handles : JobKind → Bool
  pub settings : WorkerSettings
  pub claim_kinds : Option (List JobKind)
  pub claim_pools : Option (List Text)

-- `_retry_delay`
abbrev pub retry_delay : WorkerSettings → ℕ → ℕ → ℕ
retry_delay s jitter attempt = min (s.retry_base * 2 ^ (attempt - 1)) s.retry_cap * jitter / 1000

-- `retry_after or self._retry_delay(...)`: a delay of zero is replaced as well.
abbrev pub or_delay : Option ℕ → ℕ → ℕ
or_delay none delay = delay
or_delay (some zero) delay = delay
or_delay (some (suc n)) delay = suc n

-- The request of `_claim`.
abbrev pub claim_request_of : JobWorker → ℕ → ClaimRequest
claim_request_of w now = record {
  owner = w.owner;
  lease_for = w.settings.lease_for;
  now = now;
  kinds = w.claim_kinds;
  limits = w.settings.pool_limits;
  pacing_window = w.settings.pacing_window;
  pools = w.claim_pools;
}

-- While the handler runs: this worker's heartbeat, or a call of anyone.
pub data TurnEvent : Type 0 where
  beat : ℕ → TurnEvent
  called : Call → TurnEvent

-- After a heartbeat: `next` is the rest of the events, and the flag is `lease_lost`. A heartbeat
-- raises only under settings that `are_valid` refuses.
abbrev pub after_beat : (Db → Bool → Db × Bool) → Db → Result (Db × Bool) → Db × Bool
after_beat next db (ok (d, true)) = next d false
after_beat next db (ok (d, false)) = next d true
after_beat next db (raise e) = next db true

-- The heartbeats of `_heartbeat_loop` stop at the first that does not extend the lease.
unfoldable pub run_events : WorkerSettings → JobLease → List TurnEvent → Db → Bool → Db × Bool
run_events s lease [] db lost = (db, lost)
run_events s lease (called c ∷ es) db lost = run_events s lease es (step db c) lost
run_events s lease (beat now ∷ es) db true = run_events s lease es db true
run_events s lease (beat now ∷ es) db false =
    after_beat (run_events s lease es) db (Leases.heartbeat db lease.id lease.owner s.lease_for now)

-- How `run_once` ends: with a result, or by passing on a cancellation or the exception of a claim.
pub data Ending : Type 0 where
  result : WorkerRunResult → Ending
  shut_down : Ending
  crashed : Error → Ending

abbrev lost_unless : WorkerRunResult → Bool → Ending
lost_unless r true = result r
lost_unless r false = result lease_lost

abbrev pub retried : Option JobState → Ending
retried none = result lease_lost
retried (some JobState.failed) = result WorkerRunResult.failed
retried (some queued) = result retry_scheduled
retried (some leased) = result retry_scheduled
retried (some retry_wait) = result retry_scheduled
retried (some JobState.succeeded) = result retry_scheduled
retried (some cancelled) = result retry_scheduled

-- `_fail`
unfoldable pub fail_lease : JobLease → Text → Text → ℕ → Db → Db × Ending
fail_lease lease code message now db =
    let r = Leases.fail db lease.id lease.owner code message now in
    (r.0, lost_unless WorkerRunResult.failed r.1)

-- `_retry`
unfoldable pub retry_lease :
    JobWorker → JobLease → Text → Text → Option ℕ → ℕ → ℕ → Db → Db × Ending
retry_lease w lease code message retry_after jitter now db =
    let delay = or_delay retry_after (retry_delay w.settings jitter lease.attempt) in
    let r = Returns.retry db lease.id lease.owner (now + delay) code message now in
    (r.0, retried r.1)

-- The branches of `run_once` after the handler; the last argument but one is `lease_lost`.
unfoldable pub conclude : JobWorker → JobLease → HandlerOutcome → ℕ → ℕ → Bool → Db → Db × Ending
conclude w lease (deferred_error code message retry_after) jitter now lost db =
    let r = Returns.defer db lease.id lease.owner (now + retry_after) code message now in
    (r.0, lost_unless retry_scheduled r.1)
conclude w lease (retryable_error code message retry_after) jitter now lost db =
    retry_lease w lease code message retry_after jitter now db
conclude w lease rerouted_error jitter now lost db = (db, result retry_scheduled)
conclude w lease (permanent_error code message) jitter now lost db =
    fail_lease lease code message now db
conclude w lease lease_lost_error jitter now lost db = (db, result lease_lost)
conclude w lease cancelled_error jitter now lost db =
    ((Returns.release db lease.id lease.owner (txt "worker shutting down") now).0, shut_down)
conclude w lease (unexpected_error e) jitter now lost db =
    retry_lease w lease (txt "unexpected_error") (exception_message e) none jitter now db
conclude w lease returned jitter now true db = (db, result lease_lost)
conclude w lease returned jitter now false db =
    let r = Leases.succeed db lease.id lease.owner now in
    (r.0, lost_unless WorkerRunResult.succeeded r.1)

-- What the surroundings of one `run_once` decide.
pub record Turn : Type 0 where
  pub claimed_at : ℕ
  pub events : List TurnEvent
  pub outcome : HandlerOutcome
  pub jitter : ℕ
  pub ended_at : ℕ

unfoldable pub work : JobWorker → Turn → JobLease → Db → Db × Ending
work w t lease db =
    let st = run_events w.settings lease t.events db false in
    if w.handles lease.kind
    then conclude w lease t.outcome t.jitter t.ended_at st.1 st.0
    else fail_lease lease (txt "handler_missing")
        (txt "no handler registered for " ++ kind_value lease.kind) t.ended_at db

-- `run_once`, after the answer to its claim.
abbrev pub after_claim : JobWorker → Turn → Db → Result (Db × Option JobLease) → Db × Ending
after_claim w t db (raise e) = (db, crashed e)
after_claim w t db (ok (d, none)) = (d, result idle)
after_claim w t db (ok (d, some lease)) = work w t lease d

unfoldable pub run_once : JobWorker → Turn → Db → Db × Ending
run_once w t db = after_claim w t db (Claim.claim db (claim_request_of w t.claimed_at))

-- One round of `run_forever`: a turn that found work, or a wait that ended by itself, by a wake-up
-- or by the stop.
pub data Round : Type 0 where
  worked timed_out woken stopped : Round

-- `idle_delay` after a round; a wake-up sets it back before it grows.
abbrev pub next_delay : ℕ → ℕ → Round → ℕ
next_delay base delay worked = base
next_delay base delay timed_out = min (base * 4) (delay * 3 / 2)
next_delay base delay woken = min (base * 4) (base * 3 / 2)
next_delay base delay stopped = delay

-- The timeout of the wait in each round of `run_forever` that found no work, until it is stopped. A
-- wake-up or the stop ends a wait before its timeout.
unfoldable pub timeouts_of : ℕ → ℕ → List Round → List ℕ
timeouts_of base delay [] = []
timeouts_of base delay (worked ∷ rs) = timeouts_of base (next_delay base delay worked) rs
timeouts_of base delay (timed_out ∷ rs) =
    delay ∷ timeouts_of base (next_delay base delay timed_out) rs
timeouts_of base delay (woken ∷ rs) = delay ∷ timeouts_of base (next_delay base delay woken) rs
timeouts_of base delay (stopped ∷ rs) = delay ∷ []
