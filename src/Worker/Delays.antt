-- ===== src/Worker/Delays.antt =====
-- manga_manager/worker/runtime.py: how long a failed attempt waits, and the timeouts of an idle worker.
use manga_manager.Queue.Frames.{frames}
use manga_manager.Prelude.{
  ◌≡◌, ◌≤◌, ℕ, ◌+◌, ◌-◌, ◌*◌, ◌/◌, ◌^◌, min, refl, true, false, List, none, In, Text, arith, find,
  In-changed, Bool, All, ◌∷◌, [], some,
}
use native.Mathlib.Nat.{mul-le-mul, pow-le-pow_right, one-le-pow, le-mul_of_pos_right}
use manga_manager.Domain.Jobs.{retry_wait}
use manga_manager.Queue.Rows.{WorkJob, Db}
use manga_manager.Queue.Store.{held_by}
use manga_manager.Queue.Returns
use manga_manager.Queue.Returns.{is_final, retry_job}
use manga_manager.Queue.Claim.{JobLease}
use manga_manager.Queue.WellFormed.{IsWellFormed}
use manga_manager.Worker.Handlers.{retryable_error}
use manga_manager.Worker.Runtime.{
  worked, timed_out, woken, stopped, JobWorker, WorkerSettings, are_valid, conclude, retry_lease,
  retry_delay, timeouts_of, Round,
}
use manga_manager.Worker.Verdict.{held_found}

-- `random.uniform(0.8, 1.2)`
abbrev pub IsJitter : ℕ → Type 0
IsJitter jitter = (800 ≤ jitter) × (jitter ≤ 1200)

bases : (s : WorkerSettings) → are_valid s ≡ true → s.retry_base ≤ s.retry_cap
bases s v = ground arith

-- The delay lies between the base and the cap, give or take the jitter.
delay_bounds :
    (s : WorkerSettings) (jitter attempt : ℕ)
    → are_valid s ≡ true
    → IsJitter jitter
    → (s.retry_base * 800 / 1000 ≤ retry_delay s jitter attempt)
      × (retry_delay s jitter attempt ≤ s.retry_cap * 1200 / 1000)
delay_bounds s jitter attempt v h =
    let ordered = bases s v in
    let grown = le-mul_of_pos_right s.retry_base (one-le-pow (attempt - 1) 2 (omega arith)) in
    let capped = min (s.retry_base * 2 ^ (attempt - 1)) s.retry_cap in
    let at_least : s.retry_base ≤ capped = omega arith in
    let at_most : capped ≤ s.retry_cap = omega arith in
    let low = mul-le-mul at_least h.0 in
    let high = mul-le-mul at_most h.1 in (omega arith, omega arith)

-- A later attempt does not wait less, under the same jitter.
delay_mono :
    (s : WorkerSettings) (jitter a b : ℕ) → a ≤ b → retry_delay s jitter a ≤ retry_delay s jitter b
delay_mono s jitter a b h =
    let powers : 2 ^ (a - 1) ≤ 2 ^ (b - 1) = pow-le-pow_right (omega arith) (omega arith) in
    let grown = mul-le-mul (let same : s.retry_base ≤ s.retry_base = omega arith in same) powers in
    let capped : min (s.retry_base * 2 ^ (a - 1)) s.retry_cap
        ≤ min (s.retry_base * 2 ^ (b - 1)) s.retry_cap =
      omega arith in
    let jittered = mul-le-mul capped (let same : jitter ≤ jitter = omega arith in same) in
    omega arith

-- A retryable failure without a delay of its own, of an attempt that is not the last, by a worker
-- that holds the lease, in a well-formed database and under valid settings: the job waits for its
-- next attempt at least the base delay and at most the cap, give or take the jitter of a fifth.
pub retry_backoff :
    (w : JobWorker) (lease : JobLease) (code message : Text) (jitter now : ℕ) (lost : Bool)
    (db : Db) (j : WorkJob)
    → IsWellFormed db
    → In j db.jobs
    → lease.id ≡ j.id
    → held_by j.id lease.owner now j ≡ true
    → is_final j ≡ false
    → are_valid w.settings ≡ true
    → IsJitter jitter
    → (k : WorkJob) × In k
        (conclude w lease (retryable_error code message none) jitter now lost db).0.jobs
      × (k.id ≡ j.id)
      × (k.status ≡ retry_wait)
      × (now + w.settings.retry_base * 800 / 1000 ≤ k.available_at)
      × (k.available_at ≤ now + w.settings.retry_cap * 1200 / 1000)
unfolding conclude retry_lease Returns.retry
retry_backoff w lease code message jitter now lost db j wf m same h more v t =
    let delay = retry_delay w.settings jitter lease.attempt in
    let bounds = delay_bounds w.settings jitter lease.attempt v t in
    let held : held_by lease.id lease.owner now j ≡ true = rw same h in
    let found : find (held_by lease.id lease.owner now) db.jobs ≡ some j =
      rw same (held_found db j lease.owner now wf m h) in
    let row = retry_job (now + delay) code message now j in
    let changed =
      In-changed (held_by lease.id lease.owner now) (retry_job (now + delay) code message now) j
        db.jobs m held in
    (
      row,
      rw (found, Returns.retry, more) (simp frames (rw more at changed)),
      refl,
      rw more refl,
      omega (arith, bounds.0),
      omega (arith, bounds.1),
    )

-- From a first timeout within these bounds on, every timeout that an idle worker sets for a wait is
-- at least the poll interval and at most four of them.
pub timeouts_of_bounds :
    (base delay : ℕ) (rs : List Round)
    → base ≤ delay
    → delay ≤ base * 4
    → All (λ d. (base ≤ d) × (d ≤ base * 4)) (timeouts_of base delay rs)
unfolding timeouts_of
timeouts_of_bounds base delay [] low high = tt
timeouts_of_bounds base delay (worked ∷ rs) low high =
    timeouts_of_bounds base base rs (omega arith) (omega arith)
timeouts_of_bounds base delay (timed_out ∷ rs) low high = (
  (low, high),
  timeouts_of_bounds base (min (base * 4) (delay * 3 / 2)) rs (omega arith) (omega arith),
)
timeouts_of_bounds base delay (woken ∷ rs) low high = (
  (low, high),
  timeouts_of_bounds base (min (base * 4) (base * 3 / 2)) rs (omega arith) (omega arith),
)
timeouts_of_bounds base delay (stopped ∷ rs) low high = ((low, high), tt)
