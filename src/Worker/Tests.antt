-- ===== src/Worker/Tests.antt =====
-- Runs of a worker.
use manga_manager.Prelude.{
  ◌≡◌, ◌≤◌, ◌+◌, ◌*◌, ◌/◌, refl, true, false, [], ◌∷◌, none, txt, In, inl, arith, All,
}
use manga_manager.Domain.Jobs.{retry_wait}
use manga_manager.Queue.Rows.{WorkJob, Db}
use manga_manager.Queue.Claim.{JobLease, lease_of}
use manga_manager.Queue.Operations.{Call, run}
use manga_manager.Queue.Fixtures.{program, empty_db, download_request, leased_job, first_row}
use manga_manager.Queue.Tests.{leased_job-IsWellFormed}
use manga_manager.Worker.Handlers.{returned, retryable_error}
use manga_manager.Worker.Runtime.{
  JobWorker, Turn, beat, run_once, run_events, work, conclude, result, WorkerRunResult, timeouts_of,
  Round,
}
use manga_manager.Worker.Traces.{turn_calls, run_once-run}
use manga_manager.Worker.Verdict.{Told, conclude-Told, answer_of, conclude_held}
use manga_manager.Worker.Delays.{retry_backoff, timeouts_of_bounds}

abbrev worker : JobWorker
worker = record {
  owner = txt "worker-1";
  handles = λ kind. true;
  settings = record {
    lease_for = 60;
    heartbeat_interval = 20;
    poll_interval = 10;
    retry_base = 30;
    retry_cap = 3600;
    pool_limits = [];
    pacing_window = 2000000;
  };
  claim_kinds = none;
  claim_pools = none;
}

abbrev turn : Turn
turn = record {
  claimed_at = 2000;
  events = beat 2020 ∷ beat 2040 ∷ [];
  outcome = returned;
  jitter = 1000;
  ended_at = 2050;
}

unfoldable waiting_job : Db
unfolding program
waiting_job = run empty_db (Call.enqueue download_request 1000 ∷ [])

turn_succeeds : (run_once worker turn waiting_job).1 ≡ result WorkerRunResult.succeeded
unfolding waiting_job run_once work run_events conclude
turn_succeeds = refl

run_once-run_example :
    (run_once worker turn waiting_job).0 ≡ run waiting_job (turn_calls worker turn waiting_job)
run_once-run_example = run_once-run worker turn waiting_job

abbrev lease : JobLease
lease = lease_of (first_row leased_job) (first_row leased_job).payload (txt "worker-1") 2060

conclude-Told_example :
    Told lease.id returned leased_job (conclude worker lease returned 1000 2030 false leased_job)
conclude-Told_example = conclude-Told worker lease returned 1000 2030 false leased_job

conclude_held_example :
    (conclude worker lease returned 1000 2030 false leased_job).1
    ≡ answer_of (first_row leased_job) returned
unfolding leased_job first_row
conclude_held_example =
    conclude_held worker lease returned 1000 2030 leased_job (first_row leased_job)
      leased_job-IsWellFormed (inl refl) refl refl

retry_backoff_example :
    (k : WorkJob) × In k
      (conclude worker lease (retryable_error (txt "x") [] none) 1000 2030 false leased_job).0.jobs
    × (k.id ≡ (first_row leased_job).id)
    × (k.status ≡ retry_wait)
    × (2030 + 30 * 800 / 1000 ≤ k.available_at)
    × (k.available_at ≤ 2030 + 3600 * 1200 / 1000)
unfolding leased_job first_row
retry_backoff_example =
    retry_backoff worker lease (txt "x") [] 1000 2030 false leased_job (first_row leased_job)
      leased_job-IsWellFormed (inl refl) refl refl refl refl (omega arith, omega arith)

timeouts_of_bounds_example :
    All
      (λ d. (10 ≤ d) × (d ≤ 10 * 4))
      (timeouts_of 10 10 (Round.timed_out ∷ Round.woken ∷ Round.worked ∷ Round.timed_out ∷ []))
timeouts_of_bounds_example =
    timeouts_of_bounds 10 10 (Round.timed_out ∷ Round.woken ∷ Round.worked ∷ Round.timed_out ∷ [])
      (omega arith) (omega arith)
