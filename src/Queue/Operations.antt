-- ===== src/Queue/Operations.antt =====
-- manga_manager/infrastructure/job_queue.py: the calls that workers, the scheduler and operators
-- make on `JobQueue`, and a history of them. Each call is a transaction; one that raises changes
-- nothing.
use manga_manager.Prelude.{ℕ, Bool, true, false, List, [], ◌∷◌, Text}
use manga_manager.Queue.Rows.{Db}
use manga_manager.Queue.Store.{after}
use manga_manager.Queue.Leases
use manga_manager.Queue.Returns
use manga_manager.Queue.Progress
use manga_manager.Queue.Progress.{Report}
use manga_manager.Queue.Waiting
use manga_manager.Queue.Waiting.{Reroute}
use manga_manager.Queue.Claim
use manga_manager.Queue.Claim.{ClaimRequest}
use manga_manager.Queue.Coalesce.{EnqueueRequest}
use manga_manager.Queue.Enqueue

pub data Call : Type 0 where
  enqueue : EnqueueRequest → ℕ → Call
  claim : ClaimRequest → Call
  heartbeat : (job_id : ℕ) (owner : Text) (lease_for now : ℕ) → Call
  progress : (job_id : ℕ) (owner : Text) → Report → (now : ℕ) → Call
  succeed : (job_id : ℕ) (owner : Text) (now : ℕ) → Call
  fail : (job_id : ℕ) (owner code message : Text) (now : ℕ) → Call
  retry : (job_id : ℕ) (owner : Text) (available_at : ℕ) (code message : Text) (now : ℕ) → Call
  cancel : (job_id : ℕ) (reason : Text) (now : ℕ) → Call
  release : (job_id : ℕ) (owner reason : Text) (now : ℕ) → Call
  defer : (job_id : ℕ) (owner : Text) (available_at : ℕ) (code message : Text) (now : ℕ) → Call
  reroute : (job_id : ℕ) (owner : Text) → Reroute → (now : ℕ) → Call
  reroute_waiting : (job_id : ℕ) → Reroute → (now : ℕ) → Call
  resume : (source : Text) (now : ℕ) → Call
  retry_now : (job_id now : ℕ) → Call
  fail_exhausted : (now : ℕ) → Call
  cleanup : (now : ℕ) → Call

-- When a call is made.
abbrev pub time_of : Call → ℕ
time_of (Call.enqueue r now) = now
time_of (Call.claim r) = r.now
time_of (Call.heartbeat i owner lease_for now) = now
time_of (Call.progress i owner r now) = now
time_of (Call.succeed i owner now) = now
time_of (Call.fail i owner code message now) = now
time_of (Call.retry i owner at code message now) = now
time_of (Call.cancel i reason now) = now
time_of (Call.release i owner reason now) = now
time_of (Call.defer i owner at code message now) = now
time_of (Call.reroute i owner r now) = now
time_of (Call.reroute_waiting i r now) = now
time_of (Call.resume source now) = now
time_of (Call.retry_now i now) = now
time_of (Call.fail_exhausted now) = now
time_of (Call.cleanup now) = now

abbrev pub is_claim : Call → Bool
is_claim (Call.claim r) = true
is_claim _ = false

unfoldable pub step : Db → Call → Db
step db (Call.enqueue r now) = after db (Enqueue.enqueue db r now)
step db (Call.claim r) = after db (Claim.claim db r)
step db (Call.heartbeat i owner lease_for now) =
    after db (Leases.heartbeat db i owner lease_for now)
step db (Call.progress i owner r now) = (Progress.progress db i owner r now).0
step db (Call.succeed i owner now) = (Leases.succeed db i owner now).0
step db (Call.fail i owner code message now) = (Leases.fail db i owner code message now).0
step db (Call.retry i owner at code message now) = (Returns.retry db i owner at code message now).0
step db (Call.cancel i reason now) = (Returns.cancel db i reason now).0
step db (Call.release i owner reason now) = (Returns.release db i owner reason now).0
step db (Call.defer i owner at code message now) = (Returns.defer db i owner at code message now).0
step db (Call.reroute i owner r now) = after db (Waiting.reroute db i owner r now)
step db (Call.reroute_waiting i r now) = after db (Waiting.reroute_waiting db i r now)
step db (Call.resume source now) = (Waiting.resume_recovered_provider db source now).0
step db (Call.retry_now i now) = (Waiting.retry_now db i now).0
step db (Call.fail_exhausted now) = (Returns.fail_exhausted_leases db now).0
step db (Call.cleanup now) = (Returns.cleanup_expired_permits db now).0

unfoldable pub run : Db → List Call → Db
run db [] = db
run db (c ∷ cs) = run (step db c) cs
