-- ===== src/Queue/PermitFrames.antt =====
-- manga_manager/infrastructure/job_queue.py: permits on the way through `claim`.
use manga_manager.Prelude.{
  ℕ, ◌≡◌, ◌≤◌, List, [], ◌∷◌, Text, arith, count_if, Bool-cases, keep, inl, inr, Bool,
}
use manga_manager.Domain.Jobs.{JobState}
use manga_manager.Queue.Rows.{WorkJob, JobPermit, Db}
use manga_manager.Queue.Store.{release_permits, record_event, record_terminal_units}
use manga_manager.Queue.Returns.{fail_expired_job, fail_all, fail_exhausted_leases}
use manga_manager.Queue.Limits.{active_permits}
use manga_manager.Queue.Eligible.{is_expired}
use manga_manager.Queue.Claim.{recover}
use manga_manager.Queue.Frames.{jobs-release_permits}

-- Permits are only dropped on the way to a grant.
abbrev pub NoMorePermits : ℕ → Db → Db → Type 0
NoMorePermits now db d = (pool : Text) → active_permits d now pool ≤ active_permits db now pool

count_if-keep-le :
    (p q : JobPermit → Bool) (xs : List JobPermit) → count_if p (keep q xs) ≤ count_if p xs
unfolding count_if keep
count_if-keep-le p q [] = omega arith
count_if-keep-le p q (x ∷ xs) = ground (arith, count_if-keep-le p q xs)

pub release_permits-NoMore : (now i : ℕ) (db : Db) → NoMorePermits now db (release_permits i db)
unfolding active_permits release_permits
release_permits-NoMore now i db pool = count_if-keep-le _ _ db.permits

permits-record_terminal_units :
    (j : WorkJob) (s : JobState) (now : ℕ) (db : Db)
    → (record_terminal_units j s now db).permits ≡ db.permits
unfolding record_terminal_units
permits-record_terminal_units j s now db = ground arith

pub fail_expired_job-NoMore :
    (now : ℕ) (j : WorkJob) (db : Db) → NoMorePermits now db (fail_expired_job j now db)
unfolding active_permits fail_expired_job release_permits record_event
fail_expired_job-NoMore now j db pool =
    rw permits-record_terminal_units (count_if-keep-le _ _ db.permits)

fail_all-NoMore :
    (now : ℕ) (js : List WorkJob) (db : Db) → NoMorePermits now db (fail_all js now db)
unfolding fail_all
fail_all-NoMore now [] db pool = omega arith
fail_all-NoMore now (j ∷ js) db pool = omega (
  arith,
  fail_all-NoMore now js (fail_expired_job j now db) pool,
  fail_expired_job-NoMore now j db pool,
)

pub active_permits-same :
    (d db : Db) (now : ℕ) (pool : Text)
    → d.permits ≡ db.permits
    → active_permits d now pool ≡ active_permits db now pool
unfolding active_permits
active_permits-same d db now pool h = rw h

pub fail_exhausted-NoMore :
    (now : ℕ) (db : Db) → NoMorePermits now db (fail_exhausted_leases db now).0
unfolding fail_exhausted_leases
fail_exhausted-NoMore now db pool = fail_all-NoMore now _ db pool

pub recover-NoMore : (now : ℕ) (c : WorkJob) (db : Db) → NoMorePermits now db (recover now c db)
recover-NoMore now c db pool = elim (Bool-cases (is_expired now c)) [
  | inl e ↦ rw e (release_permits-NoMore now c.id db pool)
  | inr e ↦ rw e (omega arith)
]

pub jobs-recover : (now : ℕ) (c : WorkJob) (db : Db) → (recover now c db).jobs ≡ db.jobs
jobs-recover now c db = elim (Bool-cases (is_expired now c)) [
  | inl e ↦ rw e (jobs-release_permits c.id db)
  | inr e ↦ rw e
]
