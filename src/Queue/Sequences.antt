-- ===== src/Queue/Sequences.antt =====
-- manga_manager/infrastructure/job_queue.py: only `enqueue` takes a job id from the sequence.
use manga_manager.Queue.Limits.{Limits}
use manga_manager.Prelude.{
  ℕ, ◌≡◌, refl, List, [], ◌∷◌, Text, arith, zero, suc, Bool-cases, ◌∙◌, Option-cases, is_empty,
  strip, inl, inr, leb, ◌&&◌, Option, some, none,
}
use manga_manager.Domain.Jobs.{JobState}
use manga_manager.Queue.Permits.{acquire_permits}
use manga_manager.Queue.Eligible.{is_expired, select_candidate}
use manga_manager.Queue.Rows.{WorkJob, Db}
use manga_manager.Queue.Store.{
  after, record_event, release_permits, notify_workers, record_terminal_units,
}
use manga_manager.Queue.Leases.{heartbeat, finish, extend_children}
use manga_manager.Queue.Progress.{Report, progress}
use manga_manager.Queue.Returns.{
  retry, cancel, release, defer, fail_expired_job, fail_all, fail_exhausted_leases,
}
use manga_manager.Queue.Waiting.{
  Reroute, reroute, reroute_waiting, resume_recovered_provider, retry_now, announce_all,
}
use manga_manager.Queue.Claim.{
  ClaimRequest, Sweep, Claimed, granted, exhausted, try_candidate, claim_loop, grant, claim,
  recover, survey, filter_of, repool, repooled,
}

-- The statements that all operations share, opened together.
shared : Unit {0}
unfolding record_event release_permits notify_workers record_terminal_units
shared = tt

pub next-heartbeat :
    (db : Db) (i : ℕ) (owner : Text) (lease_for now : ℕ)
    → (after db (heartbeat db i owner lease_for now)).next_job_id ≡ db.next_job_id
unfolding heartbeat extend_children
next-heartbeat db i owner lease_for now = ground arith

pub next-finish :
    (db : Db) (i : ℕ) (owner : Text) (s : JobState) (event code message : Text) (now : ℕ)
    → (finish db i owner s event code message now).0.next_job_id ≡ db.next_job_id
unfolding finish shared
next-finish db i owner s event code message now = ground arith

pub next-retry :
    (db : Db) (i : ℕ) (owner : Text) (at : ℕ) (code message : Text) (now : ℕ)
    → (retry db i owner at code message now).0.next_job_id ≡ db.next_job_id
unfolding retry shared
next-retry db i owner at code message now = ground arith

pub next-cancel :
    (db : Db) (i : ℕ) (reason : Text) (now : ℕ)
    → (cancel db i reason now).0.next_job_id ≡ db.next_job_id
unfolding cancel shared
next-cancel db i reason now = ground arith

pub next-progress :
    (db : Db) (i : ℕ) (owner : Text) (r : Report) (now : ℕ)
    → (progress db i owner r now).0.next_job_id ≡ db.next_job_id
unfolding progress shared
next-progress db i owner r now = ground arith

pub next-release :
    (db : Db) (i : ℕ) (owner reason : Text) (now : ℕ)
    → (release db i owner reason now).0.next_job_id ≡ db.next_job_id
unfolding release shared
next-release db i owner reason now = ground arith

pub next-defer :
    (db : Db) (i : ℕ) (owner : Text) (at : ℕ) (code message : Text) (now : ℕ)
    → (defer db i owner at code message now).0.next_job_id ≡ db.next_job_id
unfolding defer shared
next-defer db i owner at code message now = ground arith

pub next-reroute :
    (db : Db) (i : ℕ) (owner : Text) (r : Reroute) (now : ℕ)
    → (after db (reroute db i owner r now)).next_job_id ≡ db.next_job_id
unfolding reroute shared
next-reroute db i owner r now = ground arith

pub next-reroute_waiting :
    (db : Db) (i : ℕ) (r : Reroute) (now : ℕ)
    → (after db (reroute_waiting db i r now)).next_job_id ≡ db.next_job_id
unfolding reroute_waiting shared
next-reroute_waiting db i r now = ground arith

next-announce_all :
    (message : Text) (js : List WorkJob) (db : Db)
    → (announce_all message js db).next_job_id ≡ db.next_job_id
unfolding announce_all shared
next-announce_all message [] db = refl
next-announce_all message (j ∷ js) db = next-announce_all message js _

pub next-resume :
    (db : Db) (source : Text) (now : ℕ)
    → (resume_recovered_provider db source now).0.next_job_id ≡ db.next_job_id
unfolding resume_recovered_provider
next-resume db source now = next-announce_all _ _ _

pub next-retry_now : (db : Db) (i now : ℕ) → (retry_now db i now).0.next_job_id ≡ db.next_job_id
unfolding retry_now shared
next-retry_now db i now = ground arith

next-fail_expired_job :
    (j : WorkJob) (now : ℕ) (db : Db) → (fail_expired_job j now db).next_job_id ≡ db.next_job_id
unfolding fail_expired_job shared
next-fail_expired_job j now db = ground arith

next-fail_all :
    (js : List WorkJob) (now : ℕ) (db : Db) → (fail_all js now db).next_job_id ≡ db.next_job_id
unfolding fail_all
next-fail_all [] now db = refl
next-fail_all (j ∷ js) now db = next-fail_all js now _ ∙ next-fail_expired_job j now db

pub next-fail_exhausted :
    (db : Db) (now : ℕ) → (fail_exhausted_leases db now).0.next_job_id ≡ db.next_job_id
unfolding fail_exhausted_leases
next-fail_exhausted db now = next-fail_all _ now db

-- The key that a claim leaves, before the lease is written.
abbrev next_of : Claimed → ℕ
next_of (granted d c) = d.next_job_id
next_of (exhausted d) = d.next_job_id

next-acquire_permits :
    (db : Db) (j : WorkJob) (owner : Text) (until now : ℕ) (limits : Limits) (window : ℕ)
    → (a : Option Db) → acquire_permits db j owner until now limits window ≡ a
    → (next : Claimed) → next_of next ≡ db.next_job_id
    → next_of (elim a [ some d ↦ granted d j | none ↦ next ]) ≡ db.next_job_id
unfolding acquire_permits
next-acquire_permits db j owner until now limits window none h next e = e
next-acquire_permits db j owner until now limits window (some d) h next e = ground arith

next-recover : (now : ℕ) (c : WorkJob) (db : Db) → (recover now c db).next_job_id ≡ db.next_job_id
unfolding release_permits
next-recover now c db = ground arith

next-try_candidate :
    (next : Sweep → Db → Claimed) (r : ClaimRequest) (s : Sweep) (d : Db) (c : WorkJob)
    → ((s' : Sweep) (d' : Db) → next_of (next s' d') ≡ d'.next_job_id)
    → next_of (try_candidate next r s d c) ≡ d.next_job_id
unfolding try_candidate
next-try_candidate next r s d c ih =
    elim (Bool-cases (is_expired r.now c && leb c.max_attempts c.attempts)) [
      | inl q ↦ rw q (ih _ _ ∙ next-fail_expired_job c r.now d)
      | inr q ↦ rw q (
          next-acquire_permits (recover r.now c d) c _ _ _ _ _ _ refl _ (ih _ _)
          ∙ next-recover r.now c d)
    ]

next-claim_loop :
    (rounds : ℕ) (r : ClaimRequest) (s : Sweep) (db : Db)
    → next_of (claim_loop rounds r s db) ≡ db.next_job_id
unfolding claim_loop
next-claim_loop zero r s db = refl
next-claim_loop (suc rounds) r s db =
    elim (Option-cases (select_candidate db r.now (filter_of r s))) [
      | inl e ↦ rw (e, claim_loop) (next-fail_exhausted db r.now)
      | inr (c, e) ↦
          rw (e, claim_loop)
            (next-try_candidate (claim_loop rounds r) r s (repool c db) (repooled c)
              (next-claim_loop rounds r))
    ]

next-grant :
    (r : ClaimRequest) (db : Db) (o : Claimed)
    → next_of o ≡ db.next_job_id
    → (after db (grant r o)).next_job_id ≡ db.next_job_id
unfolding grant record_event
next-grant r db (exhausted d) e = e
next-grant r db (granted d c) e = ground arith

pub next-claim : (db : Db) (r : ClaimRequest) → (after db (claim db r)).next_job_id ≡ db.next_job_id
unfolding claim
next-claim db r = elim (Bool-cases (is_empty (strip r.owner))) [
  | inl e ↦ rw e refl
  | inr e ↦ elim (Bool-cases (leb r.lease_for 0)) [
    | inl q ↦ rw (e, q) refl
    | inr q ↦ rw (e, q) (next-grant r db _ (next-claim_loop 50 r (survey r db [] []) db))
  ]
]
