-- ===== src/Queue/LifeTests.antt =====
-- Runs of jobs whose life goes on after an attempt.
use manga_manager.Prelude.{
  pos, take, length, ◌+◌, ◌≤◌, arith, ◌≡◌, refl, [], ◌∷◌, txt, List, text_eq, ℕ, In, inl,
  ℕ_discrete,
}
use mathlib.Core.Bool.{decide}
use manga_manager.Queue.Rows.{WorkJob, Db}
use manga_manager.Queue.Operations.{Call, run}
use manga_manager.Queue.Coalesce.{apply_merge}
use manga_manager.Queue.WellFormed.{IsWellFormed, run-IsWellFormed}
use manga_manager.Queue.Refinement.{Follows, run-Follows}
use manga_manager.Queue.Stranding.{Stranded, succeed-Stranded}
use manga_manager.Queue.Progress.{Report}
use manga_manager.Queue.Reports.{report_calls, reports_bounded}
use manga_manager.Queue.Fixtures.{empty_db, program, first_row, leased_job, until_finished}
use manga_manager.Queue.Tests.{empty_db-IsWellFormed, leased_job-IsWellFormed}
use manga_manager.Queue.Batches.{kavita_request, kavita_claim}

run-Follows_example : Follows leased_job.jobs (run leased_job until_finished).jobs
run-Follows_example = run-Follows leased_job until_finished leased_job-IsWellFormed

-- One attempt is allowed, and a newer observation arrives while it is made.
abbrev until_pending : List Call
until_pending =
    Call.enqueue (record (kavita_request (1 ∷ [])) { max_attempts = 1 }) 1000
    ∷ Call.claim (kavita_claim (txt "worker-1") 2000)
    ∷ Call.enqueue (record (kavita_request (4 ∷ [])) { max_attempts = 1 }) 2010
    ∷ []

unfoldable pending_job : Db
unfolding program apply_merge decide ℕ_discrete
pending_job = run empty_db until_pending

pending_job-IsWellFormed : IsWellFormed pending_job
unfolding pending_job
pending_job-IsWellFormed = run-IsWellFormed empty_db until_pending empty_db-IsWellFormed

abbrev later_claim : List Call
later_claim = Call.claim (kavita_claim (txt "worker-2") 3000) ∷ []

succeed-Stranded_example :
    (k : WorkJob) × In k
      (run pending_job
        (Call.succeed (first_row pending_job).id (txt "worker-1") 2020 ∷ later_claim)).jobs
    × (k.id ≡ (first_row pending_job).id)
    × Stranded (first_row pending_job).max_attempts k
unfolding pending_job first_row apply_merge decide ℕ_discrete
succeed-Stranded_example =
    succeed-Stranded pending_job later_claim (first_row pending_job)
      (kavita_request (4 ∷ [])).payload (txt "worker-1") 2020 pending_job-IsWellFormed (inl refl)
      refl refl refl

abbrev pages : ℕ → Report
pages n = record {
  text = txt "page";
  details = [];
  phase = txt "pages";
  processed = pos n;
  current = pos 0;
  total = pos 40;
  unit = txt "pages";
  bytes = pos 0;
}

abbrev page_reports : List (Report × ℕ)
page_reports = (pages 0, 2001) ∷ (pages 1, 2002) ∷ (pages 2, 2003) ∷ (pages 40, 2004) ∷ []

page_reports-events :
    length (run leased_job (report_calls 1 (txt "worker-1") page_reports)).events
    ≡ length leased_job.events + 3
unfolding leased_job
page_reports-events = refl

reports_bounded_example :
    length (run leased_job (report_calls 1 (txt "worker-1") page_reports)).events
    ≤ length leased_job.events + 21
unfolding take
reports_bounded_example =
    reports_bounded 1 (txt "worker-1") (txt "pages") 40 leased_job page_reports
      leased_job-IsWellFormed (omega arith)
      (
        refl,
        refl,
        refl,
        omega arith,
        (
          refl,
          refl,
          refl,
          omega arith,
          (refl, refl, refl, omega arith, (refl, refl, refl, omega arith, tt)),
        ),
      )
