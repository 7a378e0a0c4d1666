-- ===== src/Downloads/Tests.antt =====
-- Runs of the test for active downloads.
use manga_manager.Downloads.Candidates.{has_downloads-Candidates}
use manga_manager.Queue.Store.{live_lease}
use manga_manager.Domain.Jobs.{chapter_download}
use manga_manager.Queue.Rows.{Db, WorkJob}
use manga_manager.Prelude.{◌≡◌, refl, true, false, none, In, ◌⊎◌}
use manga_manager.Queue.Fixtures.{empty_db, program, download_request}
use manga_manager.Queue.Operations.{Call, step}
use manga_manager.Queue.Eligible.{ClaimFilter, is_claimable, is_expired, series_free, passes_filter}
use manga_manager.Downloads.Activity.{has_runnable_or_leased_downloads}

no_downloads : has_runnable_or_leased_downloads empty_db 100 none ≡ false
unfolding has_runnable_or_leased_downloads program
no_downloads = refl

abbrev waiting_db : Db
waiting_db = step empty_db (Call.enqueue download_request 50)

waiting_download : has_runnable_or_leased_downloads waiting_db 100 none ≡ true
unfolding has_runnable_or_leased_downloads program
waiting_download = refl

has_downloads-Candidates_example :
    ((has_runnable_or_leased_downloads waiting_db 100 none ≡ true)
      × ((j : WorkJob) × In j waiting_db.jobs
          × (j.kind ≡ chapter_download)
          × ((f : ClaimFilter)
              → series_free waiting_db 100 j ≡ true
              → passes_filter f j ≡ true
              → (live_lease 100 j ≡ true) ⊎ (is_claimable waiting_db 100 f j ≡ true))))
    ⊎ ((has_runnable_or_leased_downloads waiting_db 100 none ≡ false)
        × ((f : ClaimFilter) (j : WorkJob)
            → In j waiting_db.jobs
            → j.kind ≡ chapter_download
            → is_claimable waiting_db 100 f j ≡ true
            → is_expired 100 j ≡ true))
has_downloads-Candidates_example = has_downloads-Candidates waiting_db 100
