-- ===== src/Plans/DetourTests.antt =====
-- Runs of tracking, of the bypass of a provider, and of upgrades.
use manga_manager.Domain.Jobs.{cancelled}
use manga_manager.Plans.Reconcile.{
  reconcile, advance, refresh_intent, close_plan, untrack, cancel_jobs,
}
use manga_manager.Plans.Ready.{chapter_request, enqueue_ready, enqueue_tier, place_intent}
use manga_manager.Plans.Choice.{best_release, most_preferred, fallback_release, source_priority}
use manga_manager.Plans.Detours.{bypass_cooling_source, bypass_all, bypass_job, sorted_set}
use manga_manager.Prelude.{txt, true, ℕ, List, ◌∷◌, Pointwise, Text, [], map, ◌≡◌, refl}
use manga_manager.Plans.Tracking.{
  enqueue_preferred_upgrades, track, all_upgrades, enqueue_acquisition_refreshes,
}
use manga_manager.Queue.Rows.{Db}
use manga_manager.Queue.Fixtures.{empty_db, program}
use manga_manager.Queue.Store.{Result, ok, raise}
use manga_manager.Queue.Tests.{empty_db-IsWellFormed}
use manga_manager.Queue.WellFormed.{IsWellFormed, step-IsWellFormed}
use manga_manager.Plans.Rows.{Artifact, Catalog}
use manga_manager.Plans.Tests.{catalog, tracked, release_of}
use manga_manager.Plans.Window.{Holds}
use manga_manager.Plans.Leaving.{StaysOrLeaves, bypass_cooling_source-Leaves}
use manga_manager.Plans.Chapters.{
  add_intents, sort_chapters, insert_chapter, new_intent, sync_chapters,
}
use manga_manager.Plans.Sweeps.{
  PlanCall, insert_plan, call_all, call_plans, bootstrap, for_each_series, reconcile_active,
  sort_plans,
}
use manga_manager.Plans.Histories.{call_all-IsWellFormed}
use manga_manager.Plans.Opening.{IsTracked, track-IsTracked}

abbrev sources_of : Result (Catalog × ℕ) → List (Text × ℕ)
sources_of (ok (k, n)) = map (λ j. (j.source, j.available_at)) k.queue.jobs
sources_of (raise e) = []

-- The chapter that waits for one provider has a release at another.
abbrev cooling : Catalog
cooling = record tracked {
  releases = release_of 13 2 (txt "asura") ∷ release_of 14 2 (txt "mangadex") ∷ [];
}

bypassed_sources :
    sources_of (bypass_cooling_source (txt "asura") 900 200 cooling) ≡ (txt "mangadex", 200) ∷ []
unfolding program bypass_cooling_source bypass_all bypass_job fallback_release most_preferred
    source_priority sorted_set chapter_request
bypassed_sources = refl

-- Without another release it waits until the provider is back.
waited_out :
    sources_of (
      bypass_cooling_source
        (txt "asura")
        900
        200
        (record tracked { releases = release_of 13 2 (txt "asura") ∷ [] }))
    ≡ (txt "asura", 900) ∷ []
unfolding program bypass_cooling_source bypass_all bypass_job fallback_release most_preferred
    source_priority sorted_set chapter_request
waited_out = refl

bypass_cooling_source-Leaves_example :
    Holds
      (λ (r : Catalog × ℕ).
        Pointwise (StaysOrLeaves (txt "asura") 900) cooling.queue.jobs r.0.queue.jobs
        × IsWellFormed r.0.queue)
      (bypass_cooling_source (txt "asura") 900 200 cooling)
bypass_cooling_source-Leaves_example =
    bypass_cooling_source-Leaves (txt "asura") 900 200 cooling
      (step-IsWellFormed empty_db _ empty_db-IsWellFormed)

track-IsTracked_example : Holds (IsTracked 1) (track 20 1 100 catalog)
track-IsTracked_example = track-IsTracked 20 1 100 catalog empty_db-IsWellFormed

-- A chapter that was downloaded from another provider than the first is upgraded.
abbrev downloaded : Artifact
downloaded = record {
  chapter_id = 2;
  active = true;
  fallback = true;
  source = txt "mangadex";
  quality_rank = 0;
}

abbrev created_of : Result (Db × ℕ) → ℕ
created_of (ok q) = q.1
created_of (raise e) = 0

upgraded :
    created_of
      (enqueue_preferred_upgrades (1 ∷ []) 200 (record catalog { artifacts = downloaded ∷ [] }))
    ≡ 1
unfolding program enqueue_preferred_upgrades all_upgrades best_release most_preferred
    source_priority
upgraded = refl

abbrev history : List PlanCall
history =
    PlanCall.bootstrap_all 100
    ∷ PlanCall.reconcile_oldest 50 200
    ∷ PlanCall.bypass_source (txt "asura") 900 300
    ∷ PlanCall.untrack_series 1 400
    ∷ []

history_jobs :
    map (λ j. j.status) (call_all 20 catalog history).queue.jobs
    ≡ cancelled ∷ cancelled ∷ cancelled ∷ []
unfolding program call_all call_plans bootstrap for_each_series track reconcile advance
    sync_chapters add_intents sort_chapters insert_chapter new_intent enqueue_ready enqueue_tier
    place_intent chapter_request refresh_intent close_plan enqueue_acquisition_refreshes
    enqueue_preferred_upgrades all_upgrades reconcile_active sort_plans insert_plan
    bypass_cooling_source bypass_all bypass_job fallback_release best_release most_preferred
    source_priority sorted_set untrack cancel_jobs
history_jobs = refl

call_all-IsWellFormed_example : IsWellFormed (call_all 20 catalog history).queue
call_all-IsWellFormed_example = call_all-IsWellFormed 20 catalog history empty_db-IsWellFormed
