-- ===== src/Plans/Tests.antt =====
-- Runs of the download plans.
use manga_manager.Plans.Untracking.{StaysOrDrops, Stopped, untrack-Clears}
use manga_manager.Domain.Jobs.{cancelled}
use manga_manager.Prelude.{
  ◌≡◌, ◌≤◌, refl, true, [], ◌∷◌, none, some, txt, List, ℕ, map, In, max, keep, take, any, contains,
  Pointwise, All, Text, ◌*◌, false, ◌==◌, nat_eq,
}
use manga_manager.Queue.Fixtures.{empty_db, program}
use manga_manager.Queue.Store.{Result, ok, raise}
use manga_manager.Queue.Tests.{empty_db-IsWellFormed}
use manga_manager.Queue.WellFormed.{IsWellFormed, step-IsWellFormed}
use manga_manager.Queue.Permits.{lex_lt}
use manga_manager.Plans.Rows.{
  Chapter, Release, IntentState, Plan, PlanStatus, Phase, Catalog, Intent, Tier, cancelled,
}
use manga_manager.Plans.Choice.{best_release, fallback_release, most_preferred, source_priority}
use manga_manager.Plans.Chapters.{
  sync_chapters, add_intents, sort_chapters, insert_chapter, new_intent,
}
use manga_manager.Plans.Ready.{enqueue_ready, enqueue_tier, place_intent, chapter_request}
use manga_manager.Plans.Reconcile.{
  advance, refresh_intent, close_plan, is_plan, untrack, is_open_intent, cancel_jobs,
  is_active_plan,
}
use manga_manager.Plans.Best.{Best, IsCandidate, IsAlternative, best_release-Best}
use manga_manager.Plans.Coverage.{HasIntent, sync_chapters-settles}
use manga_manager.Plans.Window.{Holds, backfill_count, refreshed_intents, advance-window}
use manga_manager.Plans.Settled.{StaysBlocked, advance_gated}
use manga_manager.Queue.Operations.{Call, step}
use manga_manager.Plans.Endings.{IsTrueOf, advance-IsTrueOf}

abbrev chapter_of : ℕ → Chapter
chapter_of n = record { id = n; series_id = 1; sort_number = some (n * 1000000); created_at = 5 }

abbrev pub release_of : ℕ → ℕ → Text → Release
release_of id chapter_id source = record {
  id = id;
  chapter_id = chapter_id;
  source = source;
  quality_rank = 0;
  downloadable_after = none;
}

abbrev plan : Plan
plan = record {
  series_id = 1;
  status = PlanStatus.active;
  phase = Phase.priority;
  total_chapters = 0;
  satisfied_chapters = 0;
  attention_chapters = 0;
  created_at = 10;
  updated_at = 10;
}

abbrev releases : List Release
releases =
    release_of 11 1 (txt "mangafire")
    ∷ release_of 12 1 (txt "mangadex")
    ∷ release_of 13 2 (txt "asura")
    ∷ release_of 15 5 (txt "asura")
    ∷ []

abbrev pub catalog : Catalog
catalog = record {
  queue = empty_db;
  chapters = chapter_of 3 ∷ chapter_of 1 ∷ chapter_of 2 ∷ chapter_of 5 ∷ chapter_of 4 ∷ [];
  releases = releases;
  artifacts = [];
  intents = [];
  plans = plan ∷ [];
  attempts = [];
  identities = [];
  series = record { id = 1; status = txt "reading" } ∷ [];
  next_intent_id = 1;
}

abbrev states_of : Result Catalog → List IntentState
states_of (ok k) = map (λ i. i.state) k.intents
states_of (raise e) = []

-- The two first and the two last chapters come first; the fourth has no release.
first_step :
    states_of (advance 20 plan 100 catalog)
    ≡ IntentState.queued ∷ IntentState.queued ∷ IntentState.blocked ∷ IntentState.attention
      ∷ IntentState.queued ∷ []
unfolding program advance sync_chapters add_intents sort_chapters insert_chapter new_intent
    enqueue_ready enqueue_tier place_intent chapter_request refresh_intent close_plan best_release
    most_preferred source_priority
first_step = refl

best_release-Best_example :
    Best (IsCandidate 1 100) releases (best_release releases 1 100)
    × Best (IsAlternative 1 12 [] 100) releases (fallback_release releases 1 12 [] 100)
best_release-Best_example = best_release-Best releases 1 12 [] 100

sync_chapters-settles_example :
    ((c : Chapter)
      → In c catalog.chapters
      → c.series_id ≡ plan.series_id
      → HasIntent plan.series_id (sync_chapters plan 100 catalog).intents c)
    × (sync_chapters plan 200 (sync_chapters plan 100 catalog) ≡ sync_chapters plan 100 catalog)
sync_chapters-settles_example = sync_chapters-settles plan 100 200 catalog

advance-window_example :
    Holds
      (λ d.
        backfill_count plan.series_id d.intents
        ≤ max 20 (backfill_count plan.series_id (refreshed_intents plan 100 catalog)))
      (advance 20 plan 100 catalog)
advance-window_example = advance-window 20 100 plan catalog

advance_gated_example :
    Holds
      (λ d. Pointwise StaysBlocked (refreshed_intents plan 100 catalog) d.intents)
      (advance 20 plan 100 catalog)
unfolding any contains keep take sync_chapters add_intents sort_chapters insert_chapter new_intent
    refresh_intent lex_lt
advance_gated_example = advance_gated 20 100 plan catalog refl refl

advance-IsTrueOf_example :
    Holds
      (λ d. All (λ p. is_plan plan.series_id p ≡ true → IsTrueOf d.intents p) d.plans)
      (advance 20 plan 100 catalog)
advance-IsTrueOf_example = advance-IsTrueOf 20 100 plan catalog (λ _. refl, tt)

abbrev waiting_intent : Intent
waiting_intent = record {
  id = 1;
  series_id = 1;
  chapter_id = 2;
  tier = Tier.priority;
  state = IntentState.queued;
  job_id = some 1;
  updated_at = 10;
}

-- The chapter of one intent waits in the queue.
abbrev pub tracked : Catalog
tracked = record catalog {
  queue =
      step empty_db
        (Call.enqueue (chapter_request waiting_intent (release_of 13 2 (txt "asura"))) 100);
  intents = waiting_intent ∷ [];
  next_intent_id = 2;
}

untracked_jobs : map (λ j. j.status) (untrack 1 200 tracked).queue.jobs ≡ cancelled ∷ []
unfolding program untrack cancel_jobs chapter_request
untracked_jobs = refl

untrack-Clears_example :
    All (λ i. is_open_intent 1 i ≡ false) (untrack 1 200 tracked).intents
    × All (λ p. is_plan 1 p ≡ true → is_active_plan p ≡ false) (untrack 1 200 tracked).plans
    × IsWellFormed (untrack 1 200 tracked).queue
    × Pointwise (StaysOrDrops 200) tracked.queue.jobs (untrack 1 200 tracked).queue.jobs
    × ((i : Intent) (id : ℕ)
        → In i tracked.intents
        → is_open_intent 1 i ≡ true
        → i.job_id ≡ some id
        → (id == 0) ≡ false
        → Stopped id (untrack 1 200 tracked).queue)
untrack-Clears_example =
    untrack-Clears 1 200 tracked (step-IsWellFormed empty_db _ empty_db-IsWellFormed)
