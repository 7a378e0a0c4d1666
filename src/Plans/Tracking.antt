-- ===== src/Plans/Tracking.antt =====
-- manga_manager/application/download_plans.py: `track` with its acquisition refreshes, and
-- `enqueue_preferred_upgrades`.
use manga_manager.Prelude.{
  ◌+◌, if◌then◌else◌, Bool, List, ℕ, ◌||◌, keep, txt, Text, find, ◌&&◌, any, ◌∷◌, ◌==◌, none, [],
  not, ◌++◌, map, some, contains, nat_eq, text_eq, update_where, is_empty, true, false,
}
use manga_manager.Domain.Jobs.{Body, source_refresh, chapter_download}
use manga_manager.Queue.Rows.{Db}
use manga_manager.Queue.Store.{Result, ok, ◌>>=◌}
use manga_manager.Queue.Permits.{lex_lt}
use manga_manager.Queue.Routing.{decimal_text}
use manga_manager.Queue.Coalesce.{EnqueueRequest}
use manga_manager.Queue.Enqueue.{enqueue}
use manga_manager.Plans.Rows.{
  Chapter, Release, Artifact, Plan, PlanStatus, Phase, SourceIdentity, Catalog,
}
use manga_manager.Plans.Choice.{best_release, source_priority}
use manga_manager.Plans.Chapters.{sync_chapters, is_phase}
use manga_manager.Plans.Ready.{download_payload}
use manga_manager.Plans.Reconcile.{is_plan, reconcile}

abbrev pub acquire_key : ℕ → Text
acquire_key series_id = txt "acquire:" ++ decimal_text series_id

abbrev pub refresh_request : ℕ → SourceIdentity → EnqueueRequest
refresh_request series_id s = record {
  kind = source_refresh;
  dedupe_key = txt "refresh:" ++ s.source ++ txt ":" ++ s.source_id;
  payload = record {
    version = 3;
    body = Body.source_refresh (record {
      source = s.source;
      source_id = s.source_id;
      title = if is_empty s.title then txt "Unknown manga" else s.title;
      url = s.url;
      aliases = [];
      description = s.description;
      cover_url = s.cover_url;
      genres = [];
      carried = s.carried;
      workflow_key = acquire_key series_id;
      observation_version = s.observation_version;
      acquisition_critical = true;
    });
  };
  priority = 10;
  max_attempts = 4;
  available_at = none;
  source = s.source;
  series_key = decimal_text series_id;
  pool = [];
  workflow_key = acquire_key series_id;
  group_key = acquire_key series_id;
  logical_units = 1;
  coalesce = true;
}

-- A row that was enqueued counts where it is new.
abbrev pub count_created : ℕ → Db × (ℕ × Bool) → Db × ℕ
count_created created (db, answer) = (db, if answer.1 then created + 1 else created)

abbrev pub enqueue_request : EnqueueRequest → ℕ → Db × ℕ → Result (Db × ℕ)
enqueue_request r now (db, created) = enqueue db r now >>= λ q. ok (count_created created q)

abbrev pub enqueue_all : List EnqueueRequest → ℕ → Db × ℕ → Result (Db × ℕ)
enqueue_all [] now q = ok q
enqueue_all (r ∷ rs) now q = enqueue_request r now q >>= enqueue_all rs now

abbrev pub is_acquired_from : ℕ → SourceIdentity → Bool
is_acquired_from series_id s =
    s.series_id == series_id && not (is_empty s.source_id) && not (is_empty s.url)

unfoldable pub enqueue_acquisition_refreshes : ℕ → ℕ → Catalog → Result (Db × ℕ)
enqueue_acquisition_refreshes series_id now k =
    if any (λ c. c.series_id == series_id) k.chapters
    then ok (k.queue, 0)
    else enqueue_all
        (map (refresh_request series_id) (keep (is_acquired_from series_id) k.identities)) now
        (k.queue, 0)

abbrev pub new_plan : ℕ → ℕ → Plan
new_plan series_id now = record {
  series_id = series_id;
  status = PlanStatus.active;
  phase = Phase.priority;
  total_chapters = 0;
  satisfied_chapters = 0;
  attention_chapters = 0;
  created_at = now;
  updated_at = now;
}

abbrev pub reopen : Plan → Plan
reopen p = record p {
  status = PlanStatus.active;
  phase =
      if is_phase p.phase Phase.complete || is_phase p.phase Phase.cancelled
      then Phase.priority
      else p.phase;
}

-- The plan of the series, opened, and the table with it.
abbrev pub open_plan : ℕ → ℕ → List Plan → Plan × List Plan
open_plan series_id now plans = elim (find (is_plan series_id) plans) [
  | none ↦ (reopen (new_plan series_id now), reopen (new_plan series_id now) ∷ plans)
  | some p ↦ (reopen p, update_where (is_plan series_id) reopen plans)
]

unfoldable pub track : ℕ → ℕ → ℕ → Catalog → Result Catalog
track window series_id now k =
    let (plan, plans) = open_plan series_id now k.plans in
    let synced = sync_chapters plan now (record k { plans = plans }) in
    enqueue_acquisition_refreshes series_id now synced >>= λ (db, created).
    reconcile window series_id now (record synced { queue = db })

-- `enqueue_preferred_upgrades`: the artifacts of the series that are looked at again.
abbrev pub is_chapter_of : List ℕ → List Chapter → ℕ → Bool
is_chapter_of series_ids chapters chapter_id =
    any (λ c. c.id == chapter_id && contains series_ids c.series_id) chapters

abbrev pub is_reconsidered : List ℕ → List Chapter → Artifact → Bool
is_reconsidered series_ids chapters a =
    is_chapter_of series_ids chapters a.chapter_id
    && a.active
    && (a.fallback || not (a.source == txt "asura"))

-- Whether a release comes before what was downloaded, by provider and quality.
abbrev pub is_better_than : Artifact → Release → Bool
is_better_than a r =
    lex_lt (source_priority a.source ∷ a.quality_rank ∷ [])
      (source_priority r.source ∷ r.quality_rank ∷ [])

abbrev pub upgrade_request : ℕ → ℕ → Release → EnqueueRequest
upgrade_request chapter_id series_id r = record {
  kind = chapter_download;
  dedupe_key = txt "upgrade:" ++ decimal_text chapter_id ++ txt ":" ++ decimal_text r.id;
  payload = download_payload r true;
  priority = 250;
  max_attempts = 3;
  available_at = none;
  source = r.source;
  series_key = decimal_text series_id;
  pool = [];
  workflow_key = [];
  group_key = [];
  logical_units = 1;
  coalesce = false;
}

-- The upgrade of an artifact, if there is one.
abbrev pub upgrades_of : ℕ → Catalog → Artifact → List EnqueueRequest
upgrades_of now k a = elim (best_release k.releases a.chapter_id now) [
  | none ↦ []
  | some r ↦
      if is_better_than a r
      then elim (find (λ c. c.id == a.chapter_id) k.chapters) [
        | none ↦ []
        | some c ↦ upgrade_request a.chapter_id c.series_id r ∷ []
      ]
      else []
]

unfoldable pub all_upgrades : ℕ → Catalog → List Artifact → List EnqueueRequest
all_upgrades now k [] = []
all_upgrades now k (a ∷ rest) = upgrades_of now k a ++ all_upgrades now k rest

unfoldable pub enqueue_preferred_upgrades : List ℕ → ℕ → Catalog → Result (Db × ℕ)
enqueue_preferred_upgrades series_ids now k =
    enqueue_all (all_upgrades now k (keep (is_reconsidered series_ids k.chapters) k.artifacts)) now
      (k.queue, 0)
