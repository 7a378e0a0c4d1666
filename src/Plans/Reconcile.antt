-- ===== src/Plans/Reconcile.antt =====
-- manga_manager/application/download_plans.py: `reconcile`, one step of a plan, and `untrack`.
use manga_manager.Prelude.{
  ℕ, Bool, true, false, not, ◌&&◌, ◌||◌, List, [], ◌∷◌, Option, none, some, txt, ◌==◌, nat_eq,
  if◌then◌else◌, map, find, any, count_if, update_where, keep,
}
use manga_manager.Domain.Jobs.{JobState}
use manga_manager.Queue.Rows.{WorkJob, Db}
use manga_manager.Queue.Store.{Result, ok, raise}
use manga_manager.Queue.Returns.{cancel}
use manga_manager.Queue.Waiting.{is_waiting}
use manga_manager.Plans.Rows.{Artifact, Tier, IntentState, Intent, Plan, PlanStatus, Phase, Catalog}
use manga_manager.Plans.Chapters.{sync_chapters, has_active_artifact, is_phase}
use manga_manager.Plans.Ready.{is_tier, same_state, in_series, enqueue_ready, Queued}

abbrev pub job_of : Db → ℕ → Option WorkJob
job_of db id = find (λ j. j.id == id) db.jobs

-- An intent whose job has gone.
abbrev pub forget_job : Intent → Intent
forget_job i = record i {
  job_id = none;
  state =
      if same_state i.state IntentState.queued
      then (if is_tier i.tier Tier.backfill then IntentState.blocked else IntentState.pending)
      else i.state;
}

abbrev pub state_for : JobState → IntentState
state_for JobState.succeeded = IntentState.satisfied
state_for JobState.failed = IntentState.attention
state_for JobState.cancelled = IntentState.attention
state_for JobState.queued = IntentState.queued
state_for JobState.leased = IntentState.queued
state_for JobState.retry_wait = IntentState.queued

abbrev pub follow_job : Db → Intent → Intent
follow_job db i = elim i.job_id [
  | none ↦ i
  | some id ↦ if id == 0 then i else elim (job_of db id) [
    | none ↦ forget_job i
    | some j ↦ record i { state = state_for j.status }
  ]
]

-- The state of an intent by its artifact and its job.
unfoldable pub refresh_intent : List Artifact → Db → ℕ → Intent → Intent
refresh_intent artifacts db now i =
    if has_active_artifact artifacts i.chapter_id
    then record i { state = IntentState.satisfied; updated_at = now }
    else follow_job db i

abbrev pub refresh_of : ℕ → List Artifact → Db → ℕ → Intent → Intent
refresh_of series_id artifacts db now i =
    if in_series series_id i then refresh_intent artifacts db now i else i

abbrev pub is_settled : IntentState → Bool
is_settled s =
    same_state s IntentState.satisfied
    || same_state s IntentState.attention
    || same_state s IntentState.cancelled

-- A priority chapter that has not come to an end.
abbrev pub is_holding : ℕ → Intent → Bool
is_holding series_id i =
    in_series series_id i && is_tier i.tier Tier.priority && not (is_settled i.state)

-- Whether the backfill starts now.
abbrev pub turns : Plan → List Intent → Bool
turns plan is = is_phase plan.phase Phase.priority && not (any (is_holding plan.series_id) is)

abbrev pub release_backfill : ℕ → Intent → Intent
release_backfill series_id i =
    if in_series series_id i
      && is_tier i.tier Tier.backfill
      && same_state i.state IntentState.blocked
    then record i { state = IntentState.pending }
    else i

abbrev pub turned : Plan → List Intent → List Intent
turned plan is = if turns plan is then map (release_backfill plan.series_id) is else is

abbrev pub turned_phase : Plan → List Intent → Phase
turned_phase plan is = if turns plan is then Phase.backfill else plan.phase

abbrev pub is_in_state : ℕ → IntentState → Intent → Bool
is_in_state series_id s i = in_series series_id i && same_state i.state s

abbrev pub is_unfinished : ℕ → Intent → Bool
is_unfinished series_id i = in_series series_id i && not (is_settled i.state)

-- The counters of the plan, and its end.
unfoldable pub close_plan : Phase → List Intent → ℕ → Plan → Plan
close_plan phase is now plan =
    let done = not (any (is_unfinished plan.series_id) is) && any (in_series plan.series_id) is in
    record plan {
      status = if done then PlanStatus.complete else plan.status;
      phase = if done then Phase.complete else phase;
      total_chapters = count_if (in_series plan.series_id) is;
      satisfied_chapters = count_if (is_in_state plan.series_id IntentState.satisfied) is;
      attention_chapters = count_if (is_in_state plan.series_id IntentState.attention) is;
      updated_at = now;
    }

abbrev pub is_plan : ℕ → Plan → Bool
is_plan series_id p = p.series_id == series_id

abbrev pub finish_step : Plan → Phase → ℕ → Catalog → Result Queued → Result Catalog
finish_step plan phase now k (raise e) = raise e
finish_step plan phase now k (ok (db, active, is)) = ok (record k {
  queue = db;
  intents = is;
  plans = update_where (is_plan plan.series_id) (close_plan phase is now) k.plans;
})

-- One step of an active plan.
unfoldable pub advance : ℕ → Plan → ℕ → Catalog → Result Catalog
advance window plan now k =
    let synced = sync_chapters plan now k in
    let refreshed =
      map (refresh_of plan.series_id synced.artifacts synced.queue now) synced.intents in
    finish_step plan (turned_phase plan refreshed) now synced
      (enqueue_ready synced.releases plan.series_id window now synced.queue (turned plan refreshed))

abbrev is_active_status : PlanStatus → Bool
is_active_status PlanStatus.active = true
is_active_status PlanStatus.complete = false
is_active_status PlanStatus.cancelled = false

abbrev pub is_active_plan : Plan → Bool
is_active_plan p = is_active_status p.status

unfoldable pub reconcile : ℕ → ℕ → ℕ → Catalog → Result Catalog
reconcile window series_id now k = elim (find (is_plan series_id) k.plans) [
  | none ↦ ok k
  | some plan ↦ if is_active_plan plan then advance window plan now k else ok k
]

-- `untrack`: the jobs of unfinished intents that wait are cancelled, one after the other.
abbrev pub is_open_intent : ℕ → Intent → Bool
is_open_intent series_id i =
    in_series series_id i
    && (same_state i.state IntentState.blocked
        || same_state i.state IntentState.pending
        || same_state i.state IntentState.queued)

abbrev pub cancel_waiting : Option ℕ → ℕ → Db → Db
cancel_waiting none now db = db
cancel_waiting (some id) now db = if id == 0 then db else elim (job_of db id) [
  | none ↦ db
  | some j ↦ if is_waiting j.status then (cancel db j.id (txt "series was untracked") now).0 else db
]

unfoldable pub cancel_jobs : List Intent → ℕ → Db → Db
cancel_jobs [] now db = db
cancel_jobs (i ∷ is) now db = cancel_jobs is now (cancel_waiting i.job_id now db)

abbrev pub cancel_intent : ℕ → Intent → Intent
cancel_intent now i = record i { state = IntentState.cancelled; updated_at = now }

abbrev pub cancel_plan : ℕ → Plan → Plan
cancel_plan now p = record p {
  status = PlanStatus.cancelled;
  phase = Phase.cancelled;
  updated_at = now;
}

unfoldable pub untrack : ℕ → ℕ → Catalog → Catalog
untrack series_id now k = record k {
  queue = cancel_jobs (keep (is_open_intent series_id) k.intents) now k.queue;
  intents = update_where (is_open_intent series_id) (cancel_intent now) k.intents;
  plans = update_where (is_plan series_id) (cancel_plan now) k.plans;
}
