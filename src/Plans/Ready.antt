-- ===== src/Plans/Ready.antt =====
-- manga_manager/application/download_plans.py: `_enqueue_ready`, the jobs of the chapters whose turn has
-- come. The intents of the series in the order of tier and id are those of its three tiers, one tier
-- after the other, each in the order of the table.
use manga_manager.Prelude.{
  ℕ, ◌+◌, Bool, true, false, not, ◌&&◌, List, [], ◌∷◌, ◌++◌, none, some, txt, ◌==◌, nat_eq, leb,
  if◌then◌else◌, count_if,
}
use manga_manager.Domain.Jobs.{Body, chapter_download, JobPayload}
use manga_manager.Queue.Rows.{Db}
use manga_manager.Queue.Store.{Result, ok, raise}
use manga_manager.Queue.Routing.{decimal_text}
use manga_manager.Queue.Coalesce.{EnqueueRequest}
use manga_manager.Queue.Enqueue.{enqueue}
use manga_manager.Plans.Rows.{Release, Tier, IntentState, Intent}
use manga_manager.Plans.Choice.{best_release}

abbrev pub is_tier : Tier → Tier → Bool
is_tier Tier.current Tier.current = true
is_tier Tier.priority Tier.priority = true
is_tier Tier.backfill Tier.backfill = true
is_tier _ _ = false

abbrev pub same_state : IntentState → IntentState → Bool
same_state IntentState.blocked IntentState.blocked = true
same_state IntentState.pending IntentState.pending = true
same_state IntentState.queued IntentState.queued = true
same_state IntentState.satisfied IntentState.satisfied = true
same_state IntentState.attention IntentState.attention = true
same_state IntentState.cancelled IntentState.cancelled = true
same_state _ _ = false

abbrev pub in_series : ℕ → Intent → Bool
in_series series_id i = i.series_id == series_id

abbrev pub is_active_backfill : ℕ → Intent → Bool
is_active_backfill series_id i =
    in_series series_id i && is_tier i.tier Tier.backfill && same_state i.state IntentState.queued

abbrev pub tier_priority : Tier → ℕ
tier_priority Tier.current = 5
tier_priority Tier.priority = 20
tier_priority Tier.backfill = 100

abbrev pub download_payload : Release → Bool → JobPayload
download_payload r preferred_only = record {
  version = 1;
  body = Body.chapter_download (record {
    chapter_release_id = r.id;
    attempted_sources = [];
    preferred_only = preferred_only;
  });
}

unfoldable pub chapter_request : Intent → Release → EnqueueRequest
chapter_request i r = record {
  kind = chapter_download;
  dedupe_key = txt "chapter:" ++ decimal_text i.chapter_id;
  payload = download_payload r false;
  priority = tier_priority i.tier;
  max_attempts = 3;
  available_at = none;
  source = r.source;
  series_key = decimal_text i.series_id;
  pool = [];
  workflow_key = [];
  group_key = [];
  logical_units = 1;
  coalesce = false;
}

abbrev pub queue_intent : ℕ → ℕ → Intent → Intent
queue_intent job_id now i = record i {
  job_id = some job_id;
  state = IntentState.queued;
  updated_at = now;
}

-- The queue, how many backfill chapters of the series are queued, and the intent.
abbrev pub PlacedIntent : Type 0
PlacedIntent = Db × ℕ × Intent

abbrev pub take_up : ℕ → ℕ → Intent → Result (Db × (ℕ × Bool)) → Result PlacedIntent
take_up now active i (raise e) = raise e
take_up now active i (ok (db, answer)) =
    ok
      (db, if is_tier i.tier Tier.backfill then active + 1 else active, queue_intent answer.0 now i)

-- One pending intent.
unfoldable pub place_intent : List Release → ℕ → ℕ → Db → ℕ → Intent → Result PlacedIntent
place_intent releases window now db active i = elim (best_release releases i.chapter_id now) [
  | none ↦ ok (db, active, record i { state = IntentState.attention })
  | some r ↦ take_up now active i (enqueue db (chapter_request i r) now)
]

-- An intent waits where it is not pending, of another tier or series, or beyond the window.
abbrev pub is_ready_intent : ℕ → Tier → ℕ → ℕ → Intent → Bool
is_ready_intent series_id tier window active i =
    in_series series_id i
    && is_tier i.tier tier
    && same_state i.state IntentState.pending
    && not (is_tier i.tier Tier.backfill && leb window active)

abbrev pub Queued : Type 0
Queued = Db × ℕ × List Intent

abbrev pub with_first : Intent → Result Queued → Result Queued
with_first i (raise e) = raise e
with_first i (ok (db, active, is)) = ok (db, active, i ∷ is)

abbrev pub after_placed : (Db → ℕ → Result Queued) → Result PlacedIntent → Result Queued
after_placed rest (raise e) = raise e
after_placed rest (ok (db, active, i)) = with_first i (rest db active)

-- The intents of one tier, one after the other.
unfoldable pub enqueue_tier : List Release → ℕ → ℕ → ℕ → Tier → List Intent → Db → ℕ → Result Queued
enqueue_tier releases series_id window now tier [] db active = ok (db, active, [])
enqueue_tier releases series_id window now tier (i ∷ is) db active =
    after_placed (enqueue_tier releases series_id window now tier is) (
      if is_ready_intent series_id tier window active i
      then place_intent releases window now db active i
      else ok (db, active, i))

abbrev pub then_tier : (List Intent → Db → ℕ → Result Queued) → Result Queued → Result Queued
then_tier next (raise e) = raise e
then_tier next (ok (db, active, is)) = next is db active

unfoldable pub enqueue_ready : List Release → ℕ → ℕ → ℕ → Db → List Intent → Result Queued
enqueue_ready releases series_id window now db is =
    let pass = enqueue_tier releases series_id window now in
    then_tier (pass Tier.backfill) (
      then_tier (pass Tier.priority)
        (pass Tier.current is db (count_if (is_active_backfill series_id) is)))
