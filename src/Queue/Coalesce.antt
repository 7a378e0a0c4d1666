-- ===== src/Queue/Coalesce.antt =====
-- manga_manager/infrastructure/job_queue.py: how `enqueue` folds an observation into the active job
-- with the same key.
use manga_manager.Prelude.{
  ℕ, ◌+◌, ◌-◌, Bool, true, false, not, ◌&&◌, List, [], ◌++◌, Option, none, some, Text, ◌==◌, nat_eq,
  text_eq, ltb, leb, if◌then◌else◌, min, max, length, take, keep, contains, dedupe, is_empty, strip,
  update_where, or_else,
}
use manga_manager.Domain.Jobs.{
  JobKind, JobPayload, Body, leased, source_refresh, kavita_sync, kind_eq, state_eq, payload_beq,
}
use manga_manager.Domain.Decimals.{text_gt}
use manga_manager.Queue.Rows.{WorkJob, WorkloadCycle, Db}
use manga_manager.Queue.Store.{update_jobs, notify_workers}
use manga_manager.Queue.Eligible.{acquisition_critical}

-- The arguments of `enqueue`, the payload as given.
pub record EnqueueRequest : Type 0 where
  pub kind : JobKind
  pub dedupe_key : Text
  pub payload : JobPayload
  pub priority : ℕ
  pub max_attempts : ℕ
  pub available_at : Option ℕ
  pub source : Text
  pub series_key : Text
  pub pool : Text
  pub workflow_key : Text
  pub group_key : Text
  pub logical_units : ℕ
  pub coalesce : Bool

abbrev body_series : Body → List ℕ
body_series (Body.kavita_sync k) = k.series_ids
body_series (Body.source_pull b) = []
body_series (Body.source_refresh b) = []
body_series (Body.chapter_download b) = []
body_series (Body.library_repair b) = []
body_series (Body.cover_backfill n) = []
body_series (Body.maintenance b) = []
body_series (Body.notification n) = []
body_series (Body.match_operation n) = []

-- `payload.get("series_ids") or []`
abbrev pub series_ids : JobPayload → List ℕ
series_ids p = body_series p.body

abbrev pub pending_series : Option JobPayload → List ℕ
pending_series none = []
pending_series (some p) = series_ids p

abbrev body_with_series : List ℕ → Body → Body
body_with_series ids (Body.kavita_sync k) = Body.kavita_sync (record k { series_ids = ids })
body_with_series ids (Body.source_pull b) = Body.source_pull b
body_with_series ids (Body.source_refresh b) = Body.source_refresh b
body_with_series ids (Body.chapter_download b) = Body.chapter_download b
body_with_series ids (Body.library_repair b) = Body.library_repair b
body_with_series ids (Body.cover_backfill n) = Body.cover_backfill n
body_with_series ids (Body.maintenance b) = Body.maintenance b
body_with_series ids (Body.notification n) = Body.notification n
body_with_series ids (Body.match_operation n) = Body.match_operation n

-- `replacement["series_ids"] = ids`
abbrev pub with_series : List ℕ → JobPayload → JobPayload
with_series ids p = record p { body = body_with_series ids p.body }

abbrev pub observation_version : Body → Text
observation_version (Body.source_refresh p) = p.observation_version
observation_version (Body.source_pull b) = []
observation_version (Body.chapter_download b) = []
observation_version (Body.kavita_sync k) = []
observation_version (Body.library_repair b) = []
observation_version (Body.cover_backfill n) = []
observation_version (Body.maintenance b) = []
observation_version (Body.notification n) = []
observation_version (Body.match_operation n) = []

-- Both versions are given: the newer one wins; on text that is no number, `current != replacement`.
abbrev newer : JobPayload → JobPayload → Text → Text → Option Bool → Bool
newer current replacement old new (some b) = b
newer current replacement old new none =
    if new == old then false else not (payload_beq current replacement)

-- `_should_coalesce`
unfoldable pub should_coalesce : JobKind → JobPayload → JobPayload → Bool
should_coalesce kind current replacement =
    let old = strip (observation_version current.body) in
    let new = strip (observation_version replacement.body) in
    if not (kind == source_refresh)
    then not (payload_beq current replacement)
    else if acquisition_critical replacement.body && not (acquisition_critical current.body)
    then true
    else if not (is_empty old) && not (is_empty new)
    then newer current replacement old new (text_gt new old)
    else not (payload_beq current replacement)

-- The payload that a new observation replaces.
abbrev pub current_payload : WorkJob → JobPayload
current_payload j = if j.status == leased then or_else j.pending_payload j.payload else j.payload

-- The series of a batch: those that wait first, at most 100, none that is in flight.
unfoldable pub merged_series : WorkJob → JobPayload → List ℕ
merged_series j replacement =
    let incoming = dedupe (series_ids replacement) in
    if j.status == leased
    then take 100 (
        keep (λ i. not (contains (series_ids j.payload) i))
          (dedupe (pending_series j.pending_payload ++ incoming)))
    else take 100 (dedupe (series_ids j.payload ++ incoming))

-- The replacement and the units that it adds, or nothing where a batch brings no new series.
unfoldable pub merge_payload : JobKind → WorkJob → JobPayload → Option (JobPayload × ℕ)
merge_payload kind j replacement =
    let merged = merged_series j replacement in
    let pending = pending_series j.pending_payload in
    if kind == kavita_sync && not (is_empty (series_ids replacement))
    then if j.status == leased
      then if leb (length merged) (length pending)
        then none
        else some (with_series merged replacement, length merged - length pending)
      else if merged == series_ids j.payload
      then none
      else some (with_series merged replacement, 0)
    else some (replacement, 0)

abbrev pub promotes : JobKind → JobPayload → JobPayload → Bool
promotes kind current replacement =
    kind == source_refresh
    && acquisition_critical replacement.body
    && not (acquisition_critical current.body)

-- The row changes of a promotion.
abbrev pub promote : EnqueueRequest → ℕ → WorkJob → WorkJob
promote r now j = record j {
  priority = min j.priority r.priority;
  max_attempts = max j.max_attempts r.max_attempts;
  available_at =
      if j.status == leased
      then j.available_at
      else if ltb (or_else r.available_at now) j.available_at
      then or_else r.available_at now
      else j.available_at;
}

-- The units that a coalesced observation adds to its job and cycle.
abbrev pub added_units : EnqueueRequest → WorkJob → JobPayload → ℕ → ℕ
added_units r j replacement merged =
    if j.status == leased
    then (if r.kind == kavita_sync then merged else max r.logical_units 1)
    else (if r.kind == kavita_sync
        then max (length (series_ids replacement)) 1 - j.logical_units
        else 0)

abbrev pub replace_payload : EnqueueRequest → JobPayload → ℕ → ℕ → WorkJob → WorkJob
replace_payload r replacement added now j =
    if j.status == leased
    then record j { pending_payload = some replacement; logical_units = j.logical_units + added }
    else record j {
      payload = replacement;
      error_code = [];
      error_message = [];
      updated_at = now;
      logical_units =
          if r.kind == kavita_sync
          then max (length (series_ids replacement)) 1
          else j.logical_units;
    }

abbrev pub grow_cycle : ℕ → ℕ → WorkloadCycle → WorkloadCycle
grow_cycle units now c = record c {
  total_units = c.total_units + units;
  added_units = c.added_units + units;
  updated_at = now;
}

abbrev pub grow_cycles : Option ℕ → ℕ → ℕ → Db → Db
grow_cycles none units now db = db
grow_cycles (some cycle) units now db = record db {
  cycles = update_where (λ c. c.id == cycle) (grow_cycle units now) db.cycles;
}

-- The row with the replacement, promoted first where the observation asks for it.
abbrev pub coalesced : EnqueueRequest → JobPayload → ℕ → ℕ → Bool → WorkJob → WorkJob
coalesced r replacement added now promoting k =
    replace_payload r replacement added now (if promoting then promote r now k else k)

-- The replacement is taken if it is newer, and its new units are added to the cycle.
unfoldable pub apply_merge :
    Db → EnqueueRequest → JobPayload → Text → ℕ → WorkJob → JobPayload → ℕ → Db
apply_merge db r payload routed_pool now j replacement merged =
    let promoting = promotes r.kind (current_payload j) payload in
    let added = added_units r j replacement merged in
    let changed =
      update_jobs (λ k. k.id == j.id) (coalesced r replacement added now promoting)
        (if promoting then notify_workers routed_pool db else db) in
    if not (should_coalesce r.kind (current_payload j) replacement)
    then db
    else if ltb 0 added
    then grow_cycles j.cycle_id added now changed
    else changed

-- The branch of `enqueue` under `if coalesce`, on the existing row.
unfoldable pub coalesce_into : Db → EnqueueRequest → JobPayload → Text → ℕ → WorkJob → Db
coalesce_into db r payload routed_pool now j = elim (merge_payload r.kind j payload) [
  | none ↦ db
  | some (replacement, merged) ↦ apply_merge db r payload routed_pool now j replacement merged
]
