-- ===== src/Queue/Enqueue.antt =====
-- manga_manager/infrastructure/job_queue.py: `enqueue`, `active_job` and `_active_cycle`. Rows
-- stand newest first, so the first that fits has the largest id. The branch for `IntegrityError`
-- belongs to a concurrent insert: here operations run one by one, and `active_job` has just found
-- no row.
use manga_manager.Prelude.{
  ℕ, Bool, true, false, not, ◌&&◌, [], ◌∷◌, Option, none, some, Text, txt, ◌==◌, nat_eq, text_eq,
  if◌then◌else◌, max, find, any, update_where, is_empty, strip, or_text, or_else, suc,
}
use manga_manager.Domain.Jobs.{
  JobKind, JobPayload, Body, leased, queued, kind_eq, state_eq, is_active, parse_job_payload,
}
use manga_manager.Queue.Rows.{
  WorkJob, JobProgress, WorkloadCycle, CycleStatus, running, settled, Db,
}
use manga_manager.Queue.Store.{
  Result, ok, raise, empty_dedupe_key, invalid_max_attempts, invalid_payload, in_cycle, settle,
  update_jobs, record_event, notify_workers,
}
use manga_manager.Queue.Routing.{default_pool, default_group_key}
use manga_manager.Queue.Coalesce.{EnqueueRequest, coalesce_into, grow_cycles}

abbrev pub has_key : JobKind → Text → WorkJob → Bool
has_key kind key j = j.kind == kind && j.dedupe_key == key

-- `active_job`
unfoldable pub active_job : Db → JobKind → Text → Option WorkJob
active_job db kind key = find (λ j. has_key kind key j && is_active j.status) db.jobs

abbrev pub is_running : CycleStatus → Bool
is_running running = true
is_running settled = false

unfoldable pub new_cycle : ℕ → ℕ → WorkloadCycle
new_cycle id now = record {
  id = id;
  status = running;
  total_units = 0;
  successful_units = 0;
  failed_units = 0;
  cancelled_units = 0;
  added_units = 0;
  updated_at = now;
  settled_at = none;
}

unfoldable pub open_cycle : Db → ℕ → Db × ℕ
open_cycle db now = (
  record db {
    cycles = new_cycle db.next_cycle_id now ∷ db.cycles;
    next_cycle_id = suc db.next_cycle_id;
  },
  db.next_cycle_id,
)

-- `_active_cycle`: a running cycle with no active job is settled, and a new one is opened.
unfoldable pub active_cycle : Db → ℕ → Db × ℕ
active_cycle db now = elim (find (λ c. is_running c.status) db.cycles) [
  | none ↦ open_cycle db now
  | some c ↦
      if any (λ j. in_cycle c.id j && is_active j.status) db.jobs
      then (db, c.id)
      else open_cycle
          (record db {
            cycles =
                update_where (λ d. d.id == c.id) (λ d. record (settle now d) { updated_at = now })
                  db.cycles;
          })
          now
]

-- The source that a pull or refresh names in its payload overrides the argument.
abbrev body_source : Body → Text → Text
body_source (Body.source_pull p) source = p.source
body_source (Body.source_refresh p) source = p.source
body_source (Body.chapter_download p) source = source
body_source (Body.kavita_sync p) source = source
body_source (Body.library_repair p) source = source
body_source (Body.cover_backfill n) source = source
body_source (Body.maintenance p) source = source
body_source (Body.notification n) source = source
body_source (Body.match_operation n) source = source

-- `getattr(validated_payload, "workflow_key", "")`
abbrev body_workflow : Body → Text
body_workflow (Body.source_pull p) = p.workflow_key
body_workflow (Body.source_refresh p) = p.workflow_key
body_workflow (Body.chapter_download p) = []
body_workflow (Body.kavita_sync p) = []
body_workflow (Body.library_repair p) = []
body_workflow (Body.cover_backfill n) = []
body_workflow (Body.maintenance p) = []
body_workflow (Body.notification n) = []
body_workflow (Body.match_operation n) = []

abbrev pub no_progress : JobProgress
no_progress = record {
  phase = [];
  done = 0;
  total = 0;
  unit = [];
  bytes = 0;
  message = [];
  updated_at = none;
}

unfoldable pub new_job : EnqueueRequest → JobPayload → Text → Text → Text → ℕ → ℕ → ℕ → WorkJob
new_job r payload key source pool cycle id now =
    let workflow = or_text (strip r.workflow_key) (body_workflow payload.body) in
    record {
      id = id;
      kind = r.kind;
      dedupe_key = key;
      payload = payload;
      source = source;
      series_key = strip r.series_key;
      pool = pool;
      cycle_id = some cycle;
      workflow_key = workflow;
      group_key =
          or_text (strip r.group_key)
            (default_group_key r.kind key source (strip r.series_key) workflow cycle);
      logical_units = max r.logical_units 1;
      pending_payload = none;
      status = queued;
      priority = r.priority;
      attempts = 0;
      max_attempts = r.max_attempts;
      available_at = or_else r.available_at now;
      lease_owner = [];
      lease_expires_at = none;
      heartbeat_at = none;
      error_code = [];
      error_message = [];
      progress = no_progress;
      updated_at = now;
      completed_at = none;
    }

-- An existing job that is not leased follows its pool.
abbrev pub moves : Text → WorkJob → Bool
moves pool j = not (j.status == leased) && not (j.pool == pool)

abbrev pub move_pool : Text → ℕ → WorkJob → WorkJob
move_pool pool now j = if moves pool j then record j { pool = pool; updated_at = now } else j

unfoldable pub moved_table : Db → Text → ℕ → WorkJob → Db
moved_table db pool now j =
    if moves pool j
    then notify_workers pool (update_jobs (λ k. k.id == j.id) (move_pool pool now) db)
    else db

-- The branch of `enqueue` for an existing row: its pool is set before anything is coalesced.
unfoldable pub fold_in : Db → EnqueueRequest → JobPayload → Text → ℕ → WorkJob → Db
fold_in db r payload pool now j =
    if r.coalesce
    then coalesce_into (moved_table db pool now j) r payload pool now (move_pool pool now j)
    else moved_table db pool now j

unfoldable pub insert_job : Db → EnqueueRequest → JobPayload → Text → Text → Text → ℕ → Db
insert_job db r payload key source pool now =
    let (cycled, cycle) = active_cycle db now in
    let job = new_job r payload key source pool cycle cycled.next_job_id now in
    let inserted = record cycled {
      jobs = job ∷ cycled.jobs;
      next_job_id = suc cycled.next_job_id;
    } in
    grow_cycles (some cycle) job.logical_units now
      (notify_workers pool (record_event job (txt "enqueued") [] [] [] inserted))

-- With a validated payload: the id of the job that stands for the key, and whether it is new.
unfoldable pub place : Db → EnqueueRequest → JobPayload → Text → ℕ → Db × (ℕ × Bool)
place db r payload key now =
    let source = body_source payload.body (strip r.source) in
    let pool = or_text (strip r.pool) (default_pool r.kind source) in
    elim (active_job db r.kind key) [
      | some j ↦ (fold_in db r payload pool now j, (j.id, false))
      | none ↦ (insert_job db r payload key source pool now, (db.next_job_id, true))
    ]

unfoldable pub enqueue : Db → EnqueueRequest → ℕ → Result (Db × (ℕ × Bool))
enqueue db r now =
    if is_empty (strip r.dedupe_key)
    then raise empty_dedupe_key
    else if r.max_attempts == 0
    then raise invalid_max_attempts
    else elim (parse_job_payload r.kind r.payload) [
      | none ↦ raise invalid_payload
      | some payload ↦ ok (place db r payload (strip r.dedupe_key) now)
    ]
