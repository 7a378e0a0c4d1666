-- ===== src/Queue/Claim.antt =====
-- manga_manager/infrastructure/job_queue.py: `claim`, which leases the first job that the limits
-- let start. A pass looks at 50 candidates at most, as the source does.
use manga_manager.Prelude.{
  ℕ, ◌+◌, Bool, not, ◌&&◌, List, [], ◌∷◌, ◌++◌, Option, none, some, Text, txt, ◌==◌, text_eq,
  nat_eq, leb, if◌then◌else◌, is_empty, strip, zero, suc, any,
}
use manga_manager.Domain.Jobs.{
  JobKind, JobPayload, source_refresh, library_repair, leased, kind_eq, state_eq, parse_job_payload,
}
use manga_manager.Queue.Rows.{WorkJob, Db}
use manga_manager.Queue.Store.{
  Result, ok, raise, empty_owner, invalid_lease, invalid_payload, integrity_error, update_jobs,
  release_permits, record_event,
}
use manga_manager.Queue.Routing.{default_pool, is_network_job}
use manga_manager.Queue.Returns.{fail_expired_job, fail_exhausted_leases}
use manga_manager.Queue.Limits.{
  Limits, permit_pool_full, saturated_direct_pools, saturated_provider_sources,
}
use manga_manager.Queue.Permits.{acquire_permits}
use manga_manager.Queue.Eligible.{ClaimFilter, is_expired, select_candidate}

-- The arguments of `claim`.
pub record ClaimRequest : Type 0 where
  pub owner : Text
  pub lease_for : ℕ
  pub now : ℕ
  pub kinds : Option (List JobKind)
  pub limits : Limits
  pub pacing_window : ℕ
  pub pools : Option (List Text)

-- What the loop carries from one candidate to the next.
pub record Sweep : Type 0 where
  pub rejected : List ℕ
  pub pools : List Text
  pub sources : List Text
  pub network_full : Bool
  pub chapter_full : Bool

-- The saturation tests, on the permits as they stand; `sources` are those excluded before.
unfoldable pub survey : ClaimRequest → Db → List ℕ → List Text → Sweep
survey r db rejected sources = record {
  rejected = rejected;
  pools = saturated_direct_pools db r.now r.limits;
  sources = sources ++ saturated_provider_sources db r.now r.pacing_window r.limits;
  network_full = permit_pool_full db r.now r.limits (txt "network_global");
  chapter_full = permit_pool_full db r.now r.limits (txt "chapter_global");
}

abbrev pub filter_of : ClaimRequest → Sweep → ClaimFilter
filter_of r s = record {
  kinds = r.kinds;
  pools = r.pools;
  exclude_ids = s.rejected;
  exclude_pools = s.pools;
  exclude_sources = s.sources;
  block_network = s.network_full;
  block_chapters = s.chapter_full;
}

-- A refresh whose pool is not its provider's is moved there.
abbrev pub repooled : WorkJob → WorkJob
repooled j =
    if j.kind == source_refresh then record j { pool = default_pool j.kind j.source } else j

abbrev pub repool : WorkJob → Db → Db
repool c = update_jobs (λ j. j.id == c.id) repooled

pub data Claimed : Type 0 where
  granted : Db → WorkJob → Claimed
  exhausted : Db → Claimed

-- A candidate that the permits refuse is skipped, and so is its provider.
abbrev pub refused_sources : WorkJob → List Text → List Text
refused_sources c sources =
    if is_network_job c && not (is_empty c.source) then c.source ∷ sources else sources

-- The candidate's expired permits are dropped before new ones are taken.
abbrev pub recover : ℕ → WorkJob → Db → Db
recover now c db = if is_expired now c then release_permits c.id db else db

-- One candidate, its pool set: a spent one is failed and skipped, one that the permits let start is
-- granted, and any other is skipped. `next` is the rest of the loop.
unfoldable pub try_candidate :
    (Sweep → Db → Claimed) → ClaimRequest → Sweep → Db → WorkJob → Claimed
try_candidate next r s db c =
    let rejected = c.id ∷ s.rejected in
    let recovered = recover r.now c db in
    let overdue = next (record s { rejected = rejected }) (fail_expired_job c r.now db) in
    let skipped = next (survey r recovered rejected (refused_sources c s.sources)) recovered in
    if is_expired r.now c && leb c.max_attempts c.attempts
    then overdue
    else elim (acquire_permits recovered c (strip r.owner) (r.now + r.lease_for) r.now r.limits
        r.pacing_window) [ some d ↦ granted d c | none ↦ skipped ]

unfoldable pub claim_loop : ℕ → ClaimRequest → Sweep → Db → Claimed
claim_loop zero r s db = exhausted db
claim_loop (suc rounds) r s db = elim (select_candidate db r.now (filter_of r s)) [
  | none ↦ exhausted (fail_exhausted_leases db r.now).0
  | some c ↦ try_candidate (claim_loop rounds r) r s (repool c db) (repooled c)
]

abbrev pub lease_job : Text → ℕ → ℕ → WorkJob → WorkJob
lease_job owner expires_at now j = record j {
  status = leased;
  attempts = j.attempts + 1;
  lease_owner = owner;
  lease_expires_at = some expires_at;
  heartbeat_at = some now;
  error_code = [];
  error_message = [];
  updated_at = now;
}

-- `JobLease`
pub record JobLease : Type 0 where
  pub id : ℕ
  pub kind : JobKind
  pub dedupe_key : Text
  pub payload : JobPayload
  pub priority : ℕ
  pub attempt : ℕ
  pub max_attempts : ℕ
  pub owner : Text
  pub expires_at : ℕ
  pub source : Text
  pub series_key : Text
  pub pool : Text

abbrev pub lease_of : WorkJob → JobPayload → Text → ℕ → JobLease
lease_of j payload owner expires_at = record {
  id = j.id;
  kind = j.kind;
  dedupe_key = j.dedupe_key;
  payload = payload;
  priority = j.priority;
  attempt = j.attempts;
  max_attempts = j.max_attempts;
  owner = owner;
  expires_at = expires_at;
  source = j.source;
  series_key = j.series_key;
  pool = j.pool;
}

-- `uq_job_leased_library_repair_series`: a series has one leased repair at most, also where the lease is
-- over, so that the flush of another one raises.
unfoldable pub repair_clash : Db → WorkJob → Bool
repair_clash db c =
    c.kind == library_repair
    && not (is_empty c.series_key)
    && any
        (λ j.
          not (j.id == c.id)
          && j.kind == library_repair
          && j.status == leased
          && j.series_key == c.series_key)
        db.jobs

-- The lease of the job that the loop chose.
unfoldable pub grant : ClaimRequest → Claimed → Result (Db × Option JobLease)
grant r (exhausted db) = ok (db, none)
grant r (granted db c) =
    let owner = strip r.owner in
    let expires_at = r.now + r.lease_for in
    let c' = lease_job owner expires_at r.now c in
    let db' =
      record_event c' (txt "leased") owner [] []
        (update_jobs (λ j. j.id == c.id) (lease_job owner expires_at r.now) db) in
    if repair_clash db c then raise integrity_error else elim (parse_job_payload c.kind c.payload) [
      | none ↦ raise invalid_payload
      | some payload ↦ ok (db', some (lease_of c' payload owner expires_at))
    ]

unfoldable pub claim : Db → ClaimRequest → Result (Db × Option JobLease)
claim db r =
    if is_empty (strip r.owner)
    then raise empty_owner
    else if leb r.lease_for 0
    then raise invalid_lease
    else grant r (claim_loop 50 r (survey r db [] []) db)
