-- ===== src/Queue/Eligible.antt =====
-- manga_manager/infrastructure/job_queue.py: `claim_query`, the rows that a worker may claim and
-- the order in which it takes them.
use manga_manager.Prelude.{
  ℕ, Bool, true, false, not, ◌&&◌, ◌||◌, List, [], ◌∷◌, Option, none, some, Text, txt, ◌==◌, nat_eq,
  text_eq, ltb, leb, if◌then◌else◌, any, count_if, contains, keep, starts_with, is_empty,
}
use manga_manager.Domain.Jobs.{
  JobKind, Body, source_pull, source_refresh, chapter_download, library_repair, maintenance,
  kavita_sync, cover_backfill, notification, match_operation, leased, queued, retry_wait, kind_eq,
  state_eq,
}
use manga_manager.Queue.Rows.{WorkJob, StorageState, Db}
use manga_manager.Queue.Store.{expires_after, expired_at, live_lease}
use manga_manager.Queue.Routing.{is_network_kind, is_mutating}
use manga_manager.Queue.Permits.{lex_lt}

-- What the caller of `claim_query` narrows the search by.
pub record ClaimFilter : Type 0 where
  pub kinds : Option (List JobKind)
  pub pools : Option (List Text)
  pub exclude_ids : List ℕ
  pub exclude_pools : List Text
  pub exclude_sources : List Text
  pub block_network : Bool
  pub block_chapters : Bool

abbrev pub is_ready : ℕ → WorkJob → Bool
is_ready now j = (j.status == queued || j.status == retry_wait) && leb j.available_at now

abbrev pub is_expired : ℕ → WorkJob → Bool
is_expired now j = j.status == leased && expired_at now j.lease_expires_at

-- The provider is disabled, or cools down.
unfoldable pub source_blocked : Db → ℕ → Text → Bool
source_blocked db now source =
    any (λ s. s.source == source && (not s.manual_enabled || expires_after now s.cooldown_until))
      db.sources

-- Another job with a live lease on the series, of a kind that the test accepts.
unfoldable pub series_leased : (JobKind → Bool) → Db → ℕ → WorkJob → Bool
series_leased excludes db now job =
    any
      (λ j.
        not (j.id == job.id)
        && excludes j.kind
        && live_lease now j
        && j.series_key == job.series_key)
      db.jobs

unfoldable pub series_free : Db → ℕ → WorkJob → Bool
series_free db now job =
    not (is_mutating job.kind)
    || is_empty job.series_key
    || (job.kind == chapter_download && not (series_leased (λ k. k == library_repair) db now job))
    || (job.kind == library_repair && not (series_leased is_mutating db now job))

abbrev pub storage_paused : Option StorageState → Bool
storage_paused none = false
storage_paused (some s) = s.paused

abbrev allows {ℓ} : {A : Type ℓ} → Option (List A) → (List A → Bool) → Bool
allows none test = true
allows (some xs) test = test xs

-- `kinds` and `pools` narrow by membership, the empty pool names aside.
unfoldable pub passes_filter : ClaimFilter → WorkJob → Bool
passes_filter f j =
    allows f.kinds (λ ks. contains ks j.kind)
    && allows f.pools (λ ps. contains (keep (λ p. not (is_empty p)) ps) j.pool)
    && not (contains f.exclude_ids j.id)
    && not (contains f.exclude_pools j.pool)
    && not (contains f.exclude_sources j.source)
    && (not f.block_network
        || (not (is_network_kind j.kind) && not (starts_with (txt "pull:") j.pool)))
    && (not f.block_chapters || not (j.kind == chapter_download))

unfoldable pub is_claimable : Db → ℕ → ClaimFilter → WorkJob → Bool
is_claimable db now f j =
    (is_ready now j || is_expired now j)
    && ltb j.attempts j.max_attempts
    && (not (is_network_kind j.kind) || not (source_blocked db now j.source))
    && series_free db now j
    && (not (j.kind == chapter_download) || not (storage_paused db.storage))
    && passes_filter f j

abbrev pub acquisition_critical : Body → Bool
acquisition_critical (Body.source_refresh p) = p.acquisition_critical
acquisition_critical (Body.source_pull p) = false
acquisition_critical (Body.chapter_download p) = false
acquisition_critical (Body.kavita_sync p) = false
acquisition_critical (Body.library_repair p) = false
acquisition_critical (Body.cover_backfill n) = false
acquisition_critical (Body.maintenance p) = false
acquisition_critical (Body.notification n) = false
acquisition_critical (Body.match_operation n) = false

-- `scheduling_tier`, by the kind.
abbrev tier_of : JobKind → Bool → Bool → ℕ
tier_of chapter_download critical pulls = 0
tier_of source_refresh critical pulls = if critical then 1 else 3
tier_of source_pull critical pulls = 2
tier_of maintenance critical pulls = if pulls then 4 else 5
tier_of kavita_sync critical pulls = 5
tier_of library_repair critical pulls = 5
tier_of cover_backfill critical pulls = 5
tier_of notification critical pulls = 5
tier_of match_operation critical pulls = 5

unfoldable pub scheduling_tier : WorkJob → ℕ
scheduling_tier j =
    tier_of j.kind (acquisition_critical j.payload.body) (starts_with (txt "pull:") j.pool)

-- The live leases of the job's group, for a download.
unfoldable pub fairness_load : Db → ℕ → WorkJob → ℕ
fairness_load db now j =
    if j.kind == chapter_download
    then count_if (λ k. k.group_key == j.group_key && live_lease now k) db.jobs
    else 0

unfoldable pub rank : Db → ℕ → WorkJob → List ℕ
rank db now j = scheduling_tier j ∷ fairness_load db now j ∷ j.priority ∷ j.available_at ∷ j.id ∷ []

-- The first row in an order.
unfoldable pub first_by {ℓ} : {A : Type ℓ} → (A → List ℕ) → List A → Option A
first_by key [] = none
first_by key (x ∷ xs) = elim (first_by key xs) [
  | none ↦ some x
  | some y ↦ some (if lex_lt (key y) (key x) then y else x)
]

-- The row that `claim_query` selects.
unfoldable pub select_candidate : Db → ℕ → ClaimFilter → Option WorkJob
select_candidate db now f = first_by (rank db now) (keep (is_claimable db now f) db.jobs)
