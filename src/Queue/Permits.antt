-- ===== src/Queue/Permits.antt =====
-- manga_manager/infrastructure/job_queue.py: `_acquire_permits`, which lets one job start within
-- the limits, or refuses it. The advisory locks have no counterpart: operations run one by one.
use manga_manager.Prelude.{
  ℕ, Bool, true, false, not, ◌&&◌, ◌||◌, List, [], ◌∷◌, ◌++◌, Option, none, some, Text, txt, ◌==◌,
  nat_eq, text_eq, ltb, leb, if◌then◌else◌, any, is_some, starts_with, is_empty,
}
use manga_manager.Domain.Jobs.{JobKind, chapter_download, library_repair, kind_eq, state_eq}
use manga_manager.Queue.Rows.{WorkJob, JobPermit, Db}
use manga_manager.Queue.Store.{live_lease}
use manga_manager.Queue.Routing.{is_mutating, is_network_job}
use manga_manager.Queue.Limits.{Limits, limit_of, active_permits, effective_provider_limit}

-- The order of tuples and of strings.
unfoldable pub lex_lt : List ℕ → List ℕ → Bool
lex_lt [] [] = false
lex_lt [] (b ∷ bs) = true
lex_lt (a ∷ as') [] = false
lex_lt (a ∷ as') (b ∷ bs) = ltb a b || (a == b && lex_lt as' bs)

-- `sorted(set(...))`, one pool at a time.
unfoldable pub insert_pool : Text → List Text → List Text
insert_pool x [] = x ∷ []
insert_pool x (y ∷ ys) =
    if x == y then y ∷ ys else if lex_lt x y then x ∷ y ∷ ys else y ∷ insert_pool x ys

unfoldable pub sort_pools : List Text → List Text
sort_pools [] = []
sort_pools (x ∷ xs) = if is_empty x then sort_pools xs else insert_pool x (sort_pools xs)

-- The pools that a job takes a permit of.
unfoldable pub permit_pools : WorkJob → List Text
permit_pools job = sort_pools (job.pool ∷ network ++ chapter)
  where
    network : List Text
    network =
        if is_network_job job
        then txt "network_global"
          ∷ (if is_empty job.source then [] else (txt "provider:" ++ job.source) ∷ [])
        else []

    chapter : List Text
    chapter = if job.kind == chapter_download then txt "chapter_global" ∷ [] else []

-- A download conflicts with a repair of its series, and a repair with both.
abbrev pub conflicts_with : JobKind → JobKind → Bool
conflicts_with kind other =
    if kind == chapter_download then other == library_repair else is_mutating other

-- A live lease on the same series that excludes the job.
unfoldable pub series_conflict : Db → ℕ → WorkJob → Bool
series_conflict db now job =
    is_mutating job.kind
    && not (is_empty job.series_key)
    && any
        (λ j. conflicts_with job.kind j.kind && live_lease now j && j.series_key == job.series_key)
        db.jobs

abbrev pub provider_scoped : Text → Bool
provider_scoped pool =
    starts_with (txt "download:") pool
    || starts_with (txt "refresh:") pool
    || starts_with (txt "provider:") pool

abbrev pub at_limit : Option ℕ → ℕ → Bool
at_limit none n = false
at_limit (some limit) n = leb limit n

-- The limit of one pool for a job, under the policy of the job's provider.
unfoldable pub pool_limit : Db → ℕ → Limits → ℕ → Text → Text → Option ℕ
pool_limit db now limits window source pool =
    if provider_scoped pool && not (is_empty source)
    then effective_provider_limit db source (limit_of limits pool) now window
    else limit_of limits pool

unfoldable pub any_full : Db → ℕ → Limits → ℕ → Text → List Text → Bool
any_full db now limits window source [] = false
any_full db now limits window source (pool ∷ pools) =
    at_limit (pool_limit db now limits window source pool) (active_permits db now pool)
    || any_full db now limits window source pools

abbrev pub new_permit : ℕ → Text → ℕ → Text → JobPermit
new_permit job_id owner expires_at pool = record {
  job_id = job_id;
  pool = pool;
  owner = owner;
  lease_expires_at = expires_at;
}

-- A permit in each pool that has a configured limit.
unfoldable pub new_permits : ℕ → Text → ℕ → Limits → List Text → List JobPermit
new_permits job_id owner expires_at limits [] = []
new_permits job_id owner expires_at limits (pool ∷ pools) =
    let rest = new_permits job_id owner expires_at limits pools in
    if is_some (limit_of limits pool) then new_permit job_id owner expires_at pool ∷ rest else rest

-- `_acquire_permits`; `none` is a refusal, which writes nothing.
unfoldable pub acquire_permits : Db → WorkJob → Text → ℕ → ℕ → Limits → ℕ → Option Db
acquire_permits db job owner expires_at now limits window =
    if series_conflict db now job
    then none
    else if any_full db now limits window job.source (permit_pools job)
    then none
    else some (record db {
      permits = new_permits job.id owner expires_at limits (permit_pools job) ++ db.permits;
    })
