-- ===== src/Queue/Limits.antt =====
-- manga_manager/infrastructure/job_queue.py: the permits of leased jobs against the configured
-- limits, and the limit of a provider under its learned policy.
use manga_manager.Prelude.{
  ℕ, ◌+◌, ◌-◌, ◌*◌, ◌/◌, Bool, false, not, ◌&&◌, List, [], ◌∷◌, Option, none, some, Text, txt, ◌==◌,
  nat_eq, text_eq, ltb, leb, if◌then◌else◌, min, max, count_if, find, starts_with, remove_prefix,
  zero, suc,
}
use manga_manager.Queue.Rows.{
  ProviderPolicy, Exploration, TierText, no_tier, tier_number, unreadable_tier, Db,
}
use manga_manager.Queue.Store.{expired_at, expires_after}

abbrev pub Limits : Type 0
Limits = List (Text × ℕ)

-- `limits.get(pool)`
unfoldable pub limit_of : Limits → Text → Option ℕ
limit_of [] pool = none
limit_of ((p, n) ∷ limits) pool = if p == pool then some n else limit_of limits pool

-- The permits of a pool that count at `now`.
unfoldable pub active_permits : Db → ℕ → Text → ℕ
active_permits db now pool = count_if (λ p. p.pool == pool && ltb now p.lease_expires_at) db.permits

-- `_permit_pool_full`
unfoldable pub permit_pool_full : Db → ℕ → Limits → Text → Bool
permit_pool_full db now limits pool = elim (limit_of limits pool) [
  | none ↦ false
  | some limit ↦ leb limit (active_permits db now pool)
]

-- `_saturated_direct_pools`
unfoldable pub saturated_direct_pools : Db → ℕ → Limits → List Text
saturated_direct_pools db now [] = []
saturated_direct_pools db now ((pool, limit) ∷ limits) =
    let rest = saturated_direct_pools db now limits in
    if not (pool == txt "network_global")
      && not (pool == txt "chapter_global")
      && leb limit (active_permits db now pool)
    then pool ∷ rest
    else rest

-- `min(limit, n) if limit is not None else n`
abbrev pub cap_at : ℕ → Option ℕ → Option ℕ
cap_at n none = some n
cap_at n (some limit) = some (min limit n)

-- `int(pacing_window / request_interval)`, at least 1.
abbrev pub paced : ℕ → ProviderPolicy → Option ℕ → Option ℕ
paced window p limit =
    if ltb 0 p.request_interval then cap_at (max 1 (window / p.request_interval)) limit else limit

-- A provider that was limited keeps its learned tier, and gains one for each recovery window
-- since it is clean.
abbrev pub clean_bonus : ℕ → ProviderPolicy → Option ℕ → ℕ → ℕ
clean_bonus now p none limited = 0
clean_bonus now p (some clean) limited =
    if ltb limited clean then (now - clean) / (1000000 * max p.cooldown_seconds 300) else 0

abbrev pub adapted : ℕ → ProviderPolicy → Option ℕ → Option ℕ → Option ℕ
adapted now p none limit = limit
adapted now p (some limited) limit =
    cap_at (max 1 p.learned_job_limit + clean_bonus now p p.clean_since limited) limit

-- `a or b` on an optional number: 0 counts as missing.
abbrev or_number : Option ℕ → ℕ → ℕ
or_number none d = d
or_number (some zero) d = d
or_number (some (suc n)) d = suc n

-- A tier that is no number raises, which leaves the limit as it was.
abbrev explored_tier : TierText → Option ℕ → Option ℕ
explored_tier no_tier limit = some (or_number limit 1)
explored_tier (tier_number n) limit =
    some (max (or_number limit 1) (or_number (some n) (or_number limit 1)))
explored_tier unreadable_tier limit = limit

abbrev pub explored : ℕ → Exploration → Option ℕ → Option ℕ
explored now e limit = if expires_after now e.until then explored_tier e.tier limit else limit

unfoldable pub policy_limit : ℕ → ℕ → ProviderPolicy → Option ℕ → Option ℕ
policy_limit window now p limit =
    if expired_at now p.expires_at
    then limit
    else explored now p.exploration (adapted now p p.last_limited_at (paced window p limit))

-- `_effective_provider_limit`
unfoldable pub effective_provider_limit : Db → Text → Option ℕ → ℕ → ℕ → Option ℕ
effective_provider_limit db source limit now window =
    elim (find (λ p. p.source == source) db.policies) [
      | none ↦ limit
      | some p ↦ policy_limit window now p limit
    ]

abbrev full_at : Option ℕ → ℕ → Bool
full_at none n = false
full_at (some limit) n = leb limit n

-- `_saturated_provider_sources`
unfoldable pub saturated_provider_sources : Db → ℕ → ℕ → Limits → List Text
saturated_provider_sources db now window [] = []
saturated_provider_sources db now window ((pool, limit) ∷ limits) =
    let rest = saturated_provider_sources db now window limits in
    let source = remove_prefix (txt "provider:") pool in
    if starts_with (txt "provider:") pool
      && full_at (effective_provider_limit db source (some limit) now window)
          (active_permits db now pool)
    then source ∷ rest
    else rest
