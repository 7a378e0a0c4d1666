-- ===== src/Queue/Policies.antt =====
-- manga_manager/infrastructure/job_queue.py: the limit of a provider under its learned policy.
use manga_manager.Queue.Store.{expires_after, expired_at}
use manga_manager.Queue.Rows.{ProviderPolicy}
use manga_manager.Prelude.{
  ℕ, ◌≡◌, ◌≤◌, ◌<◌, inl, inr, Option, some, none, min, max, Bool-cases, ltb, ◌+◌, false, ◌/◌, arith,
  refl,
}
use manga_manager.Queue.Limits.{policy_limit, paced, adapted, cap_at, clean_bonus}

-- A limit that is no more than another, and not nothing unless the other is.
abbrev pub Lowers : ℕ → Option ℕ → Type 0
Lowers n o = (m : ℕ) × (o ≡ some m) × (m ≤ n) × (0 < n → 0 < m)

cap_at-Lowers : (n k : ℕ) (o : Option ℕ) → 0 < k → Lowers n o → Lowers n (cap_at k o)
cap_at-Lowers n k o pos (m, e, le, keeps) =
    (min m k, rw e, omega arith, λ q. let kept = keeps q in omega arith)

paced-Lowers :
    (window n : ℕ) (p : ProviderPolicy) (o : Option ℕ) → Lowers n o → Lowers n (paced window p o)
paced-Lowers window n p o h = elim (Bool-cases (ltb 0 p.request_interval)) [
  | inl e ↦ rw e (cap_at-Lowers n (max 1 (window / p.request_interval)) o (omega arith) h)
  | inr e ↦ rw e h
]

adapted-Lowers :
    (now n : ℕ) (p : ProviderPolicy) (l o : Option ℕ) → Lowers n o → Lowers n (adapted now p l o)
adapted-Lowers now n p none o h = h
adapted-Lowers now n p (some limited) o h =
    cap_at-Lowers n (max 1 p.learned_job_limit + clean_bonus now p p.clean_since limited) o
      (omega arith) h

-- While a policy explores no higher tier, the limit of its provider is no more than the configured
-- limit, and it is above 0 unless the configured limit is 0.
pub policy_limit-Lowers :
    (window now n : ℕ) (p : ProviderPolicy)
    → expires_after now p.exploration.until ≡ false
    → Lowers n (policy_limit window now p (some n))
unfolding policy_limit
policy_limit-Lowers window now n p idle = elim (Bool-cases (expired_at now p.expires_at)) [
  | inl e ↦ rw e (n, refl, omega arith, λ q. q)
  | inr e ↦
      rw (e, idle)
        (adapted-Lowers now n p p.last_limited_at (paced window p (some n))
          (paced-Lowers window n p (some n) (n, refl, omega arith, λ h. h)))
]
