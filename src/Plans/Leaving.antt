-- ===== src/Plans/Leaving.antt =====
-- manga_manager/application/download_plans.py: which jobs `bypass_cooling_source` changes, and how.
use manga_manager.Plans.Rows.{Catalog}
use manga_manager.Queue.Rows.{Db, WorkJob}
use manga_manager.Plans.Detours.{bypass_cooling_source, bypass_all, is_waiting_download, bypass_job}
use manga_manager.Prelude.{
  ◌≡◌, inl, inr, refl, [], ◌∷◌, Text, ℕ, Pointwise, ◌⊎◌, Pointwise-trans, List, In, keep, ◌+◌, true,
  keep-In, sym, Pointwise-mono_In,
}
use manga_manager.Queue.Store.{Result, ok, raise, ◌>>=◌}
use manga_manager.Queue.Exclusion.{Descending-unique}
use manga_manager.Queue.WellFormed.{IsWellFormed}
use manga_manager.Plans.Window.{Holds}
use manga_manager.Plans.Bypass.{
  Bypasses, Bypassing, Bypasses-trans, LeavesSource, same_queue, bypass_job-Bypassing,
}

module _ (source : Text) (retry_after : ℕ) (target : ℕ → Type 0) where
  chain :
      (a b c : Db)
      → Bypassing source retry_after target a b
      → Bypassing source retry_after target b c
      → Bypassing source retry_after target a c
  chain a b c p q = record {
    rows =
        Pointwise-trans (Bypasses source retry_after target) a.jobs b.jobs c.jobs
          (Bypasses-trans source retry_after target) p.rows q.rows;
    sound = λ w. q.sound (p.sound w);
  }

  bypass_all-Bypassing :
      (now : ℕ) (js : List WorkJob) (k : Catalog)
      → ((j : WorkJob) → In j js → target j.id)
      → Holds
          (λ (r : Catalog × ℕ). Bypassing source retry_after target k.queue r.0.queue)
          (bypass_all source retry_after now js k)
  unfolding bypass_all
  bypass_all-Bypassing now [] k t = same_queue source retry_after target k.queue
  bypass_all-Bypassing now (j ∷ js) k t =
      afterwards (bypass_job source retry_after now j k)
        (bypass_job-Bypassing source retry_after target now j k (t j (inl refl)))
        (λ d. bypass_all-Bypassing now js d (λ i m. t i (inr m)))
    where
      counted :
          (n : ℕ) (r : Result (Catalog × ℕ))
          → Holds (λ (q : Catalog × ℕ). Bypassing source retry_after target k.queue q.0.queue) r
          → Holds
              (λ (q : Catalog × ℕ). Bypassing source retry_after target k.queue q.0.queue)
              (r >>= λ (d, m). ok (d, n + m))
      counted n (raise e) h = tt
      counted n (ok q) h = h

      weaken :
          (d : Catalog) (r : Result (Catalog × ℕ))
          → Bypassing source retry_after target k.queue d.queue
          → Holds (λ (q : Catalog × ℕ). Bypassing source retry_after target d.queue q.0.queue) r
          → Holds (λ (q : Catalog × ℕ). Bypassing source retry_after target k.queue q.0.queue) r
      weaken d (raise e) b h = tt
      weaken d (ok q) b h = chain k.queue d.queue q.0.queue b h

      afterwards :
          (r : Result (Catalog × ℕ))
          → Holds (λ (q : Catalog × ℕ). Bypassing source retry_after target k.queue q.0.queue) r
          → ((d : Catalog)
              → Holds
                  (λ (q : Catalog × ℕ). Bypassing source retry_after target d.queue q.0.queue)
                  (bypass_all source retry_after now js d))
          → Holds
              (λ (q : Catalog × ℕ). Bypassing source retry_after target k.queue q.0.queue)
              (r >>= λ (d, n). bypass_all source retry_after now js d >>= λ (d', m). ok (d', n + m))
      afterwards (raise e) h rest = tt
      afterwards (ok (d, n)) h rest =
          counted n (bypass_all source retry_after now js d)
            (weaken d (bypass_all source retry_after now js d) h (rest d))

-- A job stays as it was, or it is a waiting download of the provider and leaves it.
abbrev pub StaysOrLeaves : Text → ℕ → WorkJob → WorkJob → Type 0
StaysOrLeaves source retry_after j k =
    (k ≡ j) ⊎ ((is_waiting_download source j ≡ true) × LeavesSource source retry_after j k)

-- While a provider is cooling down, in a well-formed database the downloads of it that wait may
-- change, and no other job: each that does waits until the given time or is sent to another
-- provider, its attempts kept. The queue stays well formed.
pub bypass_cooling_source-Leaves :
    (source : Text) (retry_after now : ℕ) (k : Catalog)
    → IsWellFormed k.queue
    → Holds
        (λ r.
          Pointwise (StaysOrLeaves source retry_after) k.queue.jobs r.0.queue.jobs
          × IsWellFormed r.0.queue)
        (bypass_cooling_source source retry_after now k)
unfolding bypass_cooling_source
bypass_cooling_source-Leaves source retry_after now k w =
    finished (bypass_all source retry_after now found k)
      (bypass_all-Bypassing source retry_after target now found k (λ j m. (j, m, refl)))
  where
    found : List WorkJob
    found = keep (is_waiting_download source) k.queue.jobs

    target : ℕ → Type 0
    target id = (j : WorkJob) × In j found × (j.id ≡ id)

    was_found :
        (j : WorkJob) → In j k.queue.jobs → target j.id → is_waiting_download source j ≡ true
    was_found j m (x, there, same) =
        let (here, t) = keep-In (is_waiting_download source) k.queue.jobs x there in
        rw (Descending-unique k.queue.next_job_id k.queue.jobs j x w.ids m here (sym same)) t

    told :
        (j x : WorkJob)
        → In j k.queue.jobs
        → Bypasses source retry_after target j x
        → StaysOrLeaves source retry_after j x
    told j x m (inl e) = inl e
    told j x m (inr (t, l)) = inr (was_found j m t, l)

    finished :
        (r : Result (Catalog × ℕ))
        → Holds (λ q. Bypassing source retry_after target k.queue q.0.queue) r
        → Holds
            (λ q.
              Pointwise (StaysOrLeaves source retry_after) k.queue.jobs q.0.queue.jobs
              × IsWellFormed q.0.queue)
            r
    finished (raise e) h = tt
    finished (ok q) h = (
      Pointwise-mono_In (Bypasses source retry_after target) (StaysOrLeaves source retry_after)
          k.queue.jobs q.0.queue.jobs told h.rows,
      h.sound w,
    )
