-- ===== src/Plans/Opening.antt =====
-- manga_manager/application/download_plans.py: what `track` leaves of the plan of a series, and of the
-- job queue.
use manga_manager.Plans.Ready.{Queued}
use manga_manager.Plans.Coverage.{sync_chapters-plans, sync_chapters-queue}
use manga_manager.Plans.Chapters.{sync_chapters}
use manga_manager.Queue.Enqueue.{enqueue}
use manga_manager.Plans.Reconcile.{
  is_plan, advance, close_plan, refresh_of, finish_step, reconcile, turned_phase,
}
use manga_manager.Queue.Coalesce.{EnqueueRequest}
use manga_manager.Queue.Rows.{Db}
use manga_manager.Plans.Tracking.{
  enqueue_acquisition_refreshes, open_plan, enqueue_all, count_created, refresh_request,
  is_acquired_from, track,
}
use manga_manager.Prelude.{
  List, ℕ, All, any, find, Bool-cases, ◌==◌, ◌∷◌, ◌≡◌, Bool, true, inl, Option-cases, inr, map,
  update_where, [], keep, refl, false, subst,
}
use manga_manager.Queue.Store.{Result, ok, raise, ◌>>=◌, after}
use manga_manager.Queue.WellFormed.{IsWellFormed, step-IsWellFormed}
use manga_manager.Queue.Operations.{Call, step}
use manga_manager.Plans.Rows.{Plan, Catalog, Intent}
use manga_manager.Queue.Enqueue.{enqueue}
use manga_manager.Plans.Opened.{
  AllActive, any-none, open_plan-found, any-update_where, open_plan-AllActive, found_active,
}
use manga_manager.Plans.Window.{Holds}
use manga_manager.Prelude.{sym, ◌∙◌, nat_eq}
use manga_manager.Plans.Endings.{IsTrueOf, advance-IsTrueOf, advance-IsWellFormed}

pub enqueue_all-IsWellFormed :
    (rs : List EnqueueRequest) (now : ℕ) (q : Db × ℕ)
    → IsWellFormed q.0
    → Holds (λ (d : Db × ℕ). IsWellFormed d.0) (enqueue_all rs now q)
enqueue_all-IsWellFormed [] now q w = w
enqueue_all-IsWellFormed (r ∷ rs) now (db, created) w =
    next (enqueue db r now) (unfold step in step-IsWellFormed db (Call.enqueue r now) w)
      (λ d v. enqueue_all-IsWellFormed rs now d v)
  where
    next :
        (a : Result (Db × (ℕ × Bool)))
        → IsWellFormed (after db a)
        → ((d : Db × ℕ)
            → IsWellFormed d.0
            → Holds (λ (d : Db × ℕ). IsWellFormed d.0) (enqueue_all rs now d))
        → Holds
            (λ (d : Db × ℕ). IsWellFormed d.0)
            ((a >>= λ q. ok (count_created created q)) >>= enqueue_all rs now)
    next (raise e) h rest = tt
    next (ok (d, answer)) h rest = rest (count_created created (d, answer)) h

refreshes-IsWellFormed :
    (series_id now : ℕ) (k : Catalog)
    → IsWellFormed k.queue
    → Holds (λ (d : Db × ℕ). IsWellFormed d.0) (enqueue_acquisition_refreshes series_id now k)
unfolding enqueue_acquisition_refreshes
refreshes-IsWellFormed series_id now k w =
    elim (Bool-cases (any (λ c. c.series_id == series_id) k.chapters)) [
      | inl e ↦ rw e w
      | inr e ↦ rw e (
          enqueue_all-IsWellFormed
            (map (refresh_request series_id) (keep (is_acquired_from series_id) k.identities)) now
            (k.queue, 0) w)
    ]

-- The plan of a series that `track` leaves.
pub record IsTracked (series_id : ℕ) (k : Catalog) : Type 0 where
  pub planned : any (is_plan series_id) k.plans ≡ true
  pub counts : All (λ p. is_plan series_id p ≡ true → IsTrueOf k.intents p) k.plans
  pub sound : IsWellFormed k.queue

advance-keeps_plan :
    (window now series_id : ℕ) (plan : Plan) (k : Catalog)
    → plan.series_id ≡ series_id
    → any (is_plan series_id) k.plans ≡ true
    → Holds (λ (d : Catalog). any (is_plan series_id) d.plans ≡ true) (advance window plan now k)
unfolding advance close_plan
advance-keeps_plan window now series_id plan k e h = finished _
  where
    synced : Catalog
    synced = sync_chapters plan now k

    refreshed : List Intent
    refreshed = map (refresh_of plan.series_id synced.artifacts synced.queue now) synced.intents

    held : any (is_plan plan.series_id) synced.plans ≡ true
    held = rw (sync_chapters-plans plan now k, e) h

    finished :
        (r : Result Queued)
        → Holds
            (λ (d : Catalog). any (is_plan series_id) d.plans ≡ true)
            (finish_step plan (turned_phase plan refreshed) now synced r)
    finished (raise x) = tt
    finished (ok (db, b, is)) =
        subst
          (λ s.
            any (is_plan s) (
              update_where (is_plan plan.series_id)
                (close_plan (turned_phase plan refreshed) is now) synced.plans)
            ≡ true)
          e
          (any-update_where (close_plan (turned_phase plan refreshed) is now) plan.series_id
            synced.plans (λ _. refl) held)

reconcile-IsTracked :
    (window series_id now : ℕ) (k : Catalog)
    → any (is_plan series_id) k.plans ≡ true
    → AllActive series_id k.plans
    → IsWellFormed k.queue
    → Holds (IsTracked series_id) (reconcile window series_id now k)
unfolding reconcile
reconcile-IsTracked window series_id now k h a w =
    elim (Option-cases (find (is_plan series_id) k.plans)) [
      | inl e ↦ absurd (let bad : true ≡ false = sym h ∙ any-none series_id k.plans e in cc)
      | inr (p, e) ↦
          let (active, same) = found_active p series_id k.plans e a in
          let a' : AllActive p.series_id k.plans = subst (λ s. AllActive s k.plans) (sym same) a in
          rw (e, reconcile, active)
            (gathered (advance window p now k) (advance-keeps_plan window now series_id p k same h)
              (subst
                (λ s.
                  Holds
                    (λ (d : Catalog). All (λ q. is_plan s q ≡ true → IsTrueOf d.intents q) d.plans)
                    (advance window p now k))
                same (advance-IsTrueOf window now p k a'))
              (advance-IsWellFormed window now p k w))
    ]
  where
    gathered :
        (r : Result Catalog)
        → Holds (λ (d : Catalog). any (is_plan series_id) d.plans ≡ true) r
        → Holds
            (λ (d : Catalog). All (λ q. is_plan series_id q ≡ true → IsTrueOf d.intents q) d.plans)
            r
        → Holds (λ (d : Catalog). IsWellFormed d.queue) r
        → Holds (IsTracked series_id) r
    gathered (raise x) p q v = tt
    gathered (ok d) p q v = record { planned = p; counts = q; sound = v }

-- Tracking a series in a well-formed database, whatever plan it had, leaves it with a plan. The plan
-- counts the chapters of the series, the satisfied ones and those that need attention, and it is
-- active unless every chapter has come to an end. The queue stays well formed.
pub track-IsTracked :
    (window series_id now : ℕ) (k : Catalog)
    → IsWellFormed k.queue
    → Holds (IsTracked series_id) (track window series_id now k)
unfolding track
track-IsTracked window series_id now k w =
    reconciled (enqueue_acquisition_refreshes series_id now synced)
      (refreshes-IsWellFormed series_id now synced sound)
  where
    opened : Plan × List Plan
    opened = open_plan series_id now k.plans

    synced : Catalog
    synced = sync_chapters opened.0 now (record k { plans = opened.1 })

    same : synced.plans ≡ opened.1
    same = sync_chapters-plans opened.0 now (record k { plans = opened.1 })

    sound : IsWellFormed synced.queue
    sound = rw (sync_chapters-queue opened.0 now (record k { plans = opened.1 })) w

    reconciled :
        (r : Result (Db × ℕ))
        → Holds (λ (d : Db × ℕ). IsWellFormed d.0) r
        → Holds
            (IsTracked series_id)
            (r >>= λ (db, created). reconcile window series_id now (record synced { queue = db }))
    reconciled (raise e) v = tt
    reconciled (ok (db, created)) v =
        reconcile-IsTracked window series_id now (record synced { queue = db })
          (rw same (open_plan-found series_id now k.plans))
          (subst (AllActive series_id) (sym same) (open_plan-AllActive series_id now k.plans)) v
