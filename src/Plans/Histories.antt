-- ===== src/Plans/Histories.antt =====
-- manga_manager/application/download_plans.py: every operation keeps the job queue well formed.
use manga_manager.Plans.Reconcile.{reconcile, is_plan, is_active_plan}
use manga_manager.Plans.Detours.{reroute_chapter, rerouted, validate_download, rerouting}
use manga_manager.Plans.Tracking.{enqueue_preferred_upgrades, track}
use manga_manager.Prelude.{
  ℕ, Option-cases, List, Text, Pointwise, ◌∷◌, find, Option, [], inl, inr, Bool-cases, Bool, false,
  true,
}
use manga_manager.Queue.Rows.{WorkJob, Db}
use manga_manager.Queue.Store.{Result, ok, raise, ◌>>=◌, after}
use manga_manager.Queue.WellFormed.{IsWellFormed, step-IsWellFormed}
use manga_manager.Queue.Operations.{Call, step}
use manga_manager.Plans.Rows.{Release, Catalog}
use manga_manager.Queue.Waiting.{reroute}
use manga_manager.Plans.Reconcile.{is_active_plan}
use manga_manager.Plans.Window.{Holds}
use manga_manager.Plans.Endings.{advance-IsWellFormed}
use manga_manager.Plans.Opening.{enqueue_all-IsWellFormed, track-IsTracked, IsTracked}
use manga_manager.Plans.Leaving.{bypass_cooling_source-Leaves, StaysOrLeaves}
use manga_manager.Plans.Untracking.{untrack-Clears}
use manga_manager.Plans.Sweeps.{
  PlanCall, call_plans, call_all, bootstrap, for_each_series, reconcile_active, or_unchanged,
  with_queue, tracked_ids, or_unmoved, or_kept,
}

-- A result whose catalog has a well-formed queue.
abbrev Sound : Result Catalog → Type 0
Sound r = Holds (λ (d : Catalog). IsWellFormed d.queue) r

for_each_series-Sound :
    (step : ℕ → Catalog → Result Catalog) (ids : List ℕ) (k : Catalog)
    → ((id : ℕ) (d : Catalog) → IsWellFormed d.queue → Sound (step id d))
    → IsWellFormed k.queue
    → Sound (for_each_series step ids k)
unfolding for_each_series
for_each_series-Sound step [] k h w = w
for_each_series-Sound step (id ∷ ids) k h w =
    next (step id k) (h id k w) (λ d v. for_each_series-Sound step ids d h v)
  where
    next :
        (r : Result Catalog)
        → Sound r
        → ((d : Catalog) → IsWellFormed d.queue → Sound (for_each_series step ids d))
        → Sound (r >>= for_each_series step ids)
    next (raise e) v rest = tt
    next (ok d) v rest = rest d v

track-Sound :
    (window id now : ℕ) (k : Catalog) → IsWellFormed k.queue → Sound (track window id now k)
track-Sound window id now k w = sound (track window id now k) (track-IsTracked window id now k w)
  where
    sound : (r : Result Catalog) → Holds (IsTracked id) r → Sound r
    sound (raise e) h = tt
    sound (ok d) h = h.sound

reconcile-Sound :
    (window id now : ℕ) (k : Catalog) → IsWellFormed k.queue → Sound (reconcile window id now k)
unfolding reconcile
reconcile-Sound window id now k w = elim (Option-cases (find (is_plan id) k.plans)) [
  | inl e ↦ rw (e, reconcile) w
  | inr (p, e) ↦ elim (Bool-cases (is_active_plan p)) [
    | inl t ↦ rw (e, reconcile, t) (advance-IsWellFormed window now p k w)
    | inr t ↦ rw (e, reconcile, t) w
  ]
]

upgrades-Sound :
    (ids : List ℕ) (now : ℕ) (k : Catalog)
    → IsWellFormed k.queue
    → Sound (with_queue k (enqueue_preferred_upgrades ids now k))
unfolding enqueue_preferred_upgrades
upgrades-Sound ids now k w = sound _ (enqueue_all-IsWellFormed _ now (k.queue, 0) w)
  where
    sound :
        (r : Result (Db × ℕ)) → Holds (λ (q : Db × ℕ). IsWellFormed q.0) r → Sound (with_queue k r)
    sound (raise e) h = tt
    sound (ok q) h = h

bootstrap-Sound :
    (window now : ℕ) (k : Catalog) → IsWellFormed k.queue → Sound (bootstrap window now k)
unfolding bootstrap
bootstrap-Sound window now k w =
    upgraded (for_each_series (λ id. track window id now) (tracked_ids k.series) k) (
      for_each_series-Sound (λ id. track window id now) (tracked_ids k.series) k
        (λ id d v. track-Sound window id now d v) w)
  where
    upgraded :
        (r : Result Catalog)
        → Sound r
        → Sound (r >>= λ d. with_queue d (enqueue_preferred_upgrades (tracked_ids k.series) now d))
    upgraded (raise e) h = tt
    upgraded (ok d) h = upgrades-Sound (tracked_ids k.series) now d h

reroute-IsWellFormed :
    (k : Catalog) (job : WorkJob) (failed alternative : Release) (code message : Text)
    (retry_after : Option ℕ) (now : ℕ)
    → IsWellFormed k.queue
    → IsWellFormed
        (or_unmoved k (reroute_chapter job failed alternative code message retry_after now k)).queue
unfolding reroute_chapter
reroute-IsWellFormed k job failed alternative code message retry_after now w =
    elim (Option-cases (validate_download job.payload)) [
      | inl e ↦ rw (e, reroute_chapter, or_unmoved) w
      | inr (p, e) ↦
          rw (e, reroute_chapter)
            (moved
              (reroute k.queue job.id job.lease_owner (rerouting p failed alternative code now) now)
              (unfold step in
                step-IsWellFormed k.queue
                  (Call.reroute job.id job.lease_owner (rerouting p failed alternative code now)
                    now)
                  w))
    ]
  where
    moved :
        (r : Result (Db × Bool))
        → IsWellFormed (after k.queue r)
        → IsWellFormed
            (or_unmoved k (rerouted job failed alternative code message retry_after now k r)).queue
    moved (raise e) h = w
    moved (ok (db, false)) h = w
    moved (ok (db, true)) h = h

unchanged :
    (k : Catalog) (r : Result Catalog)
    → IsWellFormed k.queue
    → Sound r
    → IsWellFormed (or_unchanged k r).queue
unchanged k (raise e) w h = w
unchanged k (ok d) w h = h

call_plans-IsWellFormed :
    (window : ℕ) (k : Catalog) (c : PlanCall)
    → IsWellFormed k.queue
    → IsWellFormed (call_plans window k c).queue
unfolding call_plans reconcile_active
call_plans-IsWellFormed window k (PlanCall.track_series id now) w =
    unchanged k _ w (track-Sound window id now k w)
call_plans-IsWellFormed window k (PlanCall.untrack_series id now) w = (untrack-Clears id now k w).2
call_plans-IsWellFormed window k (PlanCall.reconcile_series id now) w =
    unchanged k _ w (reconcile-Sound window id now k w)
call_plans-IsWellFormed window k (PlanCall.reconcile_oldest limit now) w = unchanged k _ w (
    for_each_series-Sound (λ id. reconcile window id now) _ k
      (λ id d v. reconcile-Sound window id now d v) w)
call_plans-IsWellFormed window k (PlanCall.bootstrap_all now) w =
    unchanged k _ w (bootstrap-Sound window now k w)
call_plans-IsWellFormed window k (PlanCall.bypass_source source retry_after now) w =
    kept _ (bypass_cooling_source-Leaves source retry_after now k w)
  where
    kept :
        (r : Result (Catalog × ℕ))
        → Holds
            (λ (q : Catalog × ℕ).
              Pointwise (StaysOrLeaves source retry_after) k.queue.jobs q.0.queue.jobs
              × IsWellFormed q.0.queue)
            r
        → IsWellFormed (or_kept k r).queue
    kept (raise e) h = w
    kept (ok q) h = h.1
call_plans-IsWellFormed window k
      (PlanCall.reroute_download job failed alternative code message at now) w =
    reroute-IsWellFormed k job failed alternative code message at now w
call_plans-IsWellFormed window k (PlanCall.upgrade_series ids now) w =
    unchanged k _ w (upgrades-Sound ids now k w)

-- Over any history of calls of the coordinator of download plans the job queue stays well formed.
pub call_all-IsWellFormed :
    (window : ℕ) (k : Catalog) (cs : List PlanCall)
    → IsWellFormed k.queue
    → IsWellFormed (call_all window k cs).queue
unfolding call_all
call_all-IsWellFormed window k [] w = w
call_all-IsWellFormed window k (c ∷ cs) w =
    call_all-IsWellFormed window (call_plans window k c) cs (call_plans-IsWellFormed window k c w)
