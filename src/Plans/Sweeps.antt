-- ===== src/Plans/Sweeps.antt =====
-- manga_manager/application/download_plans.py: `bootstrap`, `reconcile_active`, and what the program asks
-- of `DownloadPlanCoordinator`, as a history of calls. Each call is a transaction; one that raises
-- changes nothing.
use manga_manager.Prelude.{
  ℕ, List, [], ◌∷◌, Text, map, Option, if◌then◌else◌, keep, some, take, txt, none, contains,
  text_eq,
}
use manga_manager.Queue.Rows.{WorkJob, Db}
use manga_manager.Queue.Store.{Result, ok, raise, ◌>>=◌}
use manga_manager.Queue.Permits.{lex_lt}
use manga_manager.Plans.Rows.{Series, Release, Plan, Catalog}
use manga_manager.Plans.Reconcile.{reconcile, is_active_plan, untrack}
use manga_manager.Plans.Tracking.{track, enqueue_preferred_upgrades}
use manga_manager.Plans.Detours.{reroute_chapter, bypass_cooling_source}

-- `TRACKED_STATES`
abbrev pub tracked_states : List Text
tracked_states = txt "interested" ∷ txt "reading" ∷ txt "caught_up" ∷ txt "paused" ∷ []

abbrev pub tracked_ids : List Series → List ℕ
tracked_ids rows = map (λ s. s.id) (keep (λ s. contains tracked_states s.status) rows)

unfoldable pub for_each_series : (ℕ → Catalog → Result Catalog) → List ℕ → Catalog → Result Catalog
for_each_series step [] k = ok k
for_each_series step (id ∷ ids) k = step id k >>= for_each_series step ids

abbrev pub with_queue : Catalog → Result (Db × ℕ) → Result Catalog
with_queue k (raise e) = raise e
with_queue k (ok (db, created)) = ok (record k { queue = db })

unfoldable pub bootstrap : ℕ → ℕ → Catalog → Result Catalog
bootstrap window now k =
    let ids = tracked_ids k.series in
    for_each_series (λ id. track window id now) ids k >>= λ d.
    with_queue d (enqueue_preferred_upgrades ids now d)

-- `order_by(updated_at, series_id)`
abbrev pub plan_key : Plan → List ℕ
plan_key p = p.updated_at ∷ p.series_id ∷ []

unfoldable pub insert_plan : Plan → List Plan → List Plan
insert_plan p [] = p ∷ []
insert_plan p (q ∷ qs) =
    if lex_lt (plan_key q) (plan_key p) then q ∷ insert_plan p qs else p ∷ q ∷ qs

unfoldable pub sort_plans : List Plan → List Plan
sort_plans [] = []
sort_plans (p ∷ ps) = insert_plan p (sort_plans ps)

unfoldable pub reconcile_active : ℕ → ℕ → ℕ → Catalog → Result Catalog
reconcile_active window limit now k =
    for_each_series (λ id. reconcile window id now)
      (map (λ p. p.series_id) (take limit (sort_plans (keep is_active_plan k.plans)))) k

pub data PlanCall : Type 0 where
  track_series : (series_id now : ℕ) → PlanCall
  untrack_series : (series_id now : ℕ) → PlanCall
  reconcile_series : (series_id now : ℕ) → PlanCall
  reconcile_oldest : (limit now : ℕ) → PlanCall
  bootstrap_all : (now : ℕ) → PlanCall
  bypass_source : (source : Text) (retry_after now : ℕ) → PlanCall
  reroute_download :
      (job : WorkJob) (failed alternative : Release) (code message : Text) (retry_after : Option ℕ)
      (now : ℕ)
      → PlanCall
  upgrade_series : (series_ids : List ℕ) (now : ℕ) → PlanCall

abbrev pub or_unchanged : Catalog → Result Catalog → Catalog
or_unchanged k (raise e) = k
or_unchanged k (ok d) = d

abbrev pub or_unmoved : Catalog → Result (Option Catalog) → Catalog
or_unmoved k (raise e) = k
or_unmoved k (ok none) = k
or_unmoved k (ok (some d)) = d

abbrev pub or_kept : Catalog → Result (Catalog × ℕ) → Catalog
or_kept k (raise e) = k
or_kept k (ok q) = q.0

unfoldable pub call_plans : ℕ → Catalog → PlanCall → Catalog
call_plans window k (PlanCall.track_series id now) = or_unchanged k (track window id now k)
call_plans window k (PlanCall.untrack_series id now) = untrack id now k
call_plans window k (PlanCall.reconcile_series id now) = or_unchanged k (reconcile window id now k)
call_plans window k (PlanCall.reconcile_oldest limit now) =
    or_unchanged k (reconcile_active window limit now k)
call_plans window k (PlanCall.bootstrap_all now) = or_unchanged k (bootstrap window now k)
call_plans window k (PlanCall.bypass_source source retry_after now) =
    or_kept k (bypass_cooling_source source retry_after now k)
call_plans window k
      (PlanCall.reroute_download job failed alternative code message retry_after now) =
    or_unmoved k (reroute_chapter job failed alternative code message retry_after now k)
call_plans window k (PlanCall.upgrade_series ids now) =
    or_unchanged k (with_queue k (enqueue_preferred_upgrades ids now k))

unfoldable pub call_all : ℕ → Catalog → List PlanCall → Catalog
call_all window k [] = k
call_all window k (c ∷ cs) = call_all window (call_plans window k c) cs
