-- ===== src/Plans/Endings.antt =====
-- manga_manager/application/download_plans.py: what a plan says of its chapters after a step, and that
-- its steps keep the job queue well formed.
use manga_manager.Prelude.{
  ◌≡◌, ℕ, Bool, true, false, List, [], ◌∷◌, refl, any, count_if, Option-cases, Bool-cases, map,
  All-update_where, inl, All, arith, sym, inr, ◌∙◌,
}
use manga_manager.Queue.Rows.{Db}
use manga_manager.Queue.Store.{Result, ok, raise, after}
use manga_manager.Queue.Enqueue.{enqueue}
use manga_manager.Queue.Coalesce.{EnqueueRequest}
use manga_manager.Queue.Operations.{Call, step}
use manga_manager.Queue.WellFormed.{IsWellFormed, step-IsWellFormed}
use manga_manager.Plans.Rows.{Release, Tier, IntentState, Intent, Plan, Phase, Catalog}
use manga_manager.Plans.Choice.{best_release}
use manga_manager.Plans.Chapters.{sync_chapters}
use manga_manager.Plans.Ready.{
  in_series, PlacedIntent, Queued, take_up, place_intent, is_ready_intent, with_first, after_placed,
  enqueue_tier, then_tier, enqueue_ready, chapter_request,
}
use manga_manager.Plans.Reconcile.{
  refresh_of, turned, turned_phase, is_in_state, is_unfinished, close_plan, is_plan, finish_step,
  advance, is_active_plan,
}
use manga_manager.Plans.Coverage.{sync_chapters-plans, sync_chapters-queue}
use manga_manager.Plans.Window.{Holds}

-- What a plan says of the intents of its series.
pub record IsTrueOf (is : List Intent) (p : Plan) : Type 0 where
  pub total : p.total_chapters ≡ count_if (in_series p.series_id) is
  pub satisfied : p.satisfied_chapters ≡ count_if (is_in_state p.series_id IntentState.satisfied) is
  pub attention : p.attention_chapters ≡ count_if (is_in_state p.series_id IntentState.attention) is
  pub complete : is_active_plan p ≡ false → any (is_unfinished p.series_id) is ≡ false

close_plan-IsTrueOf :
    (phase : Phase) (is : List Intent) (now : ℕ) (p : Plan)
    → is_active_plan p ≡ true
    → IsTrueOf is (close_plan phase is now p)
unfolding close_plan
close_plan-IsTrueOf phase is now p h = record {
  total = refl;
  satisfied = refl;
  attention = refl;
  complete = λ c. ground arith;
}

-- After a step of a plan whose series has no plan that is not active, a plan of the series counts
-- its chapters, those that are satisfied and those that need attention, and if it is no longer
-- active then every chapter of the series has come to an end.
pub advance-IsTrueOf :
    (window now : ℕ) (plan : Plan) (k : Catalog)
    → All (λ p. is_plan plan.series_id p ≡ true → is_active_plan p ≡ true) k.plans
    → Holds
        (λ d. All (λ p. is_plan plan.series_id p ≡ true → IsTrueOf d.intents p) d.plans)
        (advance window plan now k)
unfolding advance
advance-IsTrueOf window now plan k a =
    finished
      (enqueue_ready synced.releases plan.series_id window now synced.queue (turned plan refreshed))
  where
    synced : Catalog
    synced = sync_chapters plan now k

    refreshed : List Intent
    refreshed = map (refresh_of plan.series_id synced.artifacts synced.queue now) synced.intents

    same : synced.plans ≡ k.plans
    same = sync_chapters-plans plan now k

    finished :
        (r : Result Queued)
        → Holds
            (λ d. All (λ p. is_plan plan.series_id p ≡ true → IsTrueOf d.intents p) d.plans)
            (finish_step plan (turned_phase plan refreshed) now synced r)
    finished (raise e) = tt
    finished (ok (db, b, is)) =
        All-update_where (λ p. is_plan plan.series_id p ≡ true → is_active_plan p ≡ true)
          (λ p. is_plan plan.series_id p ≡ true → IsTrueOf is p) (is_plan plan.series_id)
          (close_plan (turned_phase plan refreshed) is now) synced.plans
          (λ p t h _. close_plan-IsTrueOf (turned_phase plan refreshed) is now p (h t))
          (λ p f h t. absurd (let bad : true ≡ false = sym t ∙ f in cc)) (rw same a)

-- The queue of a result stays well formed.
take_up-IsWellFormed :
    (now active : ℕ) (db : Db) (i : Intent) (r : EnqueueRequest)
    → IsWellFormed db
    → Holds (λ p. IsWellFormed p.0) (take_up now active i (enqueue db r now))
take_up-IsWellFormed now active db i r w =
    taken (enqueue db r now) (unfold step in step-IsWellFormed db (Call.enqueue r now) w)
  where
    taken :
        (a : Result (Db × (ℕ × Bool)))
        → IsWellFormed (after db a)
        → Holds (λ p. IsWellFormed p.0) (take_up now active i a)
    taken (raise e) h = tt
    taken (ok (d, answer)) h = h

place_intent-IsWellFormed :
    (releases : List Release) (window now active : ℕ) (db : Db) (i : Intent)
    → IsWellFormed db
    → Holds (λ p. IsWellFormed p.0) (place_intent releases window now db active i)
unfolding place_intent
place_intent-IsWellFormed releases window now active db i w =
    elim (Option-cases (best_release releases i.chapter_id now)) [
      | inl e ↦ rw (e, place_intent) w
      | inr (r, e) ↦
          rw (e, place_intent) (take_up-IsWellFormed now active db i (chapter_request i r) w)
    ]

with_first-IsWellFormed :
    (i : Intent) (r : Result Queued)
    → Holds (λ q. IsWellFormed q.0) r
    → Holds (λ q. IsWellFormed q.0) (with_first i r)
with_first-IsWellFormed i (raise e) h = tt
with_first-IsWellFormed i (ok (db, b, js)) h = h

after_placed-IsWellFormed :
    (rest : Db → ℕ → Result Queued) (r : Result PlacedIntent)
    → Holds (λ p. IsWellFormed p.0) r
    → ((db : Db) (b : ℕ) → IsWellFormed db → Holds (λ q. IsWellFormed q.0) (rest db b))
    → Holds (λ q. IsWellFormed q.0) (after_placed rest r)
after_placed-IsWellFormed rest (raise e) h g = tt
after_placed-IsWellFormed rest (ok (db, b, i)) h g =
    with_first-IsWellFormed i (rest db b) (g db b h)

enqueue_tier-IsWellFormed :
    (releases : List Release) (series_id window now : ℕ) (tier : Tier) (is : List Intent) (db : Db)
    (active : ℕ)
    → IsWellFormed db
    → Holds (λ q. IsWellFormed q.0) (enqueue_tier releases series_id window now tier is db active)
unfolding enqueue_tier
enqueue_tier-IsWellFormed releases series_id window now tier [] db active w = w
enqueue_tier-IsWellFormed releases series_id window now tier (i ∷ is) db active w =
    let rest = λ (d : Db) (b : ℕ) (v : IsWellFormed d).
      enqueue_tier-IsWellFormed releases series_id window now tier is d b v in
    let next = enqueue_tier releases series_id window now tier is in
    elim (Bool-cases (is_ready_intent series_id tier window active i)) [
      | inl e ↦ rw e (
          after_placed-IsWellFormed next (place_intent releases window now db active i)
            (place_intent-IsWellFormed releases window now active db i w) rest)
      | inr e ↦ rw e (after_placed-IsWellFormed next (ok (db, active, i)) w rest)
    ]

then_tier-IsWellFormed :
    (next : List Intent → Db → ℕ → Result Queued) (r : Result Queued)
    → Holds (λ q. IsWellFormed q.0) r
    → ((js : List Intent) (db : Db) (b : ℕ)
        → IsWellFormed db
        → Holds (λ q. IsWellFormed q.0) (next js db b))
    → Holds (λ q. IsWellFormed q.0) (then_tier next r)
then_tier-IsWellFormed next (raise e) h g = tt
then_tier-IsWellFormed next (ok (db, b, js)) h g = g js db b h

-- A step of a plan keeps the job queue well formed.
pub advance-IsWellFormed :
    (window now : ℕ) (plan : Plan) (k : Catalog)
    → IsWellFormed k.queue
    → Holds (λ d. IsWellFormed d.queue) (advance window plan now k)
unfolding advance enqueue_ready
advance-IsWellFormed window now plan k w = finished _ passes
  where
    synced : Catalog
    synced = sync_chapters plan now k

    refreshed : List Intent
    refreshed = map (refresh_of plan.series_id synced.artifacts synced.queue now) synced.intents

    sound : IsWellFormed synced.queue
    sound = rw (sync_chapters-queue plan now k) w

    passes :
        Holds
          (λ q. IsWellFormed q.0)
          (enqueue_ready synced.releases plan.series_id window now synced.queue
            (turned plan refreshed))
    passes =
        then_tier-IsWellFormed _ _
          (then_tier-IsWellFormed _ _
            (enqueue_tier-IsWellFormed synced.releases plan.series_id window now Tier.current
              (turned plan refreshed) synced.queue _ sound)
            (λ js d b v.
              enqueue_tier-IsWellFormed synced.releases plan.series_id window now Tier.priority js d
                b v))
          (λ js d b v.
            enqueue_tier-IsWellFormed synced.releases plan.series_id window now Tier.backfill js d b
              v)

    finished :
        (r : Result Queued)
        → Holds (λ q. IsWellFormed q.0) r
        → Holds
            (λ d. IsWellFormed d.queue)
            (finish_step plan (turned_phase plan refreshed) now synced r)
    finished (raise e) h = tt
    finished (ok (db, b, is)) h = h
