-- ===== src/Plans/Settled.antt =====
-- manga_manager/application/download_plans.py: when the backfill of a series starts, when its plan is
-- complete, and that its steps keep the job queue well formed.
use manga_manager.Prelude.{
  ◌≡◌, ℕ, true, false, List, [], ◌∷◌, refl, any, inl, inr, Bool-cases, Pointwise, map,
  Pointwise-trans, arith, ◌∙◌,
}
use manga_manager.Queue.Rows.{Db}
use manga_manager.Queue.Store.{Result, ok, raise}
use manga_manager.Plans.Rows.{Release, Tier, IntentState, Intent, Plan, Phase, Catalog}
use manga_manager.Plans.Chapters.{sync_chapters, is_phase}
use manga_manager.Plans.Ready.{
  same_state, PlacedIntent, Queued, place_intent, is_ready_intent, with_first, after_placed,
  enqueue_tier, then_tier, enqueue_ready,
}
use manga_manager.Plans.Reconcile.{
  refresh_of, is_holding, turns, turned, turned_phase, finish_step, advance,
}
use manga_manager.Plans.Window.{Holds, refreshed_intents}

-- An intent that is blocked, before and after.
abbrev pub StaysBlocked : Intent → Intent → Type 0
StaysBlocked i j = same_state i.state IntentState.blocked ≡ true → j ≡ i

with_first-blocked :
    (i j : Intent) (is : List Intent) (r : Result Queued)
    → StaysBlocked i j
    → Holds (λ q. Pointwise StaysBlocked is q.2) r
    → Holds (λ q. Pointwise StaysBlocked (i ∷ is) q.2) (with_first j r)
with_first-blocked i j is (raise e) s g = tt
with_first-blocked i j is (ok (db, a, js)) s g = (s, g)

after_placed-blocked :
    (i : Intent) (is : List Intent) (rest : Db → ℕ → Result Queued) (r : Result PlacedIntent)
    → Holds (λ p. StaysBlocked i p.2) r
    → ((db : Db) (b : ℕ) → Holds (λ q. Pointwise StaysBlocked is q.2) (rest db b))
    → Holds (λ q. Pointwise StaysBlocked (i ∷ is) q.2) (after_placed rest r)
after_placed-blocked i is rest (raise e) s g = tt
after_placed-blocked i is rest (ok (db, b, j)) s g =
    with_first-blocked i j is (rest db b) s (g db b)

-- Nothing is asked of what follows from a contradiction.
never_blocked :
    (series_id window active : ℕ) (tier : Tier) (i : Intent) (r : Result PlacedIntent)
    → is_ready_intent series_id tier window active i ≡ true
    → Holds (λ p. StaysBlocked i p.2) r
never_blocked series_id window active tier i (raise e) h = tt
never_blocked series_id window active tier i (ok p) h = λ b. absurd (ground arith)

enqueue_tier-blocked :
    (releases : List Release) (series_id window now : ℕ) (tier : Tier) (is : List Intent) (db : Db)
    (active : ℕ)
    → Holds
        (λ q. Pointwise StaysBlocked is q.2)
        (enqueue_tier releases series_id window now tier is db active)
unfolding enqueue_tier
enqueue_tier-blocked releases series_id window now tier [] db active = tt
enqueue_tier-blocked releases series_id window now tier (i ∷ is) db active =
    let rest = λ (d : Db) (b : ℕ). enqueue_tier-blocked releases series_id window now tier is d b in
    elim (Bool-cases (is_ready_intent series_id tier window active i)) [
      | inl e ↦ rw e (
          after_placed-blocked i is (enqueue_tier releases series_id window now tier is) _
            (never_blocked series_id window active tier i
              (place_intent releases window now db active i) e)
            rest)
      | inr e ↦ rw e (
          after_placed-blocked i is (enqueue_tier releases series_id window now tier is)
            (ok (db, active, i)) (λ b. refl) rest)
    ]

StaysBlocked-trans : (i j k : Intent) → StaysBlocked i j → StaysBlocked j k → StaysBlocked i k
StaysBlocked-trans i j k p q b = let e = p b in q (rw e b) ∙ e

then_tier-blocked :
    (is : List Intent) (next : List Intent → Db → ℕ → Result Queued) (r : Result Queued)
    → Holds (λ q. Pointwise StaysBlocked is q.2) r
    → ((js : List Intent) (db : Db) (b : ℕ)
        → Holds (λ q. Pointwise StaysBlocked js q.2) (next js db b))
    → Holds (λ q. Pointwise StaysBlocked is q.2) (then_tier next r)
then_tier-blocked is next (raise e) g h = tt
then_tier-blocked is next (ok (db, b, js)) g h = chained (next js db b) (h js db b)
  where
    chained :
        (r : Result Queued)
        → Holds (λ q. Pointwise StaysBlocked js q.2) r
        → Holds (λ q. Pointwise StaysBlocked is q.2) r
    chained (raise e) k = tt
    chained (ok q) k = Pointwise-trans StaysBlocked _ _ _ StaysBlocked-trans g k

-- A step of a plan in the priority phase first reads the artifacts and the jobs of the chapters. If a
-- priority chapter of the series has not come to an end then, every chapter that is blocked then stays
-- blocked in the step: none of the backfill starts.
pub advance_gated :
    (window now : ℕ) (plan : Plan) (k : Catalog)
    → is_phase plan.phase Phase.priority ≡ true
    → any (is_holding plan.series_id) (refreshed_intents plan now k) ≡ true
    → Holds
        (λ d. Pointwise StaysBlocked (refreshed_intents plan now k) d.intents)
        (advance window plan now k)
unfolding advance enqueue_ready
advance_gated window now plan k p h = finished _ passes
  where
    synced : Catalog
    synced = sync_chapters plan now k

    refreshed : List Intent
    refreshed = map (refresh_of plan.series_id synced.artifacts synced.queue now) synced.intents

    kept : turned plan refreshed ≡ refreshed
    kept = let still : turns plan refreshed ≡ false = rw (p, h) refl in rw still refl

    passes :
        Holds
          (λ q. Pointwise StaysBlocked refreshed q.2)
          (enqueue_ready synced.releases plan.series_id window now synced.queue
            (turned plan refreshed))
    passes = rw kept (
        then_tier-blocked refreshed _ _
          (then_tier-blocked refreshed _ _
            (enqueue_tier-blocked synced.releases plan.series_id window now Tier.current refreshed
              synced.queue _)
            (λ js d b.
              enqueue_tier-blocked synced.releases plan.series_id window now Tier.priority js d b))
          (λ js d b.
            enqueue_tier-blocked synced.releases plan.series_id window now Tier.backfill js d b))

    finished :
        (r : Result Queued)
        → Holds (λ q. Pointwise StaysBlocked refreshed q.2) r
        → Holds
            (λ d. Pointwise StaysBlocked refreshed d.intents)
            (finish_step plan (turned_phase plan refreshed) now synced r)
    finished (raise e) g = tt
    finished (ok (db, a, is)) g = g
