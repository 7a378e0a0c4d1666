-- ===== src/Plans/Window.antt =====
-- manga_manager/application/download_plans.py: how many backfill chapters of a series are queued.
use manga_manager.Plans.Chapters.{sync_chapters}
use manga_manager.Plans.Reconcile.{
  release_backfill, advance, refresh_of, turned, turns, finish_step, turned_phase,
}
use manga_manager.Prelude.{
  ◌≡◌, ◌≤◌, ℕ, ◌+◌, Bool, true, List, [], ◌∷◌, refl, arith, max, count_if, if◌then◌else◌,
  Option-cases, Bool-cases, map, inl, inr,
}
use manga_manager.Queue.Rows.{Db}
use manga_manager.Queue.Store.{Result, ok, raise}
use manga_manager.Queue.Enqueue.{enqueue}
use manga_manager.Plans.Rows.{Release, Tier, Intent, Plan, Catalog}
use manga_manager.Plans.Choice.{best_release}
use manga_manager.Plans.Ready.{
  is_active_backfill, PlacedIntent, Queued, take_up, place_intent, is_ready_intent, with_first,
  after_placed, enqueue_tier, then_tier, enqueue_ready, chapter_request,
}

-- What holds of the value of a result, where there is one.
abbrev pub Holds {ℓ} : {A : Type ℓ} → (A → Type 0) → Result A → Type 0
Holds P (ok a) = P a
Holds P (raise e) = Unit {0}

abbrev pub backfill_count : ℕ → List Intent → ℕ
backfill_count series_id = count_if (is_active_backfill series_id)

-- One intent before and after, with the counter of queued backfill chapters.
abbrev Steps : ℕ → ℕ → ℕ → Intent → PlacedIntent → Type 0
Steps series_id window active i p =
    ((if is_active_backfill series_id p.2 then 1 else 0) + active
      ≡ (if is_active_backfill series_id i then 1 else 0) + p.1)
    × (p.1 ≤ max active window)

abbrev Grows : ℕ → ℕ → ℕ → List Intent → Queued → Type 0
Grows series_id window active is q =
    (backfill_count series_id q.2 + active ≡ backfill_count series_id is + q.1)
    × (q.1 ≤ max active window)

take_up-Steps :
    (series_id window now active : ℕ) (tier : Tier) (i : Intent) (r : Result (Db × (ℕ × Bool)))
    → is_ready_intent series_id tier window active i ≡ true
    → Holds (Steps series_id window active i) (take_up now active i r)
take_up-Steps series_id window now active tier i (raise e) h = tt
take_up-Steps series_id window now active tier i (ok (db, answer)) h = (ground arith, ground arith)

place_intent-Steps :
    (releases : List Release) (series_id window now active : ℕ) (tier : Tier) (db : Db) (i : Intent)
    → is_ready_intent series_id tier window active i ≡ true
    → Holds (Steps series_id window active i) (place_intent releases window now db active i)
unfolding place_intent
place_intent-Steps releases series_id window now active tier db i h =
    elim (Option-cases (best_release releases i.chapter_id now)) [
      | inl e ↦ rw (e, place_intent) (ground arith, omega arith)
      | inr (r, e) ↦
          rw (e, place_intent)
            (take_up-Steps series_id window now active tier i (enqueue db (chapter_request i r) now)
              h)
    ]

with_first-Grows :
    (series_id window active b : ℕ) (i j : Intent) (is : List Intent) (r : Result Queued)
    → ((if is_active_backfill series_id j then 1 else 0) + active
        ≡ (if is_active_backfill series_id i then 1 else 0) + b)
      × (b ≤ max active window)
    → Holds (Grows series_id window b is) r
    → Holds (Grows series_id window active (i ∷ is)) (with_first j r)
unfolding count_if
with_first-Grows series_id window active b i j is (raise e) s g = tt
with_first-Grows series_id window active b i j is (ok (db, a, js)) s g =
    (omega (arith, s.0, g.0), omega (arith, s.1, g.1))

after_placed-Grows :
    (series_id window active : ℕ) (i : Intent) (is : List Intent) (rest : Db → ℕ → Result Queued)
    (r : Result PlacedIntent)
    → Holds (Steps series_id window active i) r
    → ((db : Db) (b : ℕ) → Holds (Grows series_id window b is) (rest db b))
    → Holds (Grows series_id window active (i ∷ is)) (after_placed rest r)
after_placed-Grows series_id window active i is rest (raise e) s g = tt
after_placed-Grows series_id window active i is rest (ok (db, b, j)) s g =
    with_first-Grows series_id window active b i j is (rest db b) s (g db b)

enqueue_tier-Grows :
    (releases : List Release) (series_id window now : ℕ) (tier : Tier) (is : List Intent) (db : Db)
    (active : ℕ)
    → Holds
        (Grows series_id window active is)
        (enqueue_tier releases series_id window now tier is db active)
unfolding enqueue_tier count_if
enqueue_tier-Grows releases series_id window now tier [] db active = (omega arith, omega arith)
enqueue_tier-Grows releases series_id window now tier (i ∷ is) db active =
    let rest = λ (d : Db) (b : ℕ). enqueue_tier-Grows releases series_id window now tier is d b in
    elim (Bool-cases (is_ready_intent series_id tier window active i)) [
      | inl e ↦ rw e (
          after_placed-Grows series_id window active i is
            (enqueue_tier releases series_id window now tier is) _
            (place_intent-Steps releases series_id window now active tier db i e) rest)
      | inr e ↦ rw e (
          after_placed-Grows series_id window active i is
            (enqueue_tier releases series_id window now tier is) (ok (db, active, i))
            (refl, omega arith) rest)
    ]

then_tier-Grows :
    (series_id window active : ℕ) (is : List Intent) (next : List Intent → Db → ℕ → Result Queued)
    (r : Result Queued)
    → Holds (Grows series_id window active is) r
    → ((js : List Intent) (db : Db) (b : ℕ) → Holds (Grows series_id window b js) (next js db b))
    → Holds (Grows series_id window active is) (then_tier next r)
then_tier-Grows series_id window active is next (raise e) g h = tt
then_tier-Grows series_id window active is next (ok (db, b, js)) g h =
    grown (next js db b) (h js db b)
  where
    grown :
        (r : Result Queued)
        → Holds (Grows series_id window b js) r
        → Holds (Grows series_id window active is) r
    grown (raise e) k = tt
    grown (ok (d, c, ls)) k = (omega (arith, g.0, k.0), omega (arith, g.1, k.1))

-- After the ready chapters of a series are queued, no more of its backfill chapters are queued than
-- the window allows, or than before.
pub enqueue_ready-window :
    (releases : List Release) (series_id window now : ℕ) (db : Db) (is : List Intent)
    → Holds
        (λ q. backfill_count series_id q.2 ≤ max window (backfill_count series_id is))
        (enqueue_ready releases series_id window now db is)
unfolding enqueue_ready
enqueue_ready-window releases series_id window now db is = bounded _ grows
  where
    grows :
        Holds
          (Grows series_id window (backfill_count series_id is) is)
          (enqueue_ready releases series_id window now db is)
    grows =
        then_tier-Grows series_id window _ is _ _
          (then_tier-Grows series_id window _ is _ _
            (enqueue_tier-Grows releases series_id window now Tier.current is db _)
            (λ js d b. enqueue_tier-Grows releases series_id window now Tier.priority js d b))
          (λ js d b. enqueue_tier-Grows releases series_id window now Tier.backfill js d b)

    bounded :
        (r : Result Queued)
        → Holds (Grows series_id window (backfill_count series_id is) is) r
        → Holds (λ q. backfill_count series_id q.2 ≤ max window (backfill_count series_id is)) r
    bounded (raise e) g = tt
    bounded (ok (d, b, js)) g = omega (arith, g.0, g.1)

turned-count :
    (series_id : ℕ) (is : List Intent)
    → backfill_count series_id (map (release_backfill series_id) is) ≡ backfill_count series_id is
unfolding count_if
turned-count series_id [] = refl
turned-count series_id (i ∷ is) =
    let rest = turned-count series_id is in
    let same : is_active_backfill series_id (release_backfill series_id i)
        ≡ is_active_backfill series_id i =
      ground arith in
    rw same (omega arith)

abbrev pub refreshed_intents : Plan → ℕ → Catalog → List Intent
refreshed_intents plan now k =
    let synced = sync_chapters plan now k in
    map (refresh_of plan.series_id synced.artifacts synced.queue now) synced.intents

-- A step of an active plan leaves no more backfill chapters of its series queued than the window
-- allows, or than were queued once the states of their jobs are read.
pub advance-window :
    (window now : ℕ) (plan : Plan) (k : Catalog)
    → Holds
        (λ d.
          backfill_count plan.series_id d.intents
          ≤ max window (backfill_count plan.series_id (refreshed_intents plan now k)))
        (advance window plan now k)
unfolding advance
advance-window window now plan k = finished _ (
    enqueue_ready-window synced.releases plan.series_id window now synced.queue
      (turned plan refreshed))
  where
    synced : Catalog
    synced = sync_chapters plan now k

    refreshed : List Intent
    refreshed = map (refresh_of plan.series_id synced.artifacts synced.queue now) synced.intents

    same :
        backfill_count plan.series_id (turned plan refreshed)
        ≡ backfill_count plan.series_id refreshed
    same = elim (Bool-cases (turns plan refreshed)) [
      | inl e ↦ rw e (turned-count plan.series_id refreshed)
      | inr e ↦ rw e refl
    ]

    finished :
        (r : Result Queued)
        → Holds
            (λ q.
              backfill_count plan.series_id q.2
              ≤ max window (backfill_count plan.series_id (turned plan refreshed)))
            r
        → Holds
            (λ d.
              backfill_count plan.series_id d.intents
              ≤ max window (backfill_count plan.series_id refreshed))
            (finish_step plan (turned_phase plan refreshed) now synced r)
    finished (raise e) h = tt
    finished (ok (db, active, is)) h = rw same at h
