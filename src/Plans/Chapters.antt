-- ===== src/Plans/Chapters.antt =====
-- manga_manager/application/download_plans.py: `_sync_chapters`, an intent for each chapter of a series.
use manga_manager.Prelude.{
  ℕ, Bool, true, false, ◌&&◌, List, [], ◌∷◌, ◌++◌, none, some, ◌==◌, nat_eq, ltb, if◌then◌else◌,
  keep, any, contains, map, take, suc,
}
use manga_manager.Queue.Permits.{lex_lt}
use manga_manager.Plans.Rows.{Chapter, Artifact, Tier, IntentState, Intent, Plan, Phase, Catalog}

-- `order_by(sort_number.asc().nullslast(), id)`
abbrev pub chapter_key : Chapter → List ℕ
chapter_key c = elim c.sort_number [ none ↦ 1 ∷ 0 ∷ c.id ∷ [] | some n ↦ 0 ∷ n ∷ c.id ∷ [] ]

unfoldable pub insert_chapter : Chapter → List Chapter → List Chapter
insert_chapter c [] = c ∷ []
insert_chapter c (d ∷ ds) =
    if lex_lt (chapter_key d) (chapter_key c) then d ∷ insert_chapter c ds else c ∷ d ∷ ds

unfoldable pub sort_chapters : List Chapter → List Chapter
sort_chapters [] = []
sort_chapters (c ∷ cs) = insert_chapter c (sort_chapters cs)

abbrev pub chapters_of : ℕ → List Chapter → List Chapter
chapters_of series_id cs = sort_chapters (keep (λ c. c.series_id == series_id) cs)

-- `chapters[:2] + chapters[-2:]`
abbrev pub last_two : List Chapter → List Chapter
last_two [] = []
last_two (c ∷ []) = c ∷ []
last_two (c ∷ d ∷ []) = c ∷ d ∷ []
last_two (c ∷ d ∷ e ∷ cs) = last_two (d ∷ e ∷ cs)

abbrev pub priority_ids : List Chapter → List ℕ
priority_ids cs = map (λ c. c.id) (take 2 cs ++ last_two cs)

abbrev pub is_phase : Phase → Phase → Bool
is_phase Phase.priority Phase.priority = true
is_phase Phase.backfill Phase.backfill = true
is_phase Phase.complete Phase.complete = true
is_phase Phase.cancelled Phase.cancelled = true
is_phase _ _ = false

-- Where a new chapter stands in the plan. The source compares times of creation only where the plan
-- has one, which it always has once it is stored.
abbrev pub tier_for : Plan → List ℕ → Chapter → Tier
tier_for plan priorities c =
    if ltb plan.created_at c.created_at
    then Tier.current
    else if contains priorities c.id && is_phase plan.phase Phase.priority
    then Tier.priority
    else Tier.backfill

abbrev pub first_state : Plan → Tier → IntentState
first_state plan Tier.current = IntentState.pending
first_state plan Tier.priority = IntentState.pending
first_state plan Tier.backfill =
    if is_phase plan.phase Phase.backfill then IntentState.pending else IntentState.blocked

-- `_has_active_artifact`
abbrev pub has_active_artifact : List Artifact → ℕ → Bool
has_active_artifact artifacts chapter_id =
    any (λ a. a.chapter_id == chapter_id && a.active) artifacts

unfoldable pub new_intent : Plan → List ℕ → List Artifact → ℕ → ℕ → Chapter → Intent
new_intent plan priorities artifacts now id c = record {
  id = id;
  series_id = plan.series_id;
  chapter_id = c.id;
  tier = tier_for plan priorities c;
  state =
      if has_active_artifact artifacts c.id
      then IntentState.satisfied
      else first_state plan (tier_for plan priorities c);
  job_id = none;
  updated_at = now;
}

abbrev pub is_intent_for : ℕ → ℕ → Intent → Bool
is_intent_for series_id chapter_id i = i.series_id == series_id && i.chapter_id == chapter_id

-- The chapters in their order; an intent that was there before stays as it is.
unfoldable pub add_intents : Plan → List ℕ → ℕ → List Intent → List Chapter → Catalog → Catalog
add_intents plan priorities now existing [] k = k
add_intents plan priorities now existing (c ∷ cs) k =
    let added = record k {
      intents = k.intents ++ new_intent plan priorities k.artifacts now k.next_intent_id c ∷ [];
      next_intent_id = suc k.next_intent_id;
    } in
    add_intents plan priorities now existing cs
      (if any (is_intent_for plan.series_id c.id) existing then k else added)

unfoldable pub sync_chapters : Plan → ℕ → Catalog → Catalog
sync_chapters plan now k =
    let chapters = chapters_of plan.series_id k.chapters in
    add_intents plan (priority_ids chapters) now k.intents chapters k
