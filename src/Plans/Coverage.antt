-- ===== src/Plans/Coverage.antt =====
-- manga_manager/application/download_plans.py: after `_sync_chapters` every chapter of the series has its
-- intent.
use manga_manager.Prelude.{
  ◌≡◌, ℕ, Bool, true, List, [], ◌∷◌, ◌++◌, refl, inl, inr, any, Bool-cases, In, ◌==◌, sym, suc, ◌⊎◌,
  All, arith, nat_beq_iff, All-In, nat_eq, subst, In-keep,
}
use manga_manager.Queue.Permits.{lex_lt}
use manga_manager.Plans.Rows.{Chapter, Intent, Plan, Catalog}
use manga_manager.Plans.Chapters.{
  chapter_key, insert_chapter, sort_chapters, chapters_of, priority_ids, new_intent, is_intent_for,
  add_intents, sync_chapters,
}

-- A chapter has an intent in the series.
abbrev pub HasIntent : ℕ → List Intent → Chapter → Type 0
HasIntent series_id is c = any (is_intent_for series_id c.id) is ≡ true

any-append : (p : Intent → Bool) (is js : List Intent) → any p is ≡ true → any p (is ++ js) ≡ true
unfolding any
any-append p [] js h = cc
any-append p (i ∷ is) js h = ground (arith, any-append p is js)

any-last :
    (p : Intent → Bool) (is : List Intent) (j : Intent) → p j ≡ true → any p (is ++ j ∷ []) ≡ true
unfolding any
any-last p [] j h = ground arith
any-last p (i ∷ is) j h = ground (arith, any-last p is j h)

add_intents-chapters :
    (plan : Plan) (priorities : List ℕ) (now : ℕ) (existing : List Intent) (cs : List Chapter)
    (k : Catalog)
    → (add_intents plan priorities now existing cs k).chapters ≡ k.chapters
unfolding add_intents
add_intents-chapters plan priorities now existing [] k = refl
add_intents-chapters plan priorities now existing (c ∷ cs) k =
    elim (Bool-cases (any (is_intent_for plan.series_id c.id) existing)) [
      | inl e ↦ rw (e, add_intents) (add_intents-chapters plan priorities now existing cs _)
      | inr e ↦ rw (e, add_intents) (add_intents-chapters plan priorities now existing cs _)
    ]

add_intents-others :
    (plan : Plan) (priorities : List ℕ) (now : ℕ) (existing : List Intent) (cs : List Chapter)
    (k : Catalog)
    → ((add_intents plan priorities now existing cs k).plans ≡ k.plans)
      × ((add_intents plan priorities now existing cs k).queue ≡ k.queue)
unfolding add_intents
add_intents-others plan priorities now existing [] k = (refl, refl)
add_intents-others plan priorities now existing (c ∷ cs) k =
    elim (Bool-cases (any (is_intent_for plan.series_id c.id) existing)) [
      | inl e ↦ rw (e, add_intents) (add_intents-others plan priorities now existing cs _)
      | inr e ↦ rw (e, add_intents) (add_intents-others plan priorities now existing cs _)
    ]

pub sync_chapters-plans :
    (plan : Plan) (now : ℕ) (k : Catalog) → (sync_chapters plan now k).plans ≡ k.plans
unfolding sync_chapters
sync_chapters-plans plan now k = (add_intents-others plan _ now _ _ k).0

pub sync_chapters-queue :
    (plan : Plan) (now : ℕ) (k : Catalog) → (sync_chapters plan now k).queue ≡ k.queue
unfolding sync_chapters
sync_chapters-queue plan now k = (add_intents-others plan _ now _ _ k).1

-- An intent that is there stays there.
add_intents-keeps :
    (plan : Plan) (priorities : List ℕ) (now : ℕ) (existing : List Intent) (cs : List Chapter)
    (k : Catalog) (p : Intent → Bool)
    → any p k.intents ≡ true
    → any p (add_intents plan priorities now existing cs k).intents ≡ true
unfolding add_intents
add_intents-keeps plan priorities now existing [] k p h = h
add_intents-keeps plan priorities now existing (c ∷ cs) k p h =
    elim (Bool-cases (any (is_intent_for plan.series_id c.id) existing)) [
      | inl e ↦ rw (e, add_intents) (add_intents-keeps plan priorities now existing cs k p h)
      | inr e ↦
          rw (e, add_intents)
            (add_intents-keeps plan priorities now existing cs _ p (any-append p k.intents _ h))
    ]

new_intent-is_for :
    (plan : Plan) (priorities : List ℕ) (k : Catalog) (now : ℕ) (c : Chapter)
    → is_intent_for plan.series_id c.id
        (new_intent plan priorities k.artifacts now k.next_intent_id c)
      ≡ true
unfolding new_intent
new_intent-is_for plan priorities k now c =
    ground (arith, nat_beq_iff plan.series_id plan.series_id, nat_beq_iff c.id c.id)

add_intents-covers :
    (plan : Plan) (priorities : List ℕ) (now : ℕ) (existing : List Intent) (cs : List Chapter)
    (k : Catalog)
    → ((p : Intent → Bool) → any p existing ≡ true → any p k.intents ≡ true)
    → All (HasIntent plan.series_id (add_intents plan priorities now existing cs k).intents) cs
unfolding add_intents
add_intents-covers plan priorities now existing [] k h = tt
add_intents-covers plan priorities now existing (c ∷ cs) k h =
    elim (Bool-cases (any (is_intent_for plan.series_id c.id) existing)) [
      | inl e ↦
          let same : add_intents plan priorities now existing (c ∷ cs) k
              ≡ add_intents plan priorities now existing cs k =
            rw (e, add_intents) refl in
          subst covered (sym same) (
            add_intents-keeps plan priorities now existing cs k _ (h _ e),
            add_intents-covers plan priorities now existing cs k h,
          )
      | inr e ↦
          let same : add_intents plan priorities now existing (c ∷ cs) k
              ≡ add_intents plan priorities now existing cs added =
            rw (e, add_intents) refl in
          subst covered (sym same) (
            add_intents-keeps plan priorities now existing cs added _
                (any-last _ k.intents _ (new_intent-is_for plan priorities k now c)),
            add_intents-covers plan priorities now existing cs added
                (λ p t. any-append p k.intents _ (h p t)),
          )
    ]
  where
    covered : Catalog → Type 0
    covered d = All (HasIntent plan.series_id d.intents) (c ∷ cs)

    added : Catalog
    added = record k {
      intents = k.intents ++ new_intent plan priorities k.artifacts now k.next_intent_id c ∷ [];
      next_intent_id = suc k.next_intent_id;
    }

add_intents-done :
    (plan : Plan) (priorities : List ℕ) (now : ℕ) (existing : List Intent) (cs : List Chapter)
    (k : Catalog)
    → All (HasIntent plan.series_id existing) cs
    → add_intents plan priorities now existing cs k ≡ k
unfolding add_intents
add_intents-done plan priorities now existing [] k a = refl
add_intents-done plan priorities now existing (c ∷ cs) k a =
    rw (a.0, add_intents) (add_intents-done plan priorities now existing cs k a.1)

In-insert : (c d : Chapter) (cs : List Chapter) → (d ≡ c) ⊎ In d cs → In d (insert_chapter c cs)
unfolding insert_chapter
In-insert c d [] (inl e) = inl e
In-insert c d [] (inr m) = elim m [ ]
In-insert c d (x ∷ cs) m = elim (Bool-cases (lex_lt (chapter_key x) (chapter_key c))) [
  | inl e ↦ rw e (elim m [
    | inl q ↦ inr (In-insert c d cs (inl q))
    | inr (inl q) ↦ inl q
    | inr (inr q) ↦ inr (In-insert c d cs (inr q))
  ])
  | inr e ↦ rw e (elim m [ inl q ↦ inl q | inr q ↦ inr q ])
]

In-sort : (d : Chapter) (cs : List Chapter) → In d cs → In d (sort_chapters cs)
unfolding sort_chapters
In-sort d [] m = elim m [ ]
In-sort d (c ∷ cs) (inl e) = In-insert c d (sort_chapters cs) (inl e)
In-sort d (c ∷ cs) (inr m) = In-insert c d (sort_chapters cs) (inr (In-sort d cs m))

-- After the chapters of a series are synchronised, every chapter of it has an intent, and doing it
-- again changes nothing.
pub sync_chapters-settles :
    (plan : Plan) (now later : ℕ) (k : Catalog)
    → ((c : Chapter)
        → In c k.chapters
        → c.series_id ≡ plan.series_id
        → HasIntent plan.series_id (sync_chapters plan now k).intents c)
      × (sync_chapters plan later (sync_chapters plan now k) ≡ sync_chapters plan now k)
unfolding sync_chapters add_intents
sync_chapters-settles plan now later k = (
  λ c m e. All-In _ c chapters covers (
      In-sort c _ (
        In-keep (λ d. d.series_id == plan.series_id) c k.chapters m
          ((nat_beq_iff c.series_id plan.series_id).1 e))),
  rw same
      (add_intents-done plan (priority_ids chapters) later synced.intents chapters synced covers),
)
  where
    chapters : List Chapter
    chapters = chapters_of plan.series_id k.chapters

    synced : Catalog
    synced = add_intents plan (priority_ids chapters) now k.intents chapters k

    same : synced.chapters ≡ k.chapters
    same = add_intents-chapters plan (priority_ids chapters) now k.intents chapters k

    covers : All (HasIntent plan.series_id synced.intents) chapters
    covers = add_intents-covers plan (priority_ids chapters) now k.intents chapters k (λ p h. h)
