-- ===== src/Plans/Attempted.antt =====
-- manga_manager/application/download_plans.py: the alternative that a download is sent to is of a
-- provider that was not attempted.
use manga_manager.Plans.Preference.{IsTop, choices-Chosen}
use manga_manager.Plans.Choice.{fallback_release, is_alternative, is_downloadable}
use manga_manager.Plans.Rows.{Release}
use manga_manager.Queue.Permits.{insert_pool, lex_lt}
use manga_manager.Plans.Detours.{sorted_set}
use manga_manager.Prelude.{
  ◌≡◌, nat_eq, text_eq, list_beq_iff, List, Bool, true, contains, Text, ◌++◌, ◌||◌, false, ◌∷◌, ℕ,
  Bool-cases, [], refl, ◌==◌, some, inl, inr, sym, keep, keep-In, ◌&&◌, ◌∙◌, not, arith,
}

or_right : (a b : Bool) → b ≡ true → (a || b) ≡ true
or_right true b h = refl
or_right false b h = h

contains-insert_kept :
    (x y : Text) (ys : List Text) → contains ys y ≡ true → contains (insert_pool x ys) y ≡ true
unfolding insert_pool contains
contains-insert_kept x y [] h = absurd (let bad : false ≡ true = h in cc)
contains-insert_kept x y (z ∷ ys) h = elim (Bool-cases (x == z)) [
  | inl e ↦ rw e h
  | inr e ↦ elim (Bool-cases (lex_lt x z)) [
    | inl l ↦ rw (e, l) (or_right (x == y) (contains (z ∷ ys) y) h)
    | inr l ↦ elim (Bool-cases (z == y)) [
      | inl t ↦ rw (e, l, t) refl
      | inr t ↦ rw (e, l, t) (contains-insert_kept x y ys (rw t at h))
    ]
  ]
]

contains-insert_self : (x : Text) (ys : List Text) → contains (insert_pool x ys) x ≡ true
unfolding insert_pool contains
contains-insert_self x [] = rw ((list_beq_iff x x).1 refl) refl
contains-insert_self x (z ∷ ys) = elim (Bool-cases (x == z)) [
  | inl e ↦ rw (e, sym ((list_beq_iff x z).0 e)) (rw ((list_beq_iff x x).1 refl) refl)
  | inr e ↦ elim (Bool-cases (lex_lt x z)) [
    | inl l ↦ rw (e, l) (rw ((list_beq_iff x x).1 refl) refl)
    | inr l ↦
        rw (e, l) (or_right (z == x) (contains (insert_pool x ys) x) (contains-insert_self x ys))
  ]
]

third : (a b c d : Bool) → (a && b && not c && d) ≡ true → c ≡ false
third a b c d h = ground (arith, Bool-cases a, Bool-cases b, Bool-cases c)

-- The set of attempted sources holds the one that is cooling down.
contains-sorted_set :
    (xs : List Text) (source : Text) → contains (sorted_set (xs ++ source ∷ [])) source ≡ true
unfolding sorted_set
contains-sorted_set [] source = contains-insert_self source []
contains-sorted_set (x ∷ xs) source =
    contains-insert_kept x source (sorted_set (xs ++ source ∷ [])) (contains-sorted_set xs source)

-- The alternative is not of the provider that is cooling down.
pub alternative-elsewhere :
    (releases : List Release) (chapter_id failed_id now : ℕ) (xs : List Text) (source : Text)
    (r : Release)
    → fallback_release releases chapter_id failed_id (sorted_set (xs ++ source ∷ [])) now ≡ some r
    → (r.source == source) ≡ false
alternative-elsewhere releases chapter_id failed_id now xs source r e =
    let attempted = sorted_set (xs ++ source ∷ []) in
    let p = is_alternative chapter_id failed_id attempted now in
    let top : IsTop (keep p releases) r =
      let chosen = (choices-Chosen releases chapter_id failed_id attempted now).1 in
      rw e at chosen in
    let passes : p r ≡ true = (keep-In p releases r top.there).1 in
    elim (Bool-cases (r.source == source)) [
      | inr f ↦ f
      | inl t ↦
          let same : r.source ≡ source = (list_beq_iff r.source source).0 t in
          let not_held : p r ≡ true → contains attempted r.source ≡ false =
            third (r.chapter_id == chapter_id) (not (r.id == failed_id))
              (contains attempted r.source) (is_downloadable now r.downloadable_after) in
          let held : contains attempted r.source ≡ true = rw same (contains-sorted_set xs source) in
          absurd (let bad : true ≡ false = sym held ∙ not_held passes in cc)
    ]
