-- ===== src/Plans/Preference.antt =====
-- manga_manager/application/download_plans.py: the chosen release is a candidate that no other candidate
-- is preferred to.
use manga_manager.Prelude.{
  ◌≡◌, ℕ, false, List, [], ◌∷◌, Option, none, some, Text, refl, In, keep, inl, inr, Bool-cases,
  if◌then◌else◌, text_eq,
}
use manga_manager.Queue.Permits.{lex_lt}
use manga_manager.Queue.Ordering.{lex_lt_irrefl, lex_lt_above, lex_lt_asym}
use manga_manager.Plans.Rows.{Release}
use manga_manager.Plans.Choice.{
  release_preference, most_preferred, best_release, fallback_release, is_candidate, is_alternative,
}

-- A row of the list that no row of it is preferred to.
pub record IsTop (rs : List Release) (r : Release) : Type 0 where
  pub there : In r rs
  pub top : (s : Release) → In s rs → lex_lt (release_preference r) (release_preference s) ≡ false

-- What a choice among rows is: the top, or nothing where there are none.
abbrev pub Chosen : List Release → Option Release → Type 0
Chosen rs none = rs ≡ []
Chosen rs (some r) = IsTop rs r

most_preferred-Chosen : (rs : List Release) → Chosen rs (most_preferred rs)
unfolding most_preferred
most_preferred-Chosen [] = refl
most_preferred-Chosen (r ∷ rs) = extended (most_preferred rs) (most_preferred-Chosen rs)
  where
    extended :
        (m : Option Release)
        → Chosen rs m
        → Chosen (r ∷ rs) (elim m [
          | none ↦ some r
          | some s ↦ some (if lex_lt (release_preference r) (release_preference s) then s else r)
        ])
    extended none e = record {
      there = inl refl;
      top = λ s m. elim m [
        | inl q ↦ rw q (lex_lt_irrefl (release_preference r))
        | inr q ↦ absurd (let bad : In s [] = rw e at q in bad)
      ];
    }
    extended (some s) t = elim (Bool-cases (lex_lt (release_preference r) (release_preference s))) [
      | inl e ↦ rw e (record {
        there = inr t.there;
        top = λ x m. elim m [
          | inl q ↦ rw q (lex_lt_asym (release_preference r) (release_preference s) e)
          | inr q ↦ t.top x q
        ];
      })
      | inr e ↦ rw e (record {
        there = inl refl;
        top = λ x m. elim m [
          | inl q ↦ rw q (lex_lt_irrefl (release_preference r))
          | inr q ↦
              lex_lt_above (release_preference r) (release_preference s) (release_preference x) e
                (t.top x q)
        ];
      })
    ]

-- The two choices among the rows that the tests let through.
pub choices-Chosen :
    (releases : List Release) (chapter_id failed_id : ℕ) (excluded : List Text) (now : ℕ)
    → Chosen (keep (is_candidate chapter_id now) releases) (best_release releases chapter_id now)
      × Chosen
          (keep (is_alternative chapter_id failed_id excluded now) releases)
          (fallback_release releases chapter_id failed_id excluded now)
unfolding best_release fallback_release
choices-Chosen releases chapter_id failed_id excluded now = (
  most_preferred-Chosen (keep (is_candidate chapter_id now) releases),
  most_preferred-Chosen (keep (is_alternative chapter_id failed_id excluded now) releases),
)
