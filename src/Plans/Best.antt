-- ===== src/Plans/Best.antt =====
-- manga_manager/application/download_plans.py: the release that a chapter is downloaded from, described
-- by its columns.
use manga_manager.Prelude.{
  ◌≡◌, ◌≢◌, ◌≤◌, ◌<◌, ◌⊎◌, ◌+◌, ◌&&◌, ◌==◌, ◌∷◌, [], inl, inr, refl, false, true, nat_eq, text_eq,
  not, keep, contains, Bool-cases, Option-cases, Text, txt, List, ℕ, Option, none, some, In, both,
  nat_beq_iff, In-keep, keep-In, arith, if◌then◌else◌, leb, Bool,
}
use manga_manager.Queue.Permits.{lex_lt}
use manga_manager.Plans.Rows.{Release}
use manga_manager.Plans.Choice.{
  release_preference, best_release, fallback_release, is_candidate, is_alternative, is_downloadable,
  source_priority,
}
use manga_manager.Plans.Preference.{Chosen, choices-Chosen}

-- The providers by preference, the first one first.
abbrev pub providers : List Text
providers = txt "asura" ∷ txt "mangadex" ∷ txt "mangafire" ∷ txt "kingofshojo" ∷ []

-- How many of the providers stand before one; all of them before one that is not listed.
pub place_among : List Text → Text → ℕ
place_among [] source = 0
place_among (p ∷ ps) source = if source == p then 0 else place_among ps source + 1

-- The release may be downloaded at that time.
abbrev pub IsOpen : ℕ → Release → Type 0
IsOpen now r =
    (r.downloadable_after ≡ none) ⊎ ((u : ℕ) × (r.downloadable_after ≡ some u) × (u ≤ now))

abbrev pub IsCandidate : ℕ → ℕ → Release → Type 0
IsCandidate chapter_id now r = (r.chapter_id ≡ chapter_id) × IsOpen now r

abbrev pub IsAlternative : ℕ → ℕ → List Text → ℕ → Release → Type 0
IsAlternative chapter_id failed_id excluded now r =
    (r.chapter_id ≡ chapter_id)
    × (r.id ≢ failed_id)
    × (contains excluded r.source ≡ false)
    × IsOpen now r

-- A release is taken before another: its provider stands first, or the provider is as far and it is
-- of higher quality, or of the same and no older.
abbrev pub ComesFirst : Release → Release → Type 0
ComesFirst r s =
    (place_among providers r.source < place_among providers s.source)
    ⊎ ((place_among providers r.source ≡ place_among providers s.source)
        × ((s.quality_rank < r.quality_rank) ⊎ ((s.quality_rank ≡ r.quality_rank) × (s.id ≤ r.id))))

pub record IsBest (P : Release → Type 0) (rs : List Release) (r : Release) : Type 0 where
  pub there : In r rs
  pub fits : P r
  pub first : (s : Release) → In s rs → P s → ComesFirst r s

-- A choice of a release: the best of those that fit, and none only if none fits.
abbrev pub Best : (Release → Type 0) → List Release → Option Release → Type 0
Best P rs none = (s : Release) → In s rs → ¬ P s
Best P rs (some r) = IsBest P rs r

place-priority : (source : Text) → source_priority source + place_among providers source ≡ 4
unfolding source_priority place_among
place-priority source = elim (Bool-cases (source == txt "asura")) [
  | inl a ↦ rw a refl
  | inr a ↦ elim (Bool-cases (source == txt "mangadex")) [
    | inl b ↦ rw (a, b) refl
    | inr b ↦ elim (Bool-cases (source == txt "mangafire")) [
      | inl c ↦ rw (a, b, c) refl
      | inr c ↦ elim (Bool-cases (source == txt "kingofshojo")) [
        | inl d ↦ rw (a, b, c, d) refl
        | inr d ↦ rw (a, b, c, d) refl
      ]
    ]
  ]
]

lex_lt-three :
    (a b c x y z : ℕ)
    → lex_lt (a ∷ b ∷ c ∷ []) (x ∷ y ∷ z ∷ []) ≡ false
    → (x < a) ⊎ ((a ≡ x) × ((y < b) ⊎ ((y ≡ b) × (z ≤ c))))
unfolding lex_lt
lex_lt-three a b c x y z h = ground arith

top-ComesFirst :
    (r s : Release) → lex_lt (release_preference r) (release_preference s) ≡ false → ComesFirst r s
top-ComesFirst r s h =
    let here = place-priority r.source in
    let other = place-priority s.source in
    elim (lex_lt-three _ _ _ _ _ _ h) [
      | inl before ↦ inl (omega arith)
      | inr (level, rest) ↦ inr (omega arith, rest)
    ]

downloadable-IsOpen :
    (now : ℕ) (r : Release) → is_downloadable now r.downloadable_after ≡ true → IsOpen now r
downloadable-IsOpen now r h = elim (Option-cases r.downloadable_after) [
  | inl e ↦ inl e
  | inr (u, e) ↦ let passed : leb u now ≡ true = rw e at h in inr (u, e, ground arith)
]

IsOpen-downloadable :
    (now : ℕ) (r : Release) → IsOpen now r → is_downloadable now r.downloadable_after ≡ true
IsOpen-downloadable now r (inl e) = rw e refl
IsOpen-downloadable now r (inr (u, e, h)) = rw e (ground arith)

-- What is chosen among the rows of a test is the best of the rows that a description fits, where the
-- test and the description agree.
Chosen-Best :
    (P : Release → Type 0) (p : Release → Bool) (rs : List Release) (o : Option Release)
    → ((r : Release) → p r ≡ true → P r)
    → ((r : Release) → P r → p r ≡ true)
    → Chosen (keep p rs) o
    → Best P rs o
Chosen-Best P p rs none f g c =
    λ s m h. absurd (let bad : In s [] = rw c at (In-keep p s rs m (g s h)) in bad)
Chosen-Best P p rs (some r) f g c =
    let (there, t) = keep-In p rs r c.there in
    record {
      there = there;
      fits = f r t;
      first = λ s m h. top-ComesFirst r s (c.top s (In-keep p s rs m (g s h)));
    }

-- The release that a chapter is downloaded from is of the chapter and may be downloaded now, and the
-- one that a failed download falls back to is besides neither the failed one nor of an excluded
-- provider. Each comes before every other such release, by the place of the provider, then by
-- quality, then by id, and there is none only if there is no such release.
pub best_release-Best :
    (releases : List Release) (chapter_id failed_id : ℕ) (excluded : List Text) (now : ℕ)
    → Best (IsCandidate chapter_id now) releases (best_release releases chapter_id now)
      × Best
          (IsAlternative chapter_id failed_id excluded now)
          releases
          (fallback_release releases chapter_id failed_id excluded now)
best_release-Best releases chapter_id failed_id excluded now =
    let chosen = choices-Chosen releases chapter_id failed_id excluded now in
    (
      Chosen-Best (IsCandidate chapter_id now) (is_candidate chapter_id now) releases _
          (λ r h.
            let (a, b) =
              both (r.chapter_id == chapter_id) (is_downloadable now r.downloadable_after) h in
            ((nat_beq_iff r.chapter_id chapter_id).0 a, downloadable-IsOpen now r b))
          (λ r h.
            joined _ _ ((nat_beq_iff r.chapter_id chapter_id).1 h.0)
              (IsOpen-downloadable now r h.1))
          chosen.0,
      Chosen-Best (IsAlternative chapter_id failed_id excluded now)
          (is_alternative chapter_id failed_id excluded now) releases _ of_test to_test chosen.1,
    )
  where
    joined : (a b : Bool) → a ≡ true → b ≡ true → (a && b) ≡ true
    joined a b h k = ground arith

    of_test :
        (r : Release)
        → is_alternative chapter_id failed_id excluded now r ≡ true
        → IsAlternative chapter_id failed_id excluded now r
    of_test r h =
        let (x, open_now) = both _ (is_downloadable now r.downloadable_after) h in
        let (y, fresh) = both _ (not (contains excluded r.source)) x in
        let (here, other) = both (r.chapter_id == chapter_id) (not (r.id == failed_id)) y in
        (
          (nat_beq_iff r.chapter_id chapter_id).0 here,
          λ e. absurd (
              let t = (nat_beq_iff r.id failed_id).1 e in
              let bad : false ≡ true = rw t at other in cc),
          ground arith,
          downloadable-IsOpen now r open_now,
        )

    to_test :
        (r : Release)
        → IsAlternative chapter_id failed_id excluded now r
        → is_alternative chapter_id failed_id excluded now r ≡ true
    to_test r (here, other, fresh, open_now) =
        let a = (nat_beq_iff r.chapter_id chapter_id).1 here in
        let d = IsOpen-downloadable now r open_now in
        elim (Bool-cases (r.id == failed_id)) [
          | inl e ↦ absurd (other ((nat_beq_iff r.id failed_id).0 e))
          | inr e ↦ rw (a, e, fresh, d) refl
        ]
