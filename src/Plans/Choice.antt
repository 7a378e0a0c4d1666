-- ===== src/Plans/Choice.antt =====
-- manga_manager/application/download_plans.py: the release that a chapter is downloaded from.
use manga_manager.Prelude.{
  ℕ, Bool, true, not, ◌&&◌, List, [], ◌∷◌, Option, none, some, Text, txt, ◌==◌, nat_eq, text_eq,
  leb, if◌then◌else◌, keep, contains,
}
use manga_manager.Queue.Permits.{lex_lt}
use manga_manager.Plans.Rows.{Release}

-- `SOURCE_PRIORITY`: the first of the four providers counts 4, an unknown one 0.
unfoldable pub source_priority : Text → ℕ
source_priority source =
    if source == txt "asura"
    then 4
    else if source == txt "mangadex"
    then 3
    else if source == txt "mangafire"
    then 2
    else if source == txt "kingofshojo"
    then 1
    else 0

-- `_release_preference`
abbrev pub release_preference : Release → List ℕ
release_preference r = source_priority r.source ∷ r.quality_rank ∷ r.id ∷ []

abbrev pub is_downloadable : ℕ → Option ℕ → Bool
is_downloadable now none = true
is_downloadable now (some at) = leb at now

-- `max(rows, key=..., default=None)`: the first of the greatest rows.
unfoldable pub most_preferred : List Release → Option Release
most_preferred [] = none
most_preferred (r ∷ rs) = elim (most_preferred rs) [
  | none ↦ some r
  | some s ↦ some (if lex_lt (release_preference r) (release_preference s) then s else r)
]

abbrev pub is_candidate : ℕ → ℕ → Release → Bool
is_candidate chapter_id now r =
    r.chapter_id == chapter_id && is_downloadable now r.downloadable_after

unfoldable pub best_release : List Release → ℕ → ℕ → Option Release
best_release releases chapter_id now = most_preferred (keep (is_candidate chapter_id now) releases)

abbrev pub is_alternative : ℕ → ℕ → List Text → ℕ → Release → Bool
is_alternative chapter_id failed_id excluded now r =
    r.chapter_id == chapter_id
    && not (r.id == failed_id)
    && not (contains excluded r.source)
    && is_downloadable now r.downloadable_after

unfoldable pub fallback_release : List Release → ℕ → ℕ → List Text → ℕ → Option Release
fallback_release releases chapter_id failed_id excluded now =
    most_preferred (keep (is_alternative chapter_id failed_id excluded now) releases)
