-- ===== src/Queue/Ordering.antt =====
-- manga_manager/infrastructure/job_queue.py: the order of `claim_query`.
use manga_manager.Queue.Candidates.{select_candidate-In}
use manga_manager.Prelude.{
  ℕ, ◌≡◌, ◌⊎◌, inl, inr, refl, List, [], ◌∷◌, true, false, some, none, In, arith, Option-cases,
  keep, subst, Bool-cases, Bool, ◌≤◌,
}
use manga_manager.Domain.Jobs.{chapter_download}
use manga_manager.Queue.Rows.{WorkJob, Db}
use manga_manager.Queue.Permits.{lex_lt}
use manga_manager.Queue.Eligible.{
  ClaimFilter, first_by, rank, is_claimable, select_candidate, scheduling_tier,
}

pub lex_lt_asym : (a b : List ℕ) → lex_lt a b ≡ true → lex_lt b a ≡ false
unfolding lex_lt
lex_lt_asym [] [] h = refl
lex_lt_asym [] (y ∷ b) h = refl
lex_lt_asym (x ∷ a) [] h = cc
lex_lt_asym (x ∷ a) (y ∷ b) h = ground (arith, lex_lt_asym a b)

-- Below `c` and not below `b`: then `b` is below `c`.
pub lex_lt_cotrans : (a b c : List ℕ) → lex_lt a c ≡ true → lex_lt a b ≡ false → lex_lt b c ≡ true
unfolding lex_lt
lex_lt_cotrans [] [] c h k = h
lex_lt_cotrans [] (y ∷ b) c h k = cc
lex_lt_cotrans (x ∷ a) b [] h k = cc
lex_lt_cotrans (x ∷ a) [] (z ∷ c) h k = refl
lex_lt_cotrans (x ∷ a) (y ∷ b) (z ∷ c) h k = ground (arith, lex_lt_cotrans a b c)

pub lex_lt_irrefl : (a : List ℕ) → lex_lt a a ≡ false
lex_lt_irrefl a = elim (Bool-cases (lex_lt a a)) [ inl e ↦ lex_lt_asym a a e | inr e ↦ e ]

pub lex_lt_above : (a b c : List ℕ) → lex_lt a b ≡ false → lex_lt b c ≡ false → lex_lt a c ≡ false
lex_lt_above a b c h k = elim (Bool-cases (lex_lt a c)) [
  | inl e ↦ absurd (let bad = lex_lt_cotrans a b c e h in cc)
  | inr e ↦ e
]

first_by-none : (key : WorkJob → List ℕ) (js : List WorkJob) → first_by key js ≡ none → js ≡ []
unfolding first_by
first_by-none key [] h = refl
first_by-none key (j ∷ js) h = ground arith

-- One more row in front: the first row is it, or the first of the others.
first_by-cons :
    (key : WorkJob → List ℕ) (j y c : WorkJob) (js : List WorkJob)
    → first_by key js ≡ some y
    → first_by key (j ∷ js) ≡ some c
    → ((c ≡ y) × (lex_lt (key y) (key j) ≡ true)) ⊎ ((c ≡ j) × (lex_lt (key y) (key j) ≡ false))
unfolding first_by
first_by-cons key j y c js e h = ground arith

first_by-least :
    (key : WorkJob → List ℕ) (js : List WorkJob) (c k : WorkJob)
    → first_by key js ≡ some c
    → In k js
    → lex_lt (key k) (key c) ≡ false
first_by-least key [] c k h m = elim m [ ]
first_by-least key (j ∷ js) c k h m = elim (Option-cases (first_by key js)) [
  | inl e ↦ alone e m
  | inr (y, e) ↦ choose y (first_by-cons key j y c js e h) (λ i. first_by-least key js y k e i) m
]
  where
    alone : first_by key js ≡ none → In k (j ∷ js) → lex_lt (key k) (key c) ≡ false
    alone e (inl same) =
        let first : j ≡ c = unfold first_by in ground arith in
        rw (same, ← first) (lex_lt_irrefl (key j))
    alone e (inr i) = absurd (subst (In k) (first_by-none key js e) i)

    choose :
        (y : WorkJob)
        → ((c ≡ y) × (lex_lt (key y) (key j) ≡ true)) ⊎ ((c ≡ j) × (lex_lt (key y) (key j) ≡ false))
        → (In k js → lex_lt (key k) (key y) ≡ false)
        → In k (j ∷ js)
        → lex_lt (key k) (key c) ≡ false
    choose y (inl (e, t)) ih (inl same) = rw (same, e) (lex_lt_asym (key y) (key j) t)
    choose y (inl (e, t)) ih (inr i) = rw e (ih i)
    choose y (inr (e, t)) ih (inl same) = rw (same, e) (lex_lt_irrefl (key j))
    choose y (inr (e, t)) ih (inr i) = rw e (lex_lt_above (key k) (key y) (key j) (ih i) t)

keep-In_of :
    (p : WorkJob → Bool) (js : List WorkJob) (k : WorkJob) → In k js → p k ≡ true → In k (keep p js)
unfolding keep
keep-In_of p [] k m h = elim m [ ]
keep-In_of p (j ∷ js) k (inl e) h = rw (rw e at h) (inl e)
keep-In_of p (j ∷ js) k (inr m) h = elim (Bool-cases (p j)) [
  | inl e ↦ rw e (inr (keep-In_of p js k m h))
  | inr e ↦ rw e (keep-In_of p js k m h)
]

-- The candidate of a claim is a claimable row of the table, and no claimable row stands before it
-- in the order by tier, load of its group, priority, time and id. Where there is no candidate, no
-- row is claimable.
pub select_candidate-least :
    (db : Db) (now : ℕ) (f : ClaimFilter)
    → ((select_candidate db now f ≡ none)
        × ((k : WorkJob) → In k db.jobs → is_claimable db now f k ≡ false))
      ⊎ ((c : WorkJob) × (select_candidate db now f ≡ some c)
          × In c db.jobs
          × (is_claimable db now f c ≡ true)
          × ((k : WorkJob)
              → In k db.jobs
              → is_claimable db now f k ≡ true
              → lex_lt (rank db now k) (rank db now c) ≡ false))
unfolding select_candidate
select_candidate-least db now f = elim (Option-cases (select_candidate db now f)) [
  | inl e ↦ inl (
    e,
    λ k m. elim (Bool-cases (is_claimable db now f k)) [
      | inl t ↦ absurd (
          subst (In k) (first_by-none (rank db now) _ e)
            (keep-In_of (is_claimable db now f) db.jobs k m t))
      | inr t ↦ t
    ],
  )
  | inr (c, e) ↦
      let (m, t) = select_candidate-In db now f c e in
      inr (
        c,
        e,
        m,
        t,
        λ k i h.
            first_by-least (rank db now) _ c k e (keep-In_of (is_claimable db now f) db.jobs k i h),
      )
]

tier_zero : (j : WorkJob) → scheduling_tier j ≡ 0 → j.kind ≡ chapter_download
unfolding scheduling_tier
tier_zero j h = ground arith

download_tier : (j : WorkJob) → j.kind ≡ chapter_download → scheduling_tier j ≡ 0
unfolding scheduling_tier
download_tier j h = ground arith

rank_tier :
    (db : Db) (now : ℕ) (k c : WorkJob)
    → lex_lt (rank db now k) (rank db now c) ≡ false
    → scheduling_tier c ≤ scheduling_tier k
unfolding lex_lt rank
rank_tier db now k c h = ground arith

-- Downloads have strict priority: while a claimable download stands in the table, the candidate is
-- a download.
pub downloads_first :
    (db : Db) (now : ℕ) (f : ClaimFilter) (k : WorkJob)
    → In k db.jobs
    → is_claimable db now f k ≡ true
    → k.kind ≡ chapter_download
    → (c : WorkJob) × (select_candidate db now f ≡ some c) × (c.kind ≡ chapter_download)
downloads_first db now f k m t d = elim (select_candidate-least db now f) [
  | inl (e, empty) ↦ absurd (let bad = empty k m in cc)
  | inr (c, e, i, u, least) ↦
      (c, e, tier_zero c (omega (arith, rank_tier db now k c (least k m t), download_tier k d)))
]
