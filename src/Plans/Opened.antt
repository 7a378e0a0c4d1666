-- ===== src/Plans/Opened.antt =====
-- manga_manager/application/download_plans.py: the plan of a series once it is opened.
use manga_manager.Plans.Tracking.{open_plan, reopen}
use manga_manager.Plans.Reconcile.{is_plan, is_active_plan}
use manga_manager.Prelude.{
  ◌≡◌, nat_eq, sym, ◌∙◌, find, ℕ, any, List, update_where, All, true, none, ◌∷◌, some, Option-cases,
  Bool-cases, false, find-In, inl, ◌==◌, All-In, inr, All-update_where, [], nat_beq_iff, refl,
}
use manga_manager.Plans.Rows.{Plan}

-- The plans of the series, if there are any, are active.
abbrev pub AllActive : ℕ → List Plan → Type 0
AllActive series_id = All (λ p. is_plan series_id p ≡ true → is_active_plan p ≡ true)

none_found :
    (series_id : ℕ) (ps : List Plan) → find (is_plan series_id) ps ≡ none → AllActive series_id ps
unfolding find
none_found series_id [] e = tt
none_found series_id (p ∷ ps) e = elim (Bool-cases (is_plan series_id p)) [
  | inl t ↦ absurd (let bad : some p ≡ none = rw t at e in cc)
  | inr t ↦
      (λ h. absurd (let bad : true ≡ false = sym h ∙ t in cc), none_found series_id ps (rw t at e))
]

pub open_plan-AllActive :
    (series_id now : ℕ) (plans : List Plan) → AllActive series_id (open_plan series_id now plans).1
open_plan-AllActive series_id now plans = elim (Option-cases (find (is_plan series_id) plans)) [
  | inl e ↦ rw (e, open_plan) (λ _. refl, none_found series_id plans e)
  | inr (p, e) ↦
      rw (e, open_plan)
        (All-update_where (λ _. Unit {0})
          (λ q. is_plan series_id q ≡ true → is_active_plan q ≡ true) (is_plan series_id) reopen
          plans (λ q t _ _. refl) (λ q f _ t. absurd (let bad : true ≡ false = sym t ∙ f in cc))
          (trivial plans))
]
  where
    trivial : (ps : List Plan) → All (λ _. Unit {0}) ps
    trivial [] = tt
    trivial (p ∷ ps) = (tt, trivial ps)

pub any-update_where :
    (f : Plan → Plan) (series_id : ℕ) (plans : List Plan)
    → ((p : Plan) → (f p).series_id ≡ p.series_id)
    → any (is_plan series_id) plans ≡ true
    → any (is_plan series_id) (update_where (is_plan series_id) f plans) ≡ true
unfolding any update_where
any-update_where f series_id [] g h = h
any-update_where f series_id (p ∷ ps) g h = elim (Bool-cases (is_plan series_id p)) [
  | inl t ↦ rw (t, g p, t) refl
  | inr t ↦ rw (t, t) (any-update_where f series_id ps g (rw t at h))
]

pub any-none :
    (series_id : ℕ) (plans : List Plan)
    → find (is_plan series_id) plans ≡ none
    → any (is_plan series_id) plans ≡ false
unfolding any find
any-none series_id [] e = refl
any-none series_id (x ∷ ps) e = elim (Bool-cases (is_plan series_id x)) [
  | inl t ↦ absurd (let bad : some x ≡ none = rw t at e in cc)
  | inr t ↦ rw t (any-none series_id ps (rw t at e))
]

any-found :
    (p : Plan) (series_id : ℕ) (plans : List Plan)
    → find (is_plan series_id) plans ≡ some p
    → any (is_plan series_id) plans ≡ true
unfolding any find
any-found p series_id [] e = cc
any-found p series_id (x ∷ ps) e = elim (Bool-cases (is_plan series_id x)) [
  | inl t ↦ rw t refl
  | inr t ↦ rw t (any-found p series_id ps (rw t at e))
]

pub open_plan-found :
    (series_id now : ℕ) (plans : List Plan)
    → any (is_plan series_id) (open_plan series_id now plans).1 ≡ true
unfolding any
open_plan-found series_id now plans = elim (Option-cases (find (is_plan series_id) plans)) [
  | inl e ↦
      rw (e, open_plan)
        (let same : (series_id == series_id) ≡ true = (nat_beq_iff series_id series_id).1 refl in
          rw same refl)
  | inr (p, e) ↦
      rw (e, open_plan)
        (any-update_where reopen series_id plans (λ _. refl) (any-found p series_id plans e))
]

-- The plan that is found is active.
pub found_active :
    (p : Plan) (series_id : ℕ) (plans : List Plan)
    → find (is_plan series_id) plans ≡ some p
    → AllActive series_id plans
    → (is_active_plan p ≡ true) × (p.series_id ≡ series_id)
found_active p series_id plans e a =
    let (m, t) = find-In (is_plan series_id) plans p e in
    (
      All-In (λ q. is_plan series_id q ≡ true → is_active_plan q ≡ true) p plans a m t,
      (nat_beq_iff p.series_id series_id).0 t,
    )
