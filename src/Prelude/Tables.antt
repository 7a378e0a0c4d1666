-- ===== src/Prelude/Tables.antt =====
-- Tables before and after an update: rows by place, membership by place, and what an update of
-- the rows of a `where` does to each.
use mathlib.Core.Path.{refl, ◌≡◌, sym}
use mathlib.Core.Logic.{◌⊎◌, inl, inr}
use mathlib.Core.Bool.{Bool, true, false}
use mathlib.Core.List.{List, [], ◌∷◌}
use mathlib.Core.Option.{none, some}
use native.Mathlib.Omega.{arith}
use manga_manager.Prelude.Tests.{Bool-cases}
use manga_manager.Prelude.Lists.{All, keep, find, update_where}

module _ {ℓ} {A : Type ℓ} where
  -- Two tables with the same places, related row by row.
  abbrev pub Pointwise : (A → A → Type 0) → List A → List A → Type 0
  Pointwise R [] [] = Unit
  Pointwise R [] (y ∷ ys) = ⊥
  Pointwise R (x ∷ xs) [] = ⊥
  Pointwise R (x ∷ xs) (y ∷ ys) = R x y × Pointwise R xs ys

  pub Pointwise-refl : (R : A → A → Type 0) (xs : List A) → ((x : A) → R x x) → Pointwise R xs xs
  Pointwise-refl R [] r = tt
  Pointwise-refl R (x ∷ xs) r = (r x, Pointwise-refl R xs r)

  pub Pointwise-trans :
      (R : A → A → Type 0) (xs ys zs : List A)
      → ((x y z : A) → R x y → R y z → R x z)
      → Pointwise R xs ys
      → Pointwise R ys zs
      → Pointwise R xs zs
  Pointwise-trans R [] [] [] t p q = tt
  Pointwise-trans R [] [] (z ∷ zs) t p q = elim q [ ]
  Pointwise-trans R [] (y ∷ ys) zs t p q = elim p [ ]
  Pointwise-trans R (x ∷ xs) [] zs t p q = elim p [ ]
  Pointwise-trans R (x ∷ xs) (y ∷ ys) [] t p q = elim q [ ]
  Pointwise-trans R (x ∷ xs) (y ∷ ys) (z ∷ zs) t p q =
      (t x y z p.0 q.0, Pointwise-trans R xs ys zs t p.1 q.1)

  pub Pointwise-mono :
      (R S : A → A → Type 0) (xs ys : List A)
      → ((x y : A) → R x y → S x y)
      → Pointwise R xs ys
      → Pointwise S xs ys
  Pointwise-mono R S [] [] f p = tt
  Pointwise-mono R S [] (y ∷ ys) f p = elim p [ ]
  Pointwise-mono R S (x ∷ xs) [] f p = elim p [ ]
  Pointwise-mono R S (x ∷ xs) (y ∷ ys) f p = (f x y p.0, Pointwise-mono R S xs ys f p.1)

  pub All-Pointwise :
      (P : A → Type 0) (R : A → A → Type 0) (xs ys : List A)
      → ((x y : A) → R x y → P x → P y)
      → Pointwise R xs ys
      → All P xs
      → All P ys
  All-Pointwise P R [] [] f p a = tt
  All-Pointwise P R [] (y ∷ ys) f p a = elim p [ ]
  All-Pointwise P R (x ∷ xs) [] f p a = elim p [ ]
  All-Pointwise P R (x ∷ xs) (y ∷ ys) f p a = (f x y p.0 a.0, All-Pointwise P R xs ys f p.1 a.1)

  -- An update of the rows of a `where` is a change of exactly those.
  pub update_where-Pointwise :
      (R : A → A → Type 0) (p : A → Bool) (f : A → A) (xs : List A)
      → ((x : A) → p x ≡ true → R x (f x))
      → ((x : A) → R x x)
      → Pointwise R xs (update_where p f xs)
  unfolding update_where
  update_where-Pointwise R p f [] c r = tt
  update_where-Pointwise R p f (x ∷ xs) c r = elim (Bool-cases (p x)) [
    | inl e ↦ rw e (c x e, update_where-Pointwise R p f xs c r)
    | inr e ↦ rw e (r x, update_where-Pointwise R p f xs c r)
  ]

module _ {A : Type 0} where
  abbrev pub In : A → List A → Type 0
  In a [] = ⊥
  In a (x ∷ xs) = (a ≡ x) ⊎ In a xs

  pub All-In : (P : A → Type 0) (a : A) (xs : List A) → All P xs → In a xs → P a
  All-In P a [] h m = elim m [ ]
  All-In P a (x ∷ xs) h (inl e) = rw e h.0
  All-In P a (x ∷ xs) h (inr m) = All-In P a xs h.1 m

  -- What a search finds is a row that passes its test.
  pub find-In : (p : A → Bool) (xs : List A) (a : A) → find p xs ≡ some a → In a xs × (p a ≡ true)
  unfolding find
  find-In p [] a h = cc
  find-In p (x ∷ xs) a h = elim (Bool-cases (p x)) [
    | inl e ↦ let same : x ≡ a = ground arith in (inl (sym same), rw same at e)
    | inr e ↦ let (m, t) = find-In p xs a (ground arith) in (inr m, t)
  ]

  In-cons :
      (p : A → Bool) (x : A) (xs ys : List A) (a : A)
      → p x ≡ true
      → (In a ys → In a xs × (p a ≡ true))
      → In a (x ∷ ys)
      → In a (x ∷ xs) × (p a ≡ true)
  In-cons p x xs ys a e ih (inl same) = (inl same, rw same e)
  In-cons p x xs ys a e ih (inr m) = let (n, t) = ih m in (inr n, t)

  pub keep-In : (p : A → Bool) (xs : List A) (a : A) → In a (keep p xs) → In a xs × (p a ≡ true)
  unfolding keep
  keep-In p [] a h = elim h [ ]
  keep-In p (x ∷ xs) a h = elim (Bool-cases (p x)) [
    | inl e ↦ In-cons p x xs (keep p xs) a e (keep-In p xs a) (rw e at h)
    | inr e ↦ let (m, t) = keep-In p xs a (rw e at h) in (inr m, t)
  ]

  -- A row that passes is found.
  pub find-none : (p : A → Bool) (xs : List A) (a : A) → find p xs ≡ none → In a xs → p a ≡ false
  unfolding find
  find-none p [] a h m = elim m [ ]
  find-none p (x ∷ xs) a h (inl e) = rw e (ground (arith, Bool-cases (p x)))
  find-none p (x ∷ xs) a h (inr m) = find-none p xs a (ground (arith, Bool-cases (p x))) m

  pub Pointwise-In :
      (R : A → A → Type 0) (xs ys : List A) (a : A)
      → Pointwise R xs ys
      → In a xs
      → (b : A) × In b ys × R a b
  Pointwise-In R [] ys a p m = elim m [ ]
  Pointwise-In R (x ∷ xs) [] a p m = elim p [ ]
  Pointwise-In R (x ∷ xs) (y ∷ ys) a p (inl e) = (y, inl refl, rw e p.0)
  Pointwise-In R (x ∷ xs) (y ∷ ys) a p (inr m) =
      let (b, there, r) = Pointwise-In R xs ys a p.1 m in (b, inr there, r)

  -- A row that passes is kept.
  pub In-keep : (p : A → Bool) (a : A) (xs : List A) → In a xs → p a ≡ true → In a (keep p xs)
  unfolding keep
  In-keep p a [] m h = elim m [ ]
  In-keep p a (x ∷ xs) (inl e) h = let t : p x ≡ true = rw (sym e) h in rw t (inl e)
  In-keep p a (x ∷ xs) (inr m) h = elim (Bool-cases (p x)) [
    | inl q ↦ rw q (inr (In-keep p a xs m h))
    | inr q ↦ rw q (In-keep p a xs m h)
  ]

  -- A row after a change comes from a row before it.
  pub Pointwise-origin :
      (R : A → A → Type 0) (xs ys : List A) (b : A)
      → Pointwise R xs ys
      → In b ys
      → (a : A) × In a xs × R a b
  Pointwise-origin R xs [] b p m = elim m [ ]
  Pointwise-origin R [] (y ∷ ys) b p m = elim p [ ]
  Pointwise-origin R (x ∷ xs) (y ∷ ys) b p (inl e) = (x, inl refl, rw e p.0)
  Pointwise-origin R (x ∷ xs) (y ∷ ys) b p (inr m) =
      let (a, there, r) = Pointwise-origin R xs ys b p.1 m in (a, inr there, r)

  -- An update of rows of the table is a change of exactly those.
  pub update_In-Pointwise :
      (R : A → A → Type 0) (p : A → Bool) (f : A → A) (xs : List A)
      → ((x : A) → In x xs → p x ≡ true → R x (f x))
      → ((x : A) → R x x)
      → Pointwise R xs (update_where p f xs)
  unfolding update_where
  update_In-Pointwise R p f [] c r = tt
  update_In-Pointwise R p f (x ∷ xs) c r =
      let rest = update_In-Pointwise R p f xs (λ y m. c y (inr m)) r in
      elim (Bool-cases (p x)) [ inl e ↦ rw e (c x (inl refl) e, rest) | inr e ↦ rw e (r x, rest) ]

  -- A weaker relation holds where the stronger does of rows of the table.
  pub Pointwise-mono_In :
      (R S : A → A → Type 0) (xs ys : List A)
      → ((x y : A) → In x xs → R x y → S x y)
      → Pointwise R xs ys
      → Pointwise S xs ys
  Pointwise-mono_In R S [] [] f p = tt
  Pointwise-mono_In R S [] (y ∷ ys) f p = elim p [ ]
  Pointwise-mono_In R S (x ∷ xs) [] f p = elim p [ ]
  Pointwise-mono_In R S (x ∷ xs) (y ∷ ys) f p =
      (f x y (inl refl) p.0, Pointwise-mono_In R S xs ys (λ a b m. f a b (inr m)) p.1)

  -- An update changes the rows of its test.
  pub In-changed :
      (p : A → Bool) (f : A → A) (a : A) (xs : List A)
      → In a xs
      → p a ≡ true
      → In (f a) (update_where p f xs)
  unfolding update_where
  In-changed p f a [] m h = elim m [ ]
  In-changed p f a (x ∷ xs) (inl e) h = inl (let t : p x ≡ true = rw (sym e) h in rw (t, e) refl)
  In-changed p f a (x ∷ xs) (inr m) h = inr (In-changed p f a xs m h)

  pub All-update_where :
      (P Q : A → Type 0) (p : A → Bool) (f : A → A) (xs : List A)
      → ((x : A) → p x ≡ true → P x → Q (f x))
      → ((x : A) → p x ≡ false → P x → Q x)
      → All P xs
      → All Q (update_where p f xs)
  unfolding update_where
  All-update_where P Q p f [] changed kept a = tt
  All-update_where P Q p f (x ∷ xs) changed kept a = elim (Bool-cases (p x)) [
    | inl e ↦ rw e (changed x e a.0, All-update_where P Q p f xs changed kept a.1)
    | inr e ↦ rw e (kept x e a.0, All-update_where P Q p f xs changed kept a.1)
  ]

  pub All-mono : (P Q : A → Type 0) (xs : List A) → ((x : A) → P x → Q x) → All P xs → All Q xs
  All-mono P Q [] h a = tt
  All-mono P Q (x ∷ xs) h a = (h x a.0, All-mono P Q xs h a.1)
