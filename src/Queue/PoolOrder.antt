-- ===== src/Queue/PoolOrder.antt =====
-- manga_manager/infrastructure/job_queue.py: `sorted(set(...))` in `_acquire_permits`, a list of
-- pools that ascends, so that no pool stands in it twice.
use manga_manager.Queue.Ordering.{lex_lt_irrefl}
use manga_manager.Queue.Rows.{WorkJob}
use manga_manager.Prelude.{
  ℕ, count_if, List, list_beq, Text, All, ◌∷◌, ◌≡◌, ◌==◌, true, ◌≤◌, false, [], Bool-cases, arith,
  is_empty, text_eq, inl, inr, refl, list_beq_iff, nat_eq,
}
use manga_manager.Queue.Permits.{lex_lt, insert_pool, sort_pools, permit_pools}

lex_lt_trans : (a b c : List ℕ) → lex_lt a b ≡ true → lex_lt b c ≡ true → lex_lt a c ≡ true
unfolding lex_lt
lex_lt_trans [] [] [] h k = cc
lex_lt_trans [] (y ∷ b) [] h k = cc
lex_lt_trans (x ∷ a) [] [] h k = cc
lex_lt_trans (x ∷ a) (y ∷ b) [] h k = cc
lex_lt_trans [] [] (z ∷ c) h k = refl
lex_lt_trans [] (y ∷ b) (z ∷ c) h k = refl
lex_lt_trans (x ∷ a) [] (z ∷ c) h k = cc
lex_lt_trans (x ∷ a) (y ∷ b) (z ∷ c) h k = ground (arith, lex_lt_trans a b c)

lex_lt_total : (a b : List ℕ) → a == b ≡ false → lex_lt a b ≡ false → lex_lt b a ≡ true
unfolding lex_lt list_beq
lex_lt_total [] [] h k = cc
lex_lt_total [] (y ∷ b) h k = cc
lex_lt_total (x ∷ a) [] h k = refl
lex_lt_total (x ∷ a) (y ∷ b) h k = ground (arith, lex_lt_total a b)

abbrev Above : Text → Text → Type 0
Above a b = lex_lt a b ≡ true

abbrev Ascending : List Text → Type 0
Ascending [] = Unit
Ascending (x ∷ xs) = All (Above x) xs × Ascending xs

Above-insert_pool :
    (z x : Text) (ys : List Text) → Above z x → All (Above z) ys → All (Above z) (insert_pool x ys)
unfolding insert_pool
Above-insert_pool z x [] h a = (h, tt)
Above-insert_pool z x (y ∷ ys) h a = elim (Bool-cases (x == y)) [
  | inl e ↦ rw e a
  | inr e ↦ elim (Bool-cases (lex_lt x y)) [
    | inl l ↦ rw (e, l) (h, a)
    | inr l ↦ rw (e, l) (a.0, Above-insert_pool z x ys h a.1)
  ]
]

Above-lower : (a b : Text) (xs : List Text) → Above a b → All (Above b) xs → All (Above a) xs
Above-lower a b [] h k = tt
Above-lower a b (x ∷ xs) h k = (lex_lt_trans a b x h k.0, Above-lower a b xs h k.1)

insert_pool-Ascending : (x : Text) (ys : List Text) → Ascending ys → Ascending (insert_pool x ys)
unfolding insert_pool
insert_pool-Ascending x [] a = (tt, tt)
insert_pool-Ascending x (y ∷ ys) a = elim (Bool-cases (x == y)) [
  | inl e ↦ rw e a
  | inr e ↦ elim (Bool-cases (lex_lt x y)) [
    | inl l ↦ rw (e, l) ((l, Above-lower x y ys l a.0), a)
    | inr l ↦
        rw (e, l)
          (Above-insert_pool y x ys (lex_lt_total x y e l) a.0, insert_pool-Ascending x ys a.1)
  ]
]

sort_pools-Ascending : (xs : List Text) → Ascending (sort_pools xs)
unfolding sort_pools
sort_pools-Ascending [] = tt
sort_pools-Ascending (x ∷ xs) = elim (Bool-cases (is_empty x)) [
  | inl e ↦ rw e (sort_pools-Ascending xs)
  | inr e ↦ rw e (insert_pool-Ascending x (sort_pools xs) (sort_pools-Ascending xs))
]

absent-Above : (x : Text) (xs : List Text) → All (Above x) xs → count_if (λ p. p == x) xs ≡ 0
unfolding count_if
absent-Above x [] a = refl
absent-Above x (y ∷ ys) a = elim (Bool-cases (y == x)) [
  | inl e ↦ absurd (
      let same = (list_beq_iff y x).0 e in
      let self = lex_lt_irrefl x in let bad : lex_lt x x ≡ true = rw same at a.0 in cc)
  | inr e ↦ rw e (omega (arith, absent-Above x ys a.1))
]

once : (pool : Text) (xs : List Text) → Ascending xs → count_if (λ p. p == pool) xs ≤ 1
unfolding count_if
once pool [] a = omega arith
once pool (x ∷ xs) a = elim (Bool-cases (x == pool)) [
  | inl e ↦
      let same = (list_beq_iff x pool).0 e in
      let others : count_if (λ p. p == pool) xs ≡ 0 = rw (← same) (absent-Above x xs a.0) in
      rw e (omega (arith, others))
  | inr e ↦ rw e (omega (arith, once pool xs a.1))
]

-- A job takes one permit of a pool at most.
pub permit_pools_once :
    (job : WorkJob) (pool : Text) → count_if (λ p. p == pool) (permit_pools job) ≤ 1
unfolding permit_pools
permit_pools_once job pool = once pool (permit_pools job) (sort_pools-Ascending _)
