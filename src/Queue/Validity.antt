-- ===== src/Queue/Validity.antt =====
-- manga_manager/infrastructure/db_models.py: the check constraints of the job table and what the
-- queue adds to them, and how one row may change: the relation that every operation keeps.
use manga_manager.Prelude.{
  ℕ, ◌≤◌, ◌<◌, ◌≡◌, ◌≢◌, refl, ◌∙◌, inl, inr, true, false, List, [], ◌∷◌, none, arith, is_some,
  is_empty, ◌==◌, nat_eq, update_where, Pointwise, Pointwise-refl, In, nat_beq_iff, keep, ap, Bool,
  Bool-cases,
}
use manga_manager.Domain.Jobs.{leased, is_terminal}
use manga_manager.Queue.Rows.{WorkJob}

pub record IsValid (j : WorkJob) : Type 0 where
  pub owner_set : j.status ≡ leased → is_empty j.lease_owner ≡ false
  pub expiry_set : j.status ≡ leased → is_some j.lease_expires_at ≡ true
  pub owner_clear : j.status ≢ leased → j.lease_owner ≡ []
  pub expiry_clear : j.status ≢ leased → j.lease_expires_at ≡ none
  pub attempts_bounded : j.attempts ≤ j.max_attempts
  pub attempt_counted : j.status ≡ leased → 0 < j.attempts
  pub completion : is_some j.completed_at ≡ is_terminal j.status
  pub units_positive : 0 < j.logical_units
  pub key_set : is_empty j.dedupe_key ≡ false

-- A row keeps its identity and its validity, and once it has ended it does not change at all.
pub record Evolves (j k : WorkJob) : Type 0 where
  pub same_id : k.id ≡ j.id
  pub same_kind : k.kind ≡ j.kind
  pub same_key : k.dedupe_key ≡ j.dedupe_key
  pub absorbing : is_terminal j.status ≡ true → k ≡ j
  pub keeps : IsValid j → IsValid k

pub Evolves-refl : (j : WorkJob) → Evolves j j
Evolves-refl j = record {
  same_id = refl;
  same_kind = refl;
  same_key = refl;
  absorbing = λ _. refl;
  keeps = λ v. v;
}

pub Evolves-trans : (i j k : WorkJob) → Evolves i j → Evolves j k → Evolves i k
Evolves-trans i j k p q = record {
  same_id = q.same_id ∙ p.same_id;
  same_kind = q.same_kind ∙ p.same_kind;
  same_key = q.same_key ∙ p.same_key;
  absorbing = λ t. let e = p.absorbing t in q.absorbing (rw e t) ∙ e;
  keeps = λ v. q.keeps (p.keeps v);
}

-- Ids fall along the table, below the next key: the newest row stands first.
abbrev pub Descending : ℕ → List WorkJob → Type 0
Descending n [] = Unit {0}
Descending n (j ∷ js) = (j.id < n) × Descending j.id js

-- A change that keeps the ids keeps their order.
pub Descending-related :
    (R : WorkJob → WorkJob → Type 0) (n : ℕ) (js ks : List WorkJob)
    → ((j k : WorkJob) → R j k → k.id ≡ j.id)
    → Pointwise R js ks
    → Descending n js
    → Descending n ks
Descending-related R n [] [] same p d = tt
Descending-related R n [] (k ∷ ks) same p d = elim p [ ]
Descending-related R n (j ∷ js) [] same p d = elim p [ ]
Descending-related R n (j ∷ js) (k ∷ ks) same p d =
    let e = same j k p.0 in (rw e d.0, rw e (Descending-related R j.id js ks same p.1 d.1))

pub Descending-Pointwise :
    (n : ℕ) (js ks : List WorkJob) → Pointwise Evolves js ks → Descending n js → Descending n ks
Descending-Pointwise n js ks = Descending-related Evolves n js ks (λ j k e. e.same_id)

pub Descending-In : (n : ℕ) (js : List WorkJob) (c : WorkJob) → Descending n js → In c js → c.id < n
Descending-In n [] c d m = elim m [ ]
Descending-In n (j ∷ js) c d (inl e) = rw e d.0
Descending-In n (j ∷ js) c d (inr m) = omega (arith, Descending-In j.id js c d.1 m)

-- An update by an id above the table changes nothing.
update_above :
    (n i : ℕ) (f : WorkJob → WorkJob) (js : List WorkJob)
    → Descending n js
    → n ≤ i
    → update_where (λ j. j.id == i) f js ≡ js
unfolding update_where
update_above n i f [] d h = refl
update_above n i f (j ∷ js) d h = ground (arith, update_above j.id i f js d.1)

-- An update by the id of a row changes that row alone.
pub update_id-Pointwise :
    (R : WorkJob → WorkJob → Type 0) (n : ℕ) (f : WorkJob → WorkJob) (c : WorkJob)
    (js : List WorkJob)
    → Descending n js
    → In c js
    → R c (f c)
    → ((j : WorkJob) → R j j)
    → Pointwise R js (update_where (λ j. j.id == c.id) f js)
unfolding update_where
update_id-Pointwise R n f c [] d m h r = elim m [ ]
update_id-Pointwise R n f c (j ∷ js) d (inl e) h r =
    let here : (j.id == c.id) ≡ true = rw e ((nat_beq_iff j.id j.id).1 refl) in
    rw (here, update_above j.id c.id f js d.1 (rw e (omega arith)))
      (rw e at h, Pointwise-refl R js r)
update_id-Pointwise R n f c (j ∷ js) d (inr m) h r =
    let below = Descending-In j.id js c d.1 m in
    let apart : (j.id == c.id) ≡ false = ground arith in
    rw apart (r j, update_id-Pointwise R j.id f c js d.1 m h r)

-- A row with another id is still there.
pub In-update_ne :
    (i : ℕ) (f : WorkJob → WorkJob) (k : WorkJob) (js : List WorkJob)
    → k.id ≢ i
    → In k js
    → In k (update_where (λ j. j.id == i) f js)
unfolding update_where
In-update_ne i f k [] h m = elim m [ ]
In-update_ne i f k (j ∷ js) h (inl e) =
    let apart : (j.id == i) ≡ false = rw (← e) (ground arith) in rw apart (inl e)
In-update_ne i f k (j ∷ js) h (inr m) = inr (In-update_ne i f k js h m)

-- The row itself is there as changed.
pub In-update_self :
    (f : WorkJob → WorkJob) (k : WorkJob) (js : List WorkJob)
    → In k js
    → In (f k) (update_where (λ j. j.id == k.id) f js)
unfolding update_where
In-update_self f k [] m = elim m [ ]
In-update_self f k (j ∷ js) (inl e) =
    let here : (j.id == k.id) ≡ true = rw e ((nat_beq_iff j.id j.id).1 refl) in
    rw here (inl (ap f e))
In-update_self f k (j ∷ js) (inr m) = inr (In-update_self f k js m)

Descending-mono : (m n : ℕ) (js : List WorkJob) → m ≤ n → Descending m js → Descending n js
Descending-mono m n [] h d = tt
Descending-mono m n (j ∷ js) h d = (omega arith, d.1)

pub Descending-keep :
    (p : WorkJob → Bool) (n : ℕ) (js : List WorkJob) → Descending n js → Descending n (keep p js)
unfolding keep
Descending-keep p n [] d = tt
Descending-keep p n (j ∷ js) d = elim (Bool-cases (p j)) [
  | inl e ↦ rw e (d.0, Descending-keep p j.id js d.1)
  | inr e ↦ rw e (Descending-keep p n js (Descending-mono j.id n js (omega arith) d.1))
]
