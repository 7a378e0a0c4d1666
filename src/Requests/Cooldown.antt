-- ===== src/Requests/Cooldown.antt =====
-- manga_manager/infrastructure/provider_scheduler.py: no request starts inside a cooldown.
use manga_manager.Prelude.{
  ℕ, ◌≡◌, ◌≤◌, ◌<◌, ◌⊎◌, inl, inr, find, some, true, false, ◌+◌, Bool-cases, contains, none,
  some-injective, ltb, text_eq, sym, ltb→lt, ap, ◌∙◌, arith, ◌-◌, nat_eq,
}
use manga_manager.Prelude.{Option, Option-cases, list_beq_iff, refl, max, subst}
use native.Mathlib.Nat.{le_trans}
use manga_manager.Queue.Rows.{CatalogSourceState}
use manga_manager.Requests.Reserve.{
  Tables, EndpointState, Request, Reservation, reserve, reserve_slot, open_state, open_endpoint,
  is_state, is_endpoint, cooldown_end, known_sources, later,
}

rest_of : (a b : ℕ) → a < b → a + (b - a) ≡ b
rest_of a b h = omega arith

not_before : (a b : ℕ) → ltb a b ≡ false → b ≤ a
not_before a b h = ground arith

-- What the first row of the provider, and of the endpoint, say of a cooldown and of the next start.
abbrev pub state_end : Tables → Request → Option ℕ
state_end t r = elim (find (is_state r.source) t.states) [ none ↦ none | some s ↦ s.cooldown_until ]

abbrev pub endpoint_end : Tables → Request → Option ℕ
endpoint_end t r = elim (find (is_endpoint r.source r.traffic_class) t.endpoints) [
  | none ↦ none
  | some e ↦ e.cooldown_until
]

abbrev pub next_start : Tables → Request → Option ℕ
next_start t r = elim (find (is_endpoint r.source r.traffic_class) t.endpoints) [
  | none ↦ none
  | some e ↦ e.next_request_at
]

-- A cooldown of the provider or of the endpoint ends at `u`.
abbrev pub HasCooldown : Tables → Request → ℕ → Type 0
HasCooldown t r u = (state_end t r ≡ some u) ⊎ (endpoint_end t r ≡ some u)

opened_state :
    (t : Tables) (r : Request)
    → ((open_state t r).1.cooldown_until ≡ state_end t r)
      × ((open_state t r).0.endpoints ≡ t.endpoints)
unfolding open_state
opened_state t r = elim (Option-cases (find (is_state r.source) t.states)) [
  | inl e ↦ rw (e, open_state, state_end) (refl, refl)
  | inr (s, e) ↦ rw (e, open_state, state_end) (refl, refl)
]

opened_endpoint :
    (t : Tables) (r : Request)
    → ((open_endpoint t r).1.cooldown_until ≡ endpoint_end t r)
      × (next_start (open_endpoint t r).0 r ≡ next_start t r)
unfolding open_endpoint find
opened_endpoint t r =
    elim (Option-cases (find (is_endpoint r.source r.traffic_class) t.endpoints)) [
      | inl e ↦
          let source = (list_beq_iff r.source r.source).1 refl in
          let class = (list_beq_iff r.traffic_class r.traffic_class).1 refl in
          rw (e, open_endpoint, endpoint_end, next_start) (refl, rw (source, class) refl)
      | inr (x, e) ↦ rw (e, open_endpoint, endpoint_end, next_start) (refl, rw e refl)
    ]

-- The later of two ends and of now is no earlier than either end, and is one of them if it is past now.
later-covers :
    (now u : ℕ) (a b : Option ℕ) → (a ≡ some u) ⊎ (b ≡ some u) → u ≤ later (later now a) b
later-covers now u a (some y) (inr e) = let same : y ≡ u = some-injective _ _ e in ground arith
later-covers now u a none (inr e) = cc
later-covers now u none b (inl e) = cc
later-covers now u (some x) none (inl e) = let same : x ≡ u = some-injective _ _ e in ground arith
later-covers now u (some x) (some y) (inl e) =
    let same : x ≡ u = some-injective _ _ e in ground arith

later-found :
    (now : ℕ) (a b : Option ℕ)
    → now < later (later now a) b
    → (a ≡ some (later (later now a) b)) ⊎ (b ≡ some (later (later now a) b))
later-found now none none h = absurd (let bad : ⊥ = omega (arith, h) in bad)
later-found now (some x) none h =
    let same : max now x ≡ x = omega arith in inl (ap (λ n. some n) (sym same))
later-found now none (some y) h =
    let same : max now y ≡ y = omega arith in inr (ap (λ n. some n) (sym same))
later-found now (some x) (some y) h = elim (Bool-cases (ltb (max now x) y)) [
  | inl e ↦ let same : max (max now x) y ≡ y = ground arith in inr (ap (λ n. some n) (sym same))
  | inr e ↦ let same : max (max now x) y ≡ x = ground arith in inl (ap (λ n. some n) (sym same))
]

-- The answer on rows that are there, by the two ends that they name.
slot_answer :
    (t : Tables) (s : CatalogSourceState) (e : EndpointState) (r : Request)
    → r.bypass ≡ false
    → ((r.now < cooldown_end r.now s e)
        × ((reserve_slot t s e r).0 ≡ t)
        × ((reserve_slot t s e r).1.recheck_cooldown ≡ true)
        × (r.now + (reserve_slot t s e r).1.delay ≡ cooldown_end r.now s e))
      ⊎ ((cooldown_end r.now s e ≤ r.now) × ((reserve_slot t s e r).1.recheck_cooldown ≡ false))
unfolding reserve_slot
slot_answer t s e r plain = elim (Bool-cases (ltb r.now (cooldown_end r.now s e))) [
  | inl c ↦
      rw (plain, c, reserve_slot) (inl (ltb→lt _ _ c, refl, refl, rest_of r.now _ (ltb→lt _ _ c)))
  | inr c ↦ rw (plain, c, reserve_slot) (inr (not_before r.now _ c, refl))
]

-- What a request of a known provider that is no recovery probe is told: that it may start, and then
-- every cooldown of the provider and of the endpoint is over; or to look again at the end of one of
-- these cooldowns, which no other ends after, and then the endpoint keeps its next start.
abbrev pub IsTold : Tables → Request → Tables → Reservation → Type 0
IsTold t r t' v =
    ((v.recheck_cooldown ≡ false) × ((u : ℕ) → HasCooldown t r u → u ≤ r.now))
    ⊎ ((v.recheck_cooldown ≡ true)
        × (r.now < r.now + v.delay)
        × HasCooldown t r (r.now + v.delay)
        × ((u : ℕ) → HasCooldown t r u → u ≤ r.now + v.delay)
        × (next_start t' r ≡ next_start t r))

reserve_slot-IsTold :
    (t opened : Tables) (s : CatalogSourceState) (e : EndpointState) (r : Request)
    → s.cooldown_until ≡ state_end t r
    → e.cooldown_until ≡ endpoint_end t r
    → next_start opened r ≡ next_start t r
    → r.bypass ≡ false
    → IsTold t r (reserve_slot opened s e r).0 (reserve_slot opened s e r).1
reserve_slot-IsTold t opened s e r a b n plain = elim (slot_answer opened s e r plain) [
  | inr (over, open_now) ↦ inl (open_now, λ u h. le_trans (covered u h) over)
  | inl (c, kept, wait, ends) ↦
      let last : HasCooldown t r (cooldown_end r.now s e) =
        elim (later-found r.now s.cooldown_until e.cooldown_until c) [
          | inl x ↦ inl (sym a ∙ x)
          | inr x ↦ inr (sym b ∙ x)
        ] in
      inr (
        wait,
        rw ends c,
        rw ends last,
        λ u h. rw ends (covered u h),
        ap (λ x. next_start x r) kept ∙ n,
      )
]
  where
    covered : (u : ℕ) → HasCooldown t r u → u ≤ cooldown_end r.now s e
    covered u (inl h) = later-covers r.now u s.cooldown_until e.cooldown_until (inl (a ∙ h))
    covered u (inr h) = later-covers r.now u s.cooldown_until e.cooldown_until (inr (b ∙ h))

reserve-IsTold :
    (t : Tables) (r : Request)
    → r.bypass ≡ false
    → (let (stated, s) = open_state t r in
        let (opened, e) = open_endpoint stated r in
        let (t', v) = reserve_slot opened s e r in IsTold t r t' v)
reserve-IsTold t r plain =
    let (stated, s) = open_state t r in
    let (opened, e) = open_endpoint stated r in
    let (a, same) = opened_state t r in
    let (b, n) = opened_endpoint stated r in
    reserve_slot-IsTold t opened s e r a (b ∙ ended stated same) (n ∙ started stated same) plain
  where
    ended : (d : Tables) → d.endpoints ≡ t.endpoints → endpoint_end d r ≡ endpoint_end t r
    ended d same = rw (endpoint_end, same) refl

    started : (d : Tables) → d.endpoints ≡ t.endpoints → next_start d r ≡ next_start t r
    started d same = rw (next_start, same) refl

-- A request of a known provider that is no recovery probe is let start, and then every cooldown of
-- the provider and of the endpoint is over; or it is to look again when one of them ends, which is
-- past now and which no other ends after, and then the endpoint keeps its next start.
pub reserve-cooldown :
    (t t' : Tables) (r : Request) (v : Reservation)
    → r.bypass ≡ false
    → reserve t r ≡ some (t', v)
    → IsTold t r t' v
unfolding reserve
reserve-cooldown t t' r v plain h = elim (Bool-cases (contains known_sources r.source)) [
  | inr q ↦ absurd (let bad : none ≡ some (t', v) = rw q at h in cc)
  | inl q ↦
      let same = some-injective _ _ (rw q at h) in
      subst (λ x. IsTold t r x.0 x.1) same (reserve-IsTold t r plain)
]
