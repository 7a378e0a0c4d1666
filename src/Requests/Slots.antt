-- ===== src/Requests/Slots.antt =====
-- manga_manager/infrastructure/provider_scheduler.py: the next start of an endpoint while slots are
-- taken.
use manga_manager.Queue.Rows.{CatalogSourceState}
use manga_manager.Prelude.{
  ℕ, ◌≡◌, ◌≤◌, List, [], ◌∷◌, inl, inr, refl, some, none, Text, find, update_where, if◌then◌else◌,
  Bool-cases, true, some-injective, Bool, both, false, not, ◌==◌, sym, ◌&&◌, ltb, list_beq_iff, ◌∙◌,
  ◌+◌, text_eq, nat_eq, arith, Option, Option-cases, find-In, ap,
}
use manga_manager.Requests.Reserve.{
  Tables, EndpointState, Request, reserve_slot, open_state, open_endpoint, is_endpoint, take_slot,
  pace, available_at, cooldown_end, new_endpoint,
}

-- The next start that the table has for an endpoint is not before `t`.
abbrev pub NotBefore : ℕ → Text → Text → List EndpointState → Type 0
NotBefore t source traffic_class es =
    (e : EndpointState) × (find (is_endpoint source traffic_class) es ≡ some e)
    × (n : ℕ) × (e.next_request_at ≡ some n)
    × (t ≤ n)

-- Taking a slot leaves the key of a row.
same_key :
    (source class : Text) (b : Bool) (n now : ℕ) (x : EndpointState)
    → is_endpoint source class (if b then take_slot n now x else x) ≡ is_endpoint source class x
same_key source class true n now x = refl
same_key source class false n now x = refl

-- The first row of an endpoint after a slot of any endpoint is taken.
pub find-update :
    (source class source' class' : Text) (n now : ℕ) (es : List EndpointState) (e : EndpointState)
    → find (is_endpoint source class) es ≡ some e
    → find
        (is_endpoint source class)
        (update_where (is_endpoint source' class') (take_slot n now) es)
      ≡ some (if is_endpoint source' class' e then take_slot n now e else e)
unfolding find update_where
find-update source class source' class' n now [] e h = cc
find-update source class source' class' n now (x ∷ es) e h =
    let key = same_key source class (is_endpoint source' class' x) n now x in
    elim (Bool-cases (is_endpoint source class x)) [
      | inl a ↦ let same : some x ≡ some e = rw a at h in rw (key, a, some-injective _ _ same)
      | inr a ↦ rw (key, a) (find-update source class source' class' n now es e (rw a at h))
    ]

-- Two tests that one row passes are the same test.
key-agree :
    (source class source' class' : Text) (e : EndpointState)
    → is_endpoint source class e ≡ true
    → is_endpoint source' class' e ≡ true
    → (source ≡ source') × (class ≡ class')
key-agree source class source' class' e h k =
    let (a, b) = both (e.source == source) _ h in
    let (c, d) = both (e.source == source') _ k in
    (
      sym ((list_beq_iff e.source source).0 a) ∙ (list_beq_iff e.source source').0 c,
      sym ((list_beq_iff e.traffic_class class).0 b) ∙ (list_beq_iff e.traffic_class class').0 d,
    )

pub available_at-le :
    (now interval n : ℕ) (bypass : Bool) (next : Option ℕ)
    → bypass ≡ false
    → next ≡ some n
    → n ≤ available_at now interval bypass next
available_at-le now interval n bypass next plain h = rw (h, plain) (omega arith)

pub available_at_lem :
    (now interval : ℕ) (bypass : Bool) (next : Option ℕ)
    → now ≤ available_at now interval bypass next
available_at_lem now interval bypass none = omega arith
available_at_lem now interval bypass (some n) = omega arith

-- Without a probe, a slot of any endpoint leaves the next start of an endpoint not before `x`.
pub slot-NotBefore :
    (x : ℕ) (source class : Text) (t : Tables) (s : CatalogSourceState) (e : EndpointState)
    (r : Request)
    → r.bypass ≡ false
    → find (is_endpoint r.source r.traffic_class) t.endpoints ≡ some e
    → NotBefore x source class t.endpoints
    → NotBefore x source class (reserve_slot t s e r).0.endpoints
unfolding reserve_slot
slot-NotBefore x source class t s e r plain found (e0, h, n, next, le) =
    elim (Bool-cases (not r.bypass && ltb r.now (cooldown_end r.now s e))) [
      | inl q ↦ rw q (e0, h, n, next, le)
      | inr q ↦ rw q (
          let start = available_at r.now (pace t e r) r.bypass e.next_request_at in
          let moved =
            find-update source class r.source r.traffic_class (start + pace t e r) r.now t.endpoints
              e0 h in
          elim (Bool-cases (is_endpoint r.source r.traffic_class e0)) [
            | inl k ↦
                let (a, b) =
                  key-agree source class r.source r.traffic_class e0
                    (find-In (is_endpoint source class) t.endpoints e0 h).1 k in
                let h' : find (is_endpoint r.source r.traffic_class) t.endpoints ≡ some e0 =
                  rw (a, b) at h in
                let one = some-injective _ _ (sym h' ∙ found) in
                let late =
                  available_at-le r.now (pace t e r) n r.bypass e.next_request_at plain
                    (ap (λ y. y.next_request_at) (sym one) ∙ next) in
                (
                  take_slot (start + pace t e r) r.now e0,
                  rw k at moved,
                  start + pace t e r,
                  refl,
                  omega (arith, late, le),
                )
            | inr k ↦ (e0, rw k at moved, n, next, le)
          ])
    ]

own_key :
    (source class : Text) (now : ℕ)
    → is_endpoint source class (new_endpoint source class now) ≡ true
own_key source class now = ground (arith, list_beq_iff source source, list_beq_iff class class)

-- A row that is added leaves the row of another endpoint the first of its key.
pub open_endpoint-NotBefore :
    (x : ℕ) (source class : Text) (t : Tables) (r : Request)
    → NotBefore x source class t.endpoints
    → NotBefore x source class (open_endpoint t r).0.endpoints
unfolding open_endpoint find
open_endpoint-NotBefore x source class t r (e0, h, n, next, le) =
    elim (Option-cases (find (is_endpoint r.source r.traffic_class) t.endpoints)) [
      | inr (e, q) ↦ rw (q, open_endpoint) (e0, h, n, next, le)
      | inl q ↦
          rw (q, open_endpoint)
            (elim (Bool-cases
              (is_endpoint source class (new_endpoint r.source r.traffic_class r.now))) [
                | inl k ↦ absurd (
                    let (a, b) =
                      key-agree source class r.source r.traffic_class
                        (new_endpoint r.source r.traffic_class r.now) k
                        (own_key r.source r.traffic_class r.now) in
                    let h' : find (is_endpoint r.source r.traffic_class) t.endpoints ≡ some e0 =
                      rw (a, b) at h in
                    let bad : some e0 ≡ none = sym h' ∙ q in cc)
                | inr k ↦ (e0, rw k h, n, next, le)
              ])
    ]

-- The row that a reservation works on is the first of its key in the table.
pub open_endpoint-found :
    (t : Tables) (r : Request)
    → find (is_endpoint r.source r.traffic_class) (open_endpoint t r).0.endpoints
      ≡ some (open_endpoint t r).1
unfolding open_endpoint find
open_endpoint-found t r =
    elim (Option-cases (find (is_endpoint r.source r.traffic_class) t.endpoints)) [
      | inr (e, q) ↦ rw (q, open_endpoint) q
      | inl q ↦ rw (q, open_endpoint) (rw own_key)
    ]

pub endpoints-open_state : (t : Tables) (r : Request) → (open_state t r).0.endpoints ≡ t.endpoints
unfolding open_state
endpoints-open_state t r = ground arith
