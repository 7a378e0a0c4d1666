-- ===== src/Requests/Spacing.antt =====
-- manga_manager/infrastructure/provider_scheduler.py: requests to one endpoint start at least an
-- interval apart.
use manga_manager.Prelude.{
  ℕ, ◌≡◌, ◌≤◌, List, [], ◌∷◌, inl, inr, refl, some, none, Text, Bool-cases, true, some-injective,
  false, not, sym, ◌&&◌, ltb, ◌∙◌, ◌+◌, text_eq, nat_eq, arith, Option-cases, find-In, ap, subst,
  All, contains,
}
use manga_manager.Requests.Reserve.{
  Tables, EndpointState, Request, Reservation, reserve, reserve_slot, open_state, open_endpoint,
  is_endpoint, take_slot, pace, available_at, cooldown_end, known_sources,
}
use manga_manager.Requests.Slots.{
  NotBefore, find-update, available_at-le, available_at_lem, slot-NotBefore,
  open_endpoint-NotBefore, open_endpoint-found, endpoints-open_state,
}

-- A reservation made up of its steps.
abbrev opened : Tables → Request → Tables × EndpointState
opened t r = open_endpoint (open_state t r).0 r

pub served : Tables → Request → Tables × Reservation
served t r = reserve_slot (opened t r).0 (open_state t r).1 (opened t r).1 r

served-NotBefore :
    (x : ℕ) (source class : Text) (t : Tables) (r : Request)
    → r.bypass ≡ false
    → NotBefore x source class t.endpoints
    → NotBefore x source class (served t r).0.endpoints
unfolding served
served-NotBefore x source class t r plain h =
    slot-NotBefore x source class (opened t r).0 (open_state t r).1 (opened t r).1 r plain
      (open_endpoint-found (open_state t r).0 r)
      (open_endpoint-NotBefore x source class (open_state t r).0 r
        (subst (NotBefore x source class) (sym (endpoints-open_state t r)) h))

-- The start that a reservation grants.
abbrev pub start_of : Request → Reservation → ℕ
start_of r v = r.now + v.delay

-- The interval that paces the endpoint of a request.
abbrev pub gap : Tables → Request → ℕ
gap t r = pace (opened t r).0 (opened t r).1 r

granted-NotBefore :
    (t : Tables) (r : Request)
    → (served t r).1.recheck_cooldown ≡ false
    → NotBefore
        (start_of r (served t r).1 + gap t r)
        r.source
        r.traffic_class
        (served t r).0.endpoints
unfolding served reserve_slot
granted-NotBefore t r h =
    elim (Bool-cases
      (not r.bypass && ltb r.now (cooldown_end r.now (open_state t r).1 (opened t r).1))) [
        | inl q ↦ absurd (let bad : true ≡ false = rw q at h in cc)
        | inr q ↦ rw q (
            let e = (opened t r).1 in
            let found = open_endpoint-found (open_state t r).0 r in
            let start = available_at r.now (gap t r) r.bypass e.next_request_at in
            let moved =
              find-update r.source r.traffic_class r.source r.traffic_class (start + gap t r) r.now
                (opened t r).0.endpoints e found in
            let mine =
              (find-In (is_endpoint r.source r.traffic_class) (opened t r).0.endpoints e found).1 in
            let late = available_at_lem r.now (gap t r) r.bypass e.next_request_at in
            (
              take_slot (start + gap t r) r.now e,
              rw mine at moved,
              start + gap t r,
              refl,
              omega (arith, late),
            ))
      ]

granted-le :
    (x : ℕ) (t : Tables) (r : Request)
    → r.bypass ≡ false
    → (served t r).1.recheck_cooldown ≡ false
    → NotBefore x r.source r.traffic_class t.endpoints
    → x ≤ start_of r (served t r).1
unfolding served reserve_slot
granted-le x t r plain h w =
    let (e, f, n, next, le) =
      open_endpoint-NotBefore x r.source r.traffic_class (open_state t r).0 r
        (subst (NotBefore x r.source r.traffic_class) (sym (endpoints-open_state t r)) w) in
    let one = some-injective _ _ (sym f ∙ open_endpoint-found (open_state t r).0 r) in
    let late =
      available_at-le r.now (gap t r) n r.bypass (opened t r).1.next_request_at plain
        (ap (λ y. y.next_request_at) (sym one) ∙ next) in
    elim (Bool-cases
      (not r.bypass && ltb r.now (cooldown_end r.now (open_state t r).1 (opened t r).1))) [
        | inl q ↦ absurd (let bad : true ≡ false = rw q at h in cc)
        | inr q ↦ rw q (omega (arith, late, le))
      ]

reserve-served :
    (t t' : Tables) (r : Request) (v : Reservation)
    → reserve t r ≡ some (t', v)
    → (t' ≡ (served t r).0) × (v ≡ (served t r).1)
unfolding reserve served
reserve-served t t' r v h = elim (Bool-cases (contains known_sources r.source)) [
  | inl q ↦
      let same : some (served t r) ≡ some (t', v) = rw q at h in
      let one = sym (some-injective _ _ same) in (ap (λ x. x.0) one, ap (λ x. x.1) one)
  | inr q ↦ absurd (let bad : none ≡ some (t', v) = rw q at h in cc)
]

-- The tables after requests that other callers make in between; one for an unknown provider raises.
unfoldable pub after_requests : Tables → List Request → Tables
after_requests t [] = t
after_requests t (r ∷ rs) = elim (reserve t r) [
  | none ↦ after_requests t rs
  | some (t', v) ↦ after_requests t' rs
]

abbrev pub NoProbe : Request → Type 0
NoProbe r = r.bypass ≡ false

after_requests-NotBefore :
    (x : ℕ) (source class : Text) (t : Tables) (rs : List Request)
    → All NoProbe rs
    → NotBefore x source class t.endpoints
    → NotBefore x source class (after_requests t rs).endpoints
unfolding after_requests
after_requests-NotBefore x source class t [] plain h = h
after_requests-NotBefore x source class t (r ∷ rs) plain h = elim (Option-cases (reserve t r)) [
  | inl e ↦ rw (e, after_requests) (after_requests-NotBefore x source class t rs plain.1 h)
  | inr ((t', v), e) ↦
      let (same, _) = reserve-served t t' r v e in
      rw (e, after_requests)
        (after_requests-NotBefore x source class t' rs plain.1
          (rw same (served-NotBefore x source class t r plain.0 h)))
]

-- Two requests to one endpoint of a provider that are let start, with any requests to any endpoints
-- in between: where neither the later one nor those in between are recovery probes, the later one
-- starts at least the interval of the endpoint, as the first one found it, after the first.
pub reserve-spaced :
    (t t1 t2 : Tables) (first last : Request) (between : List Request) (v w : Reservation)
    → reserve t first ≡ some (t1, v)
    → v.recheck_cooldown ≡ false
    → All NoProbe between
    → NoProbe last
    → last.source ≡ first.source
    → last.traffic_class ≡ first.traffic_class
    → reserve (after_requests t1 between) last ≡ some (t2, w)
    → w.recheck_cooldown ≡ false
    → start_of first v + gap t first ≤ start_of last w
reserve-spaced t t1 t2 first last between v w e1 go1 plain plain_last s c e2 go2 =
    let (same1, same_v) = reserve-served t t1 first v e1 in
    let (same2, same_w) = reserve-served (after_requests t1 between) t2 last w e2 in
    let granted_first = granted-NotBefore t first (rw same_v at go1) in
    let kept =
      after_requests-NotBefore _ first.source first.traffic_class t1 between plain
        (rw same1 granted_first) in
    rw (same_v, same_w)
      (granted-le _ (after_requests t1 between) last plain_last (rw same_w at go2) (rw (s, c) kept))
