-- ===== src/Requests/Reserve.antt =====
-- manga_manager/infrastructure/provider_scheduler.py: `_reserve`, which hands out the start of the
-- next request to an endpoint of a provider, and the row of
-- manga_manager/infrastructure/db_models.py that paces it. Times and intervals are in microseconds;
-- an interval below 0 counts as 0 in the source, and is a natural number here.
use manga_manager.Prelude.{
  ℕ, Bool, true, false, List, [], ◌∷◌, Option, none, some, Text, if◌then◌else◌, ◌==◌, find, max,
  ltb, min, ◌&&◌, text_eq, not, contains, ◌-◌, ◌+◌, update_where, txt,
}
use manga_manager.Queue.Rows.{ProviderPolicy, CatalogSourceState}

-- `ProviderEndpointState`
pub record EndpointState : Type 0 where
  pub source : Text
  pub traffic_class : Text
  pub request_interval : ℕ
  pub next_request_at : Option ℕ
  pub cooldown_until : Option ℕ
  pub updated_at : ℕ

-- The tables that a reservation reads.
pub record Tables : Type 0 where
  pub states : List CatalogSourceState
  pub policies : List ProviderPolicy
  pub endpoints : List EndpointState

-- `RequestReservation`
pub record Reservation : Type 0 where
  pub delay : ℕ
  pub recheck_cooldown : Bool

-- The arguments of `_reserve`.
pub record Request : Type 0 where
  pub source : Text
  pub traffic_class : Text
  pub interval : ℕ
  pub now : ℕ
  pub bypass : Bool

abbrev pub new_state : Text → ℕ → CatalogSourceState
new_state source now = record {
  source = source;
  manual_enabled = true;
  cooldown_until = none;
  next_request_at = none;
  updated_at = now;
}

abbrev pub new_endpoint : Text → Text → ℕ → EndpointState
new_endpoint source traffic_class now = record {
  source = source;
  traffic_class = traffic_class;
  request_interval = 0;
  next_request_at = none;
  cooldown_until = none;
  updated_at = now;
}

abbrev pub is_state : Text → CatalogSourceState → Bool
is_state source s = s.source == source

abbrev pub is_endpoint : Text → Text → EndpointState → Bool
is_endpoint source traffic_class e = e.source == source && e.traffic_class == traffic_class

-- The row of the provider, added where it is missing.
unfoldable pub open_state : Tables → Request → Tables × CatalogSourceState
open_state t r = elim (find (is_state r.source) t.states) [
  | some s ↦ (t, s)
  | none ↦ (record t { states = new_state r.source r.now ∷ t.states }, new_state r.source r.now)
]

-- The row of the endpoint, added where it is missing.
unfoldable pub open_endpoint : Tables → Request → Tables × EndpointState
open_endpoint t r = elim (find (is_endpoint r.source r.traffic_class) t.endpoints) [
  | some e ↦ (t, e)
  | none ↦
      let e = new_endpoint r.source r.traffic_class r.now in
      (record t { endpoints = e ∷ t.endpoints }, e)
]

abbrev pub policy_interval : Option ProviderPolicy → ℕ → ℕ
policy_interval none interval = interval
policy_interval (some p) interval =
    if ltb 0 p.request_interval then p.request_interval else interval

-- The interval that paces the endpoint: its own, its provider's, or the one that is asked for.
unfoldable pub pace : Tables → EndpointState → Request → ℕ
pace t e r =
    if ltb 0 e.request_interval
    then e.request_interval
    else policy_interval (find (λ p. p.source == r.source) t.policies) r.interval

abbrev pub later : ℕ → Option ℕ → ℕ
later t none = t
later t (some u) = max t u

-- The end of the cooldowns of the provider and of the endpoint.
abbrev pub cooldown_end : ℕ → CatalogSourceState → EndpointState → ℕ
cooldown_end now s e = later (later now s.cooldown_until) e.cooldown_until

-- The first start that the endpoint allows; a recovery probe waits one interval at most.
abbrev pub available_at : ℕ → ℕ → Bool → Option ℕ → ℕ
available_at now interval bypass none = now
available_at now interval bypass (some next) =
    max now (if bypass then min next (now + interval) else next)

abbrev pub take_slot : ℕ → ℕ → EndpointState → EndpointState
take_slot next now e = record e { next_request_at = some next; updated_at = now }

abbrev pub mark_state : ℕ → ℕ → CatalogSourceState → CatalogSourceState
mark_state next now s = record s { next_request_at = some next; updated_at = now }

-- The reservation on rows that are there: inside a cooldown no slot is taken.
unfoldable pub reserve_slot :
    Tables → CatalogSourceState → EndpointState → Request → Tables × Reservation
reserve_slot t s e r =
    let until = cooldown_end r.now s e in
    let interval = pace t e r in
    let start = available_at r.now interval r.bypass e.next_request_at in
    if not r.bypass && ltb r.now until
    then (t, record { delay = until - r.now; recheck_cooldown = true })
    else (
      record t {
        endpoints =
            update_where (is_endpoint r.source r.traffic_class) (take_slot (start + interval) r.now)
              t.endpoints;
        states = update_where (is_state r.source) (mark_state (start + interval) r.now) t.states;
      },
      record { delay = start - r.now; recheck_cooldown = false },
    )

-- `KNOWN_SOURCES`
abbrev pub known_sources : List Text
known_sources = txt "asura" ∷ txt "mangadex" ∷ txt "mangafire" ∷ txt "kingofshojo" ∷ []

-- `_reserve`; `none` is the `ValueError` for a provider that is not known.
unfoldable pub reserve : Tables → Request → Option (Tables × Reservation)
reserve t r =
    if contains known_sources r.source
    then (let (stated, s) = open_state t r in
        let (opened, e) = open_endpoint stated r in some (reserve_slot opened s e r))
    else none
