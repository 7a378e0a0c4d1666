-- ===== src/Requests/Tests.antt =====
-- Concrete requests to a provider.
use manga_manager.Prelude.{
  ℕ, ◌≡◌, ◌≤◌, ◌∷◌, [], refl, txt, none, false, ◌+◌, List, some, find, update_where, contains,
  list_beq, true,
}
use manga_manager.Requests.Reserve.{
  Tables, Request, Reservation, reserve, reserve_slot, open_state, open_endpoint, pace,
}
use manga_manager.Requests.Cooldown.{IsTold, reserve-cooldown}
use manga_manager.Requests.Reserve.{new_state, new_endpoint}
use manga_manager.Queue.Rows.{CatalogSourceState}
use manga_manager.Requests.Spacing.{after_requests, start_of, gap, reserve-spaced}

program : Unit {0}
unfolding reserve reserve_slot open_state open_endpoint pace find update_where contains list_beq
    after_requests
program = tt

abbrev no_tables : Tables
no_tables = record { states = []; policies = []; endpoints = [] }

abbrev request_at : ℕ → Request
request_at now = record {
  source = txt "asura";
  traffic_class = txt "origin";
  interval = 500;
  now = now;
  bypass = false;
}

abbrev slot : ℕ → Reservation
slot delay = record { delay = delay; recheck_cooldown = false }

served_tables : Tables → Request → Tables
unfolding program
served_tables t r = elim (reserve t r) [ none ↦ t | some (t', v) ↦ t' ]

unknown_provider : reserve no_tables (record (request_at 0) { source = txt "other" }) ≡ none
unfolding program
unknown_provider = refl

abbrev in_between : List Request
in_between = request_at 1100 ∷ []

after_first : Tables
unfolding program served_tables
after_first = served_tables no_tables (request_at 1000)

before_last : Tables
unfolding after_first
before_last = after_requests after_first in_between

reserve-spaced_example :
    start_of (request_at 1000) (slot 0) + gap no_tables (request_at 1000)
    ≤ start_of (request_at 1200) (slot 800)
unfolding before_last
reserve-spaced_example =
    reserve-spaced no_tables after_first (served_tables before_last (request_at 1200))
      (request_at 1000) (request_at 1200) in_between (slot 0) (slot 800) refl refl (refl, tt) refl
      refl refl refl refl

abbrev cooling_state : CatalogSourceState
cooling_state = record (new_state (txt "asura") 0) { cooldown_until = some 5000 }

abbrev cooling : Tables
cooling = record no_tables {
  states = cooling_state ∷ [];
  endpoints = new_endpoint (txt "asura") (txt "origin") 0 ∷ [];
}

reserve-cooldown_example :
    IsTold cooling (request_at 1000) cooling (record { delay = 4000; recheck_cooldown = true })
unfolding program
reserve-cooldown_example =
    reserve-cooldown cooling cooling (request_at 1000)
      (record { delay = 4000; recheck_cooldown = true }) refl refl
