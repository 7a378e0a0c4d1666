-- ===== src/Storage/Tests.antt =====
-- Concrete requests for space.
use manga_manager.Prelude.{
  ◌≡◌, ◌∷◌, [], refl, txt, keep, sum_of, find, update_where, none, arith, false, List, ℕ, ◌<◌, ◌+◌,
  ◌⊎◌, true, some,
}
use manga_manager.Queue.Rows.{Db, StorageReservation}
use manga_manager.Queue.Store.{release_permits}
use manga_manager.Storage.Capacity.{
  SpaceRequest, reserve, refresh, grant_space, expire_reservations, reserved_bytes, is_for,
}
use manga_manager.Storage.Within.{
  Event, request, reading, released, after_events, Fits, events-Fits, reserve-answer,
}

program : Unit {0}
unfolding keep sum_of find update_where release_permits reserve refresh grant_space
    expire_reservations reserved_bytes
program = tt

abbrev no_rows : Db
no_rows = record {
  jobs = [];
  permits = [];
  reservations = [];
  storage = none;
  events = [];
  cycles = [];
  policies = [];
  sources = [];
  notified = [];
  next_job_id = 1;
  next_cycle_id = 1;
}

abbrev space_for : ℕ → ℕ → SpaceRequest
space_for job_id bytes = record {
  job_id = job_id;
  owner = txt "worker-1";
  requested = bytes;
  until = 2000;
  now = 1000;
  free = 100;
}

abbrev busy : List Event
busy = request (space_for 1 40) ∷ request (space_for 2 40) ∷ reading 100 1500 ∷ released 1 ∷ []

second_refused :
    (reserve 30 (after_events 30 no_rows (request (space_for 1 40) ∷ [])) (space_for 2 40)).1
    ≡ false
unfolding program
second_refused = refl

events-Fits_example : Fits 100 30 (after_events 30 no_rows busy)
unfolding program
events-Fits_example =
    events-Fits 100 30 no_rows busy (omega arith, (omega arith, (tt, (tt, tt)))) (omega arith)

refused_rows : Db
unfolding program
refused_rows = after_events 30 no_rows (request (space_for 1 40) ∷ [])

reserve-answer_example :
    (((reserve 30 refused_rows (space_for 2 40)).1 ≡ false)
      × (find (is_for 2) (expire_reservations 1000 refused_rows).reservations ≡ none)
      × ((reserve 30 refused_rows (space_for 2 40)).0.reservations
          ≡ (expire_reservations 1000 refused_rows).reservations)
      × (100 < reserved_bytes (expire_reservations 1000 refused_rows) + 40 + 30))
    ⊎ (((reserve 30 refused_rows (space_for 2 40)).1 ≡ true)
        × (x : StorageReservation) × (find
              (is_for 2)
              (reserve 30 refused_rows (space_for 2 40)).0.reservations
            ≡ some x)
        × (x.lease_expires_at ≡ 2000))
reserve-answer_example = reserve-answer 30 refused_rows (space_for 2 40)
