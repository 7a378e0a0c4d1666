-- ===== src/Storage/Capacity.antt =====
-- manga_manager/infrastructure/storage_capacity.py: `StorageCapacityCoordinator`. What
-- `shutil.disk_usage` reports as free is an argument of each call, and so is the configured
-- reserve.
use manga_manager.Prelude.{
  ℕ, Bool, true, false, [], ◌∷◌, none, some, Text, ◌+◌, txt, sum_of, find, ◌==◌, ltb, if◌then◌else◌,
  keep, not, nat_eq, update_where, leb,
}
use manga_manager.Queue.Rows.{StorageReservation, StorageState, Db}

-- The deletion of reservations whose lease is over.
unfoldable pub expire_reservations : ℕ → Db → Db
expire_reservations now db = record db {
  reservations = keep (λ r. not (leb r.lease_expires_at now)) db.reservations;
}

-- `sum(StorageReservation.reserved_bytes)`
unfoldable pub reserved_bytes : Db → ℕ
reserved_bytes db = sum_of (λ r. r.reserved_bytes) db.reservations

abbrev pub is_for : ℕ → StorageReservation → Bool
is_for job_id r = r.job_id == job_id

abbrev pub extend : ℕ → StorageReservation → StorageReservation
extend until r = record r { lease_expires_at = until }

-- `free - reserved - requested_bytes < self.min_free_bytes`; integers may be negative there.
abbrev pub crosses : ℕ → ℕ → ℕ → ℕ → Bool
crosses free reserved requested min_free = ltb free (reserved + requested + min_free)

abbrev pub reason_of : Bool → Text
reason_of paused = if paused then txt "free-space reserve would be crossed" else []

-- The row of `StorageState` after a reading of the disk.
abbrev pub state_of : (free min_free reserved : ℕ) → Bool → ℕ → StorageState
state_of free min_free reserved paused now = record {
  free_bytes = free;
  min_free_bytes = min_free;
  reserved_bytes = reserved;
  paused = paused;
  reason = reason_of paused;
  updated_at = now;
}

-- The arguments of `reserve`, the clock and the free space it reads.
pub record SpaceRequest : Type 0 where
  pub job_id : ℕ
  pub owner : Text
  pub requested : ℕ
  pub until : ℕ
  pub now : ℕ
  pub free : ℕ

abbrev pub new_reservation : SpaceRequest → StorageReservation
new_reservation r = record {
  job_id = r.job_id;
  owner = r.owner;
  reserved_bytes = r.requested;
  lease_expires_at = r.until;
}

-- A job without a reservation: the space is granted where the reserve is not crossed.
unfoldable pub grant_space : ℕ → Db → SpaceRequest → Db × Bool
grant_space min_free db r =
    let reserved = reserved_bytes db in
    if crosses r.free reserved r.requested min_free
    then (record db { storage = some (state_of r.free min_free reserved true r.now) }, false)
    else (
      record db {
        storage = some (state_of r.free min_free (reserved + r.requested) false r.now);
        reservations = new_reservation r ∷ db.reservations;
      },
      true,
    )

unfoldable pub reserve : ℕ → Db → SpaceRequest → Db × Bool
reserve min_free db r =
    let live = expire_reservations r.now db in
    elim (find (is_for r.job_id) live.reservations) [
      | some existing ↦ (
        record live {
          reservations = update_where (is_for r.job_id) (extend r.until) live.reservations;
        },
        true,
      )
      | none ↦ grant_space min_free live r
    ]

unfoldable pub refresh : (min_free free now : ℕ) → Db → Db
refresh min_free free now db =
    let live = expire_reservations now db in
    let reserved = reserved_bytes live in
    record live {
      storage = some (state_of free min_free reserved (crosses free reserved 0 min_free) now);
    }
