-- ===== src/Queue/Frames.antt =====
-- manga_manager/infrastructure/job_queue.py: the helper statements leave the job table alone.
use manga_manager.Prelude.{ℕ, ◌≡◌, refl, List, Text, inl, inr, Option-cases}
use manga_manager.Domain.Jobs.{JobState}
use manga_manager.Queue.Rows.{WorkJob, Detail, Db}
use manga_manager.Queue.Store.{release_permits, record_event, notify_workers, record_terminal_units}

pub jobs-release_permits : (id : ℕ) (db : Db) → (release_permits id db).jobs ≡ db.jobs
unfolding release_permits
jobs-release_permits id db = refl

pub jobs-record_event :
    (j : WorkJob) (t owner m : Text) (d : List (Text × Detail)) (db : Db)
    → (record_event j t owner m d db).jobs ≡ db.jobs
unfolding record_event
jobs-record_event j t owner m d db = refl

pub jobs-notify_workers : (pool : Text) (db : Db) → (notify_workers pool db).jobs ≡ db.jobs
unfolding notify_workers
jobs-notify_workers pool db = refl

pub jobs-record_terminal_units :
    (j : WorkJob) (s : JobState) (now : ℕ) (db : Db)
    → (record_terminal_units j s now db).jobs ≡ db.jobs
unfolding record_terminal_units
jobs-record_terminal_units j s now db = elim (Option-cases j.cycle_id) [
  | inl e ↦ rw (e, record_terminal_units)
  | inr (c, e) ↦ rw (e, record_terminal_units)
]

pub ruleset frames =
    (jobs-release_permits, jobs-record_event, jobs-notify_workers, jobs-record_terminal_units)
