-- ===== src/Queue/Progress.antt =====
-- manga_manager/infrastructure/job_queue.py: the owner of a lease reports how far the job is.
use manga_manager.Prelude.{
  ℕ, ℤ, pos, clamp, or_int, ◌*◌, ◌/◌, Bool, true, false, not, ◌&&◌, ◌||◌, List, Option, none, some,
  Text, txt, ◌==◌, nat_eq, text_eq, leb, ltb, if◌then◌else◌, min, take, find, or_text,
}
use manga_manager.Queue.Rows.{WorkJob, JobProgress, Detail, Db}
use manga_manager.Queue.Store.{held_by, update_jobs, record_event}

-- The arguments of `progress`. The fields from `phase` on are the keys that it reads from
-- `details`: an absent text is empty and an absent number is 0, which `or` treats alike.
pub record Report : Type 0 where
  pub text : Text
  pub details : List (Text × Detail)
  pub phase : Text
  pub processed : ℤ
  pub current : ℤ
  pub total : ℤ
  pub unit : Text
  pub bytes : ℤ

abbrev pub progress_of : Report → ℕ → JobProgress → JobProgress
progress_of r now p = record {
  phase = take 50 (or_text r.phase (or_text p.phase (txt "working")));
  done = clamp (or_int r.processed r.current);
  total = clamp r.total;
  unit = take 30 (or_text r.unit (or_text p.unit (txt "items")));
  bytes = clamp (or_int r.bytes (pos p.bytes));
  message = take 4000 r.text;
  updated_at = some now;
}

abbrev pub report_job : Report → ℕ → WorkJob → WorkJob
report_job r now j = record j { progress = progress_of r now j.progress; updated_at = now }

-- The twentieth that a job has reached; `none` is the source's -1.
abbrev pub bucket : JobProgress → Option ℕ
bucket p = if p.total == 0 then none else some (min 20 (p.done * 20 / p.total))

abbrev same_bucket : Option ℕ → Option ℕ → Bool
same_bucket none none = true
same_bucket none (some n) = false
same_bucket (some m) none = false
same_bucket (some m) (some n) = m == n

-- Whether a change of the progress is worth an event.
unfoldable pub announces : JobProgress → JobProgress → Bool
announces before after =
    not (before.phase == after.phase)
    || not (before.total == after.total)
    || not (same_bucket (bucket before) (bucket after))
    || (not (after.total == 0)
        && leb after.total after.done
        && (before.total == 0 || ltb before.done before.total))

unfoldable pub progress : Db → ℕ → Text → Report → ℕ → Db × Bool
progress db job_id owner r now = elim (find (held_by job_id owner now) db.jobs) [
  | none ↦ (db, false)
  | some job ↦
      let job' = report_job r now job in
      let db' = update_jobs (held_by job_id owner now) (report_job r now) db in
      (
        if announces job.progress job'.progress
            then record_event job' (txt "progress") owner r.text r.details db'
            else db',
        true,
      )
]
