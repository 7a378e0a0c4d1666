-- ===== src/Queue/Reports.antt =====
-- manga_manager/infrastructure/job_queue.py: how many events the reports of a job write.
use manga_manager.Queue.Fencing.{held_id}
use manga_manager.Queue.Validity.{Descending}
use manga_manager.Prelude.{
  ℕ, ◌≡◌, ◌≤◌, ◌<◌, ◌+◌, ◌*◌, ◌/◌, ◌⊎◌, true, false, List, [], ◌∷◌, Text, arith, min, clamp, or_int,
  take, is_empty, In, inl, inr, refl, length, suc, if◌then◌else◌, Option-cases, Bool-cases, find,
  update_where, leb, ltb, list_beq_iff, nat_eq, find-In, some, ap, sym, ◌∙◌, subst,
}
use native.Mathlib.Nat.{le-div_iff_mul-le, div-lt_iff_lt-mul, div-mul-le_self}
use manga_manager.Queue.Rows.{WorkJob, JobProgress, Db}
use manga_manager.Queue.Store.{held_by, record_event}
use manga_manager.Queue.Progress.{Report, report_job, progress, progress_of, announces}
use manga_manager.Queue.Operations.{Call, run, step}
use manga_manager.Queue.WellFormed.{IsWellFormed, step-IsWellFormed}
use manga_manager.Queue.Exclusion.{Descending-unique}
use manga_manager.Queue.Cleanup.{In-update_where}

-- The twentieth that `done` of `total` lies in.
abbrev level : ℕ → ℕ → ℕ
level total done = min 20 (done * 20 / total)

level_mono : (t c d : ℕ) → 0 < t → c ≤ d → level t c ≤ level t d
level_mono t c d p h =
    let below = div-mul-le_self (c * 20) t in
    let reached : c * 20 / t ≤ d * 20 / t = (le-div_iff_mul-le p).1 (omega arith) in omega arith

level_partial : (t c : ℕ) → 0 < t → c < t → level t c < 20
level_partial t c p h =
    let short : c * 20 / t < 20 = (div-lt_iff_lt-mul p).1 (omega arith) in omega arith

level_full : (t c : ℕ) → 0 < t → t ≤ c → level t c ≡ 20
level_full t c p h =
    let full : 20 ≤ c * 20 / t = (le-div_iff_mul-le p).1 (omega arith) in omega arith

-- Within one phase and one total, an event means that a further twentieth is reached.
announces-rises :
    (a b : JobProgress)
    → 0 < a.total
    → a.phase ≡ b.phase
    → a.total ≡ b.total
    → a.done ≤ b.done
    → announces a b ≡ true
    → level a.total a.done < level b.total b.done
unfolding announces
announces-rises a b p phase total more h =
    let pb : 0 < b.total = rw total at p in
    let mono : level a.total a.done ≤ level b.total b.done =
      rw total (level_mono b.total a.done b.done pb more) in
    elim (Bool-cases (leb b.total b.done)) [
      | inl e ↦ elim (Bool-cases (ltb a.done b.total)) [
        | inl q ↦
            let low = level_partial b.total a.done pb (ground arith) in
            let high = level_full b.total b.done pb (ground arith) in rw total (omega arith)
        | inr q ↦ ground (arith, list_beq_iff a.phase b.phase)
      ]
      | inr e ↦ ground (arith, list_beq_iff a.phase b.phase)
    ]

abbrev pub done_of : Report → ℕ
done_of r = clamp (or_int r.processed r.current)

-- The rows with the id show a phase, a total and how much is done.
abbrev Shows : ℕ → Text → ℕ → ℕ → Db → Type 0
Shows i phase total done db =
    (k : WorkJob)
    → In k db.jobs
    → k.id ≡ i
    → (k.progress.phase ≡ phase) × (k.progress.total ≡ total) × (k.progress.done ≡ done)

-- What one report leaves: the database as it was, or the row shows the report, with an event or
-- without.
abbrev Reported : ℕ → Report → ℕ → Db → Db → Type 0
Reported i r now db d =
    (d ≡ db)
    ⊎ ((j : WorkJob) × In j db.jobs
        × (j.id ≡ i)
        × Shows i (take 50 r.phase) (clamp r.total) (done_of r) d
        × (length d.events ≡ (
            if announces j.progress (progress_of r now j.progress)
            then suc (length db.events)
            else length db.events)))

reported_rows :
    (n i : ℕ) (owner : Text) (r : Report) (now : ℕ) (j : WorkJob) (js : List WorkJob)
    → Descending n js
    → find (held_by i owner now) js ≡ some j
    → is_empty r.phase ≡ false
    → (k : WorkJob) → In k (update_where (held_by i owner now) (report_job r now) js)
    → k.id ≡ i
    → (k.progress.phase ≡ take 50 r.phase)
      × (k.progress.total ≡ clamp r.total)
      × (k.progress.done ≡ done_of r)
reported_rows n i owner r now j js d e named k m at_i =
    let (x, there, o) = In-update_where (held_by i owner now) (report_job r now) js k m in
    elim o [
      | inl (q, c) ↦ rw c (ground arith, refl, refl)
      | inr (q, c) ↦
          let (found, t) = find-In (held_by i owner now) js j e in
          let one =
            Descending-unique n js x j d there found
              (ap (λ y. y.id) (sym c) ∙ at_i ∙ sym (held_id i owner now j t)) in
          absurd (let bad : held_by i owner now j ≡ false = rw one at q in cc)
    ]

progress-Reported :
    (db : Db) (i : ℕ) (owner : Text) (r : Report) (now : ℕ)
    → IsWellFormed db
    → is_empty r.phase ≡ false
    → Reported i r now db (progress db i owner r now).0
unfolding progress record_event
progress-Reported db i owner r now w named =
    elim (Option-cases (find (held_by i owner now) db.jobs)) [
      | inl e ↦ rw (e, progress) (inl refl)
      | inr (j, e) ↦
          let (found, t) = find-In (held_by i owner now) db.jobs j e in
          let shows = reported_rows db.next_job_id i owner r now j db.jobs w.ids e named in
          elim (Bool-cases (announces j.progress (progress_of r now j.progress))) [
            | inl q ↦
                rw (e, progress, q) (inr (j, found, held_id i owner now j t, shows, rw q refl))
            | inr q ↦
                rw (e, progress, q) (inr (j, found, held_id i owner now j t, shows, rw q refl))
          ]
    ]

-- Reports of one phase and one total, the number done not falling from `done` on.
abbrev pub IsSteady : Text → ℕ → ℕ → List (Report × ℕ) → Type 0
IsSteady phase total done [] = Unit {0}
IsSteady phase total done (r ∷ rs) =
    (is_empty r.0.phase ≡ false)
    × (take 50 r.0.phase ≡ phase)
    × (clamp r.0.total ≡ total)
    × (done ≤ done_of r.0)
    × IsSteady phase total (done_of r.0) rs

abbrev pub report_calls : ℕ → Text → List (Report × ℕ) → List Call
report_calls i owner [] = []
report_calls i owner (r ∷ rs) = Call.progress i owner r.0 r.1 ∷ report_calls i owner rs

IsSteady-lower :
    (phase : Text) (total c d : ℕ) (rs : List (Report × ℕ))
    → c ≤ d
    → IsSteady phase total d rs
    → IsSteady phase total c rs
IsSteady-lower phase total c d [] h s = tt
IsSteady-lower phase total c d (r ∷ rs) h s = (s.0, s.1, s.2, omega (arith, s.3), s.4)

-- A report in the phase that the row shows writes an event only for a further twentieth.
event_rises :
    (phase : Text) (total done : ℕ) (r : Report) (now : ℕ) (j : WorkJob)
    → 0 < total
    → (j.progress.phase ≡ phase) × (j.progress.total ≡ total) × (j.progress.done ≡ done)
    → is_empty r.phase ≡ false
    → take 50 r.phase ≡ phase
    → clamp r.total ≡ total
    → done ≤ done_of r
    → announces j.progress (progress_of r now j.progress) ≡ true
    → level total done < level total (done_of r)
event_rises phase total done r now j p s named same_phase same_total more h =
    let rises =
      announces-rises j.progress (progress_of r now j.progress) (rw s.1 p)
        (s.0 ∙ sym same_phase ∙ ap (take 50) (ground arith)) (s.1 ∙ sym same_total) (rw s.2 more)
        h in
    rw (s.1, s.2, same_total) at rises

run-shown :
    (i : ℕ) (owner phase : Text) (total done : ℕ) (db : Db) (rs : List (Report × ℕ))
    → IsWellFormed db
    → 0 < total
    → Shows i phase total done db
    → IsSteady phase total done rs
    → length (run db (report_calls i owner rs)).events + level total done ≤ length db.events + 20
unfolding run step
run-shown i owner phase total done db [] w p shows s = omega arith
run-shown i owner phase total done db (r ∷ rs) w p shows s =
    let next = step-IsWellFormed db (Call.progress i owner r.0 r.1) w in
    elim (progress-Reported db i owner r.0 r.1 w s.0) [
      | inl e ↦
          subst
            (λ d.
              length (run d (report_calls i owner rs)).events + level total done
              ≤ length db.events + 20)
            (sym e)
            (run-shown i owner phase total done db rs w p shows
              (IsSteady-lower phase total done (done_of r.0) rs s.3 s.4))
      | inr (j, m, at_i, shows', count) ↦
          let rest =
            run-shown i owner phase total (done_of r.0) (progress db i owner r.0 r.1).0 rs next p
              (rw (s.1, s.2) at shows') s.4 in
          let mono = level_mono total done (done_of r.0) p s.3 in
          elim (Bool-cases (announces j.progress (progress_of r.0 r.1 j.progress))) [
            | inl q ↦
                let rises =
                  event_rises phase total done r.0 r.1 j p (shows j m at_i) s.0 s.1 s.2 s.3 q in
                ground (arith, count)
            | inr q ↦ ground (arith, count)
          ]
    ]

-- However many reports the owner makes of a job in one phase with one total above 0, the number
-- done not falling, in a well-formed database they write at most 21 events.
pub reports_bounded :
    (i : ℕ) (owner phase : Text) (total : ℕ) (db : Db) (rs : List (Report × ℕ))
    → IsWellFormed db
    → 0 < total
    → IsSteady phase total 0 rs
    → length (run db (report_calls i owner rs)).events ≤ length db.events + 21
unfolding run step
reports_bounded i owner phase total db [] w p s = omega arith
reports_bounded i owner phase total db (r ∷ rs) w p s =
    let next = step-IsWellFormed db (Call.progress i owner r.0 r.1) w in
    elim (progress-Reported db i owner r.0 r.1 w s.0) [
      | inl e ↦
          subst (λ d. length (run d (report_calls i owner rs)).events ≤ length db.events + 21)
            (sym e)
            (reports_bounded i owner phase total db rs w p
              (IsSteady-lower phase total 0 (done_of r.0) rs s.3 s.4))
      | inr (j, m, at_i, shows, count) ↦
          let rest =
            run-shown i owner phase total (done_of r.0) (progress db i owner r.0 r.1).0 rs next p
              (rw (s.1, s.2) at shows) s.4 in
          ground (arith, count)
    ]
