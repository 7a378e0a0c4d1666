-- ===== src/Plans/Bypass.antt =====
-- manga_manager/application/download_plans.py: one job of `bypass_cooling_source`.
use manga_manager.Plans.Choice.{fallback_release}
use manga_manager.Plans.Detours.{
  is_waiting_download, wait_for_source, wait_out, sorted_set, bypass_job, bypassed, release_id_of,
  validate_download, bypassing,
}
use manga_manager.Domain.Jobs.{retry_wait, parse_job_payload}
use manga_manager.Plans.Rows.{Release, Catalog}
use manga_manager.Queue.Rows.{Db, WorkJob}
use manga_manager.Prelude.{
  inl, inr, refl, ◌≡◌, ◌⊎◌, Option-cases, Bool-cases, [], ◌∷◌, ◌∙◌, false, Text, ℕ, ◌==◌,
  Pointwise-refl, Pointwise, sym, strip, ◌&&◌, true, subst, text_eq, update_where-Pointwise,
  nat_beq_iff, arith, both, nat_eq, find, ◌++◌, Bool,
}
use manga_manager.Prelude.{nat_eq, text_eq, both}
use manga_manager.Queue.Frames.{frames}
use manga_manager.Queue.Store.{Result, ok, raise, after}
use manga_manager.Queue.Waiting.{Reroute, redirect, reroute_waiting, waits}
use manga_manager.Queue.Validity.{Evolves, Evolves-refl}
use manga_manager.Queue.EnqueueChanges.{evolves}
use manga_manager.Queue.WellFormed.{IsWellFormed, Extends-IsWellFormed, step-IsWellFormed}
use manga_manager.Queue.Operations.{Call, step}
use manga_manager.Plans.Window.{Holds}
use manga_manager.Plans.Attempted.{alternative-elsewhere}

-- The job waits for the provider to come back, or for another provider.
pub record LeavesSource (source : Text) (retry_after : ℕ) (j k : WorkJob) : Type 0 where
  pub same_id : k.id ≡ j.id
  pub same_attempts : k.attempts ≡ j.attempts
  pub waits_now : k.status ≡ retry_wait
  pub later_or_elsewhere :
      (k.available_at ≡ retry_after)
      ⊎ ((other : Text) × ((other == source) ≡ false) × (k.source ≡ strip other))

module _ (source : Text) (retry_after : ℕ) (target : ℕ → Type 0) where
  abbrev pub Bypasses : WorkJob → WorkJob → Type 0
  Bypasses j k = (k ≡ j) ⊎ (target j.id × LeavesSource source retry_after j k)

  pub Bypasses-trans : (i j k : WorkJob) → Bypasses i j → Bypasses j k → Bypasses i k
  Bypasses-trans i j k (inl e) q = rw (sym e) q
  Bypasses-trans i j k (inr p) (inl f) = rw f (inr p)
  Bypasses-trans i j k (inr p) (inr q) = inr (
    p.0,
    record {
      same_id = q.1.same_id ∙ p.1.same_id;
      same_attempts = q.1.same_attempts ∙ p.1.same_attempts;
      waits_now = q.1.waits_now;
      later_or_elsewhere = q.1.later_or_elsewhere;
    },
  )

  pub record Bypassing (db db' : Db) : Type 0 where
    pub rows : Pointwise Bypasses db.jobs db'.jobs
    pub sound : IsWellFormed db → IsWellFormed db'

  pub same_queue : (db : Db) → Bypassing db db
  same_queue db = record { rows = Pointwise-refl Bypasses db.jobs (λ _. inl refl); sound = λ w. w }

  wait_out-Evolves :
      (id : ℕ) (j : WorkJob)
      → (is_waiting_download source j && j.id == id) ≡ true
      → Evolves j (wait_out retry_after j)
  wait_out-Evolves id j h = ground arith

  wait_for_source-Bypassing :
      (job : WorkJob) (failed : Release) (k : Catalog)
      → target job.id
      → Bypassing k.queue (wait_for_source source retry_after job failed k).queue
  wait_for_source-Bypassing job failed k t =
      let p = λ (j : WorkJob). is_waiting_download source j && j.id == job.id in
      record {
        rows =
            update_where-Pointwise Bypasses p (wait_out retry_after) k.queue.jobs
              (λ j h. inr (
                subst target (sym ((nat_beq_iff j.id job.id).0 (both _ _ h).1)) t,
                record {
                  same_id = refl;
                  same_attempts = refl;
                  waits_now = refl;
                  later_or_elsewhere = inl refl;
                },
              ))
              (λ _. inl refl);
        sound = Extends-IsWellFormed k.queue _ (
            evolves
              (update_where-Pointwise Evolves p (wait_out retry_after) k.queue.jobs
                (wait_out-Evolves job.id) Evolves-refl)
              refl);
      }

  reroute_waiting-Bypassing :
      (db : Db) (id now : ℕ) (r : Reroute)
      → target id
      → (r.source == source) ≡ false
      → Bypassing db (after db (reroute_waiting db id r now))
  unfolding reroute_waiting
  reroute_waiting-Bypassing db id now r t e = record {
    rows = moved;
    sound = λ w. unfold step in step-IsWellFormed db (Call.reroute_waiting id r now) w;
  }
    where
      goes : (j : WorkJob) → waits id j ≡ true → Bypasses j (redirect r now j)
      goes j h = inr (
        subst target (sym ((nat_beq_iff j.id id).0 (both _ _ h).0)) t,
        record {
          same_id = refl;
          same_attempts = refl;
          waits_now = refl;
          later_or_elsewhere = inr (r.source, e, refl);
        },
      )

      moved : Pointwise Bypasses db.jobs (after db (reroute_waiting db id r now)).jobs
      moved = elim (Option-cases (find (waits id) db.jobs)) [
        | inl n ↦ rw (n, reroute_waiting) (Pointwise-refl Bypasses db.jobs (λ _. inl refl))
        | inr (j, f) ↦ elim (Option-cases (parse_job_payload j.kind r.payload)) [
          | inl n ↦ rw (f, reroute_waiting, n) (Pointwise-refl Bypasses db.jobs (λ _. inl refl))
          | inr (p, n) ↦
              rw (f, reroute_waiting, n)
                (simp frames (
                  update_where-Pointwise Bypasses (waits id) (redirect r now) db.jobs goes
                    (λ _. inl refl)))
        ]
      ]

  pub bypass_job-Bypassing :
      (now : ℕ) (job : WorkJob) (k : Catalog)
      → target job.id
      → Holds
          (λ (r : Catalog × ℕ). Bypassing k.queue r.0.queue)
          (bypass_job source retry_after now job k)
  unfolding bypass_job
  bypass_job-Bypassing now job k t =
      elim (Option-cases (find (λ r. r.id == release_id_of job) k.releases)) [
        | inl e ↦ rw (e, bypass_job) (same_queue k.queue)
        | inr (failed, e) ↦ elim (Option-cases (validate_download job.payload)) [
          | inl v ↦ rw (e, bypass_job, v) tt
          | inr (p, v) ↦ elim (Bool-cases p.preferred_only) [
            | inl o ↦ rw (e, bypass_job, v, o) (wait_for_source-Bypassing job failed k t)
            | inr o ↦
                let attempted = sorted_set (p.attempted_sources ++ source ∷ []) in
                elim (Option-cases
                  (fallback_release k.releases failed.chapter_id failed.id attempted now)) [
                    | inl f ↦ rw (e, bypass_job, v, o, f) (wait_for_source-Bypassing job failed k t)
                    | inr (alternative, f) ↦
                        rw (e, bypass_job, v, o, f)
                          (sent failed alternative _ (
                            reroute_waiting-Bypassing k.queue job.id now
                              (bypassing source attempted alternative now) t
                              (alternative-elsewhere k.releases failed.chapter_id failed.id now
                                p.attempted_sources source alternative f)))
                  ]
          ]
        ]
      ]
    where
      sent :
          (failed alternative : Release) (r : Result (Db × Bool))
          → Bypassing k.queue (after k.queue r)
          → Holds
              (λ (q : Catalog × ℕ). Bypassing k.queue q.0.queue)
              (bypassed source retry_after now job failed alternative k r)
      sent failed alternative (raise e) h = tt
      sent failed alternative (ok (db, moved)) h = h
