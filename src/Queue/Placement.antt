-- ===== src/Queue/Placement.antt =====
-- manga_manager/infrastructure/job_queue.py: what `enqueue` answers.
use manga_manager.Queue.Operations.{step, Call}
use manga_manager.Queue.Validity.{Descending}
use manga_manager.Domain.Jobs.{
  JobKind, is_active, kind_beq_iff, JobPayload, kind_eq, queued, parse_job_payload,
}
use manga_manager.Prelude.{
  ℕ, ◌≡◌, ◌∷◌, [], List, inl, inr, ◌⊎◌, ◌∙◌, refl, Pointwise, arith, In, Text, sym, true, false,
  both, ◌==◌, list_beq_iff, Bool, text_eq, Option-cases, some, ap, strip, is_empty, Bool-cases,
  nat_eq, none, nat_beq_iff,
}
use manga_manager.Queue.Rows.{WorkJob, Db}
use manga_manager.Queue.Store.{
  ok, raise, notify_workers, record_event, Error, empty_dedupe_key, invalid_max_attempts,
  invalid_payload,
}
use manga_manager.Queue.Coalesce.{EnqueueRequest}
use manga_manager.Queue.Enqueue.{
  enqueue, place, has_key, insert_job, active_job, new_job, fold_in, active_cycle,
}
use manga_manager.Queue.EnqueueChanges.{fold_in-related}
use manga_manager.Queue.EnqueueFrames.{active_cycle_frame, active_job-found}
use manga_manager.Queue.Changes.{PlaceChanges}
use manga_manager.Queue.WellFormed.{IsWellFormed, UniqueActive, Unclaimed, step-IsWellFormed}

-- A row that keeps its identity, its state, its attempts and its lease.
pub record Steady (j k : WorkJob) : Type 0 where
  pub same_id : k.id ≡ j.id
  pub same_kind : k.kind ≡ j.kind
  pub same_key : k.dedupe_key ≡ j.dedupe_key
  pub same_status : k.status ≡ j.status
  pub same_attempts : k.attempts ≡ j.attempts
  pub same_owner : k.lease_owner ≡ j.lease_owner
  pub same_expiry : k.lease_expires_at ≡ j.lease_expires_at

Steady-refl : (j : WorkJob) → Steady j j
Steady-refl j = record {
  same_id = refl;
  same_kind = refl;
  same_key = refl;
  same_status = refl;
  same_attempts = refl;
  same_owner = refl;
  same_expiry = refl;
}

place_rules : (now : ℕ) → PlaceChanges now Steady
place_rules now = record {
  same_row = Steady-refl;
  chain = λ i j k p q. record {
    same_id = q.same_id ∙ p.same_id;
    same_kind = q.same_kind ∙ p.same_kind;
    same_key = q.same_key ∙ p.same_key;
    same_status = q.same_status ∙ p.same_status;
    same_attempts = q.same_attempts ∙ p.same_attempts;
    same_owner = q.same_owner ∙ p.same_owner;
    same_expiry = q.same_expiry ∙ p.same_expiry;
  };
  keeps_id = λ j k e. e.same_id;
  promote_row = λ r j h. ground arith;
  replace_row = λ r p added j h. ground arith;
  move_row = λ pool j h. ground arith;
}

Pointwise-after :
    (R : WorkJob → WorkJob → Type 0) (js ks : List WorkJob) (j : WorkJob)
    → Pointwise R js ks
    → In j js
    → (k : WorkJob) × In k ks × R j k
Pointwise-after R [] ks j p m = elim m [ ]
Pointwise-after R (x ∷ js) [] j p m = elim p [ ]
Pointwise-after R (x ∷ js) (k ∷ ks) j p (inl e) = (k, inl refl, rw e p.0)
Pointwise-after R (x ∷ js) (k ∷ ks) j p (inr m) =
    let (i, there, r) = Pointwise-after R js ks j p.1 m in (i, inr there, r)

abbrev pub Stands : JobKind → Text → WorkJob → Type 0
Stands kind key j = (is_active j.status ≡ true) × (has_key kind key j ≡ true)

Unclaimed-In :
    (kind : JobKind) (key : Text) (j k : WorkJob) (js : List WorkJob)
    → Unclaimed j js
    → In k js
    → Stands kind key j
    → Stands kind key k
    → ⊥
Unclaimed-In kind key j k [] u m s t = elim m [ ]
Unclaimed-In kind key j k (x ∷ js) u (inl e) s t =
    let free : has_key j.kind j.dedupe_key k ≡ false = rw (← e) at (u.0 (rw (← e) t.0)) in
    let (kind_j, key_j) = both (j.kind == kind) (j.dedupe_key == key) s.1 in
    let hit : has_key j.kind j.dedupe_key k ≡ true =
      rw ((kind_beq_iff j.kind kind).0 kind_j, (list_beq_iff j.dedupe_key key).0 key_j) t.1 in
    cc
Unclaimed-In kind key j k (x ∷ js) u (inr m) s t = Unclaimed-In kind key j k js u.1 m s t

UniqueActive-unique :
    (kind : JobKind) (key : Text) (js : List WorkJob) (j k : WorkJob)
    → UniqueActive js
    → In j js
    → In k js
    → Stands kind key j
    → Stands kind key k
    → k ≡ j
UniqueActive-unique kind key [] j k u m n s t = elim m [ ]
UniqueActive-unique kind key (x ∷ js) j k u (inl a) (inl b) s t = b ∙ sym a
UniqueActive-unique kind key (x ∷ js) j k u (inl a) (inr n) s t =
    absurd (Unclaimed-In kind key j k js (rw a (u.0 (rw (← a) s.0))) n s t)
UniqueActive-unique kind key (x ∷ js) j k u (inr m) (inl b) s t =
    absurd (Unclaimed-In kind key k j js (rw b (u.0 (rw (← b) t.0))) m t s)
UniqueActive-unique kind key (x ∷ js) j k u (inr m) (inr n) s t =
    UniqueActive-unique kind key js j k u.1 m n s t

-- What stands for the key of a request after it: the job, and how the table has changed.
pub record Placed (db d : Db) (kind : JobKind) (key : Text) (i : ℕ) (created : Bool) : Type 0 where
  pub job : WorkJob
  pub present : In job d.jobs
  pub answered : job.id ≡ i
  pub stands : Stands kind key job
  pub table :
      ((created ≡ false) × Pointwise Steady db.jobs d.jobs)
      ⊎ ((created ≡ true) × (d.jobs ≡ job ∷ db.jobs) × (i ≡ db.next_job_id) × (job.status ≡ queued))

new_job-Placed :
    (db : Db) (r : EnqueueRequest) (p : JobPayload) (key source pool : Text) (now : ℕ)
    → Placed db (insert_job db r p key source pool now) r.kind key db.next_job_id true
unfolding insert_job notify_workers record_event new_job
new_job-Placed db r p key source pool now =
    let (jobs, next) = active_cycle_frame db now in
    let cycled = (active_cycle db now).0 in
    let job = new_job r p key source pool (active_cycle db now).1 cycled.next_job_id now in
    record {
      job = job;
      present = inl refl;
      answered = next;
      stands = (refl, ground (arith, kind_beq_iff r.kind r.kind, list_beq_iff key key));
      table = inr (refl, ap (◌∷◌ job) jobs, refl, refl);
    }

fold_in-Placed :
    (db : Db) (r : EnqueueRequest) (p : JobPayload) (key pool : Text) (now : ℕ) (j : WorkJob)
    → Descending db.next_job_id db.jobs
    → active_job db r.kind key ≡ some j
    → Placed db (fold_in db r p pool now j) r.kind key j.id false
fold_in-Placed db r p key pool now j d e =
    let (m, active, keyed) = active_job-found db r.kind key j e in
    let moved =
      fold_in-related now Steady (place_rules now) db.next_job_id db r p pool j d m active in
    let (k, there, s) = Pointwise-after Steady db.jobs _ j moved m in
    record {
      job = k;
      present = there;
      answered = s.same_id;
      stands = (rw s.same_status active, rw (s.same_kind, s.same_key) keyed);
      table = inl (refl, moved);
    }

place-Placed :
    (db : Db) (r : EnqueueRequest) (p : JobPayload) (key : Text) (now : ℕ)
    → Descending db.next_job_id db.jobs
    → Placed db
        (place db r p key now).0
        r.kind
        key
        (place db r p key now).1.0
        (place db r p key now).1.1
unfolding place
place-Placed db r p key now d = elim (Option-cases (active_job db r.kind key)) [
  | inl e ↦ rw (e, place) (new_job-Placed db r p key _ _ now)
  | inr (j, e) ↦ rw (e, place) (fold_in-Placed db r p key _ now j d e)
]

-- The only active row of the key in a table.
abbrev pub IsOnly : Db → JobKind → Text → ℕ → Type 0
IsOnly d kind key i = (k : WorkJob) → In k d.jobs → Stands kind key k → k.id ≡ i

abbrev pub Refused : EnqueueRequest → Type 0
Refused r =
    (is_empty (strip r.dedupe_key) ≡ true)
    ⊎ (r.max_attempts ≡ 0)
    ⊎ (parse_job_payload r.kind r.payload ≡ none)

abbrev pub Answer : Db → EnqueueRequest → ℕ → Type 0
Answer db r now =
    ((e : Error) × (enqueue db r now ≡ raise e) × Refused r)
    ⊎ ((d : Db) × (i : ℕ) × (created : Bool) × (enqueue db r now ≡ ok (d, (i, created)))
        × Placed db d r.kind (strip r.dedupe_key) i created
        × IsOnly d r.kind (strip r.dedupe_key) i)

enqueue-IsOnly :
    (db d : Db) (r : EnqueueRequest) (now i : ℕ) (created : Bool)
    → IsWellFormed db
    → enqueue db r now ≡ ok (d, (i, created))
    → Placed db d r.kind (strip r.dedupe_key) i created
    → IsOnly d r.kind (strip r.dedupe_key) i
unfolding step
enqueue-IsOnly db d r now i created w e p k m s =
    let after_it : IsWellFormed d = rw e at (step-IsWellFormed db (Call.enqueue r now) w) in
    ap (λ j. j.id)
      (UniqueActive-unique r.kind (strip r.dedupe_key) d.jobs p.job k after_it.keys p.present m
        p.stands s)
    ∙ p.answered

answered :
    (db : Db) (r : EnqueueRequest) (p : JobPayload) (now : ℕ)
    → IsWellFormed db
    → enqueue db r now ≡ ok (place db r p (strip r.dedupe_key) now)
    → Answer db r now
answered db r p now w e =
    let (d, (i, created)) = place db r p (strip r.dedupe_key) now in
    let placed = place-Placed db r p (strip r.dedupe_key) now w.ids in
    inr (d, i, created, e, placed, enqueue-IsOnly db d r now i created w e placed)

-- `enqueue` in a well-formed database refuses the request, for an empty key, no attempts or an
-- invalid payload, or it answers with the id of the one active job of that kind and key in the
-- table afterwards. Where that job is not new, no row is added and every row keeps its id, kind,
-- key, state, attempts and lease. Where it is new, it is queued in front of the rows as they were,
-- under the next id of the sequence.
pub enqueue-Placed : (db : Db) (r : EnqueueRequest) (now : ℕ) → IsWellFormed db → Answer db r now
unfolding enqueue
enqueue-Placed db r now w = elim (Bool-cases (is_empty (strip r.dedupe_key))) [
  | inl e ↦ inl (empty_dedupe_key, rw e, inl e)
  | inr e ↦ elim (Bool-cases (r.max_attempts == 0)) [
    | inl q ↦ inl (invalid_max_attempts, rw (e, q), inr (inl ((nat_beq_iff r.max_attempts 0).0 q)))
    | inr q ↦ elim (Option-cases (parse_job_payload r.kind r.payload)) [
      | inl v ↦ inl (invalid_payload, rw (e, q, v), inr (inr v))
      | inr (p, v) ↦ answered db r p now w (rw (e, q, v))
    ]
  ]
]
