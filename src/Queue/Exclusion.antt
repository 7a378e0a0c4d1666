-- ===== src/Queue/Exclusion.antt =====
-- manga_manager/infrastructure/job_queue.py: a claim starts no repair beside other work on a
-- series.
use manga_manager.Queue.Frames.{frames}
use manga_manager.Queue.WellFormed.{IsWellFormed}
use manga_manager.Queue.Routing.{is_mutating}
use manga_manager.Domain.Jobs.{library_repair, parse_job_payload}
use manga_manager.Queue.Store.{live_lease, after}
use manga_manager.Queue.ClaimLoop.{Acquired, Outcome, claim_loop-Outcome}
use manga_manager.Queue.Validity.{Descending, Descending-In, Descending-related}
use manga_manager.Prelude.{
  ℕ, ◌≡◌, ◌∷◌, [], List, inl, inr, ◌⊎◌, any, In, update_where, true, ◌==◌, Bool, ◌∙◌, sym, false,
  arith, ◌≢◌, Bool-cases, refl, is_empty, ap, nat_beq_iff, nat_eq, Text, ◌&&◌, none, some, text_eq,
  list_beq_iff, Option-cases, strip, leb, ◌+◌,
}
use manga_manager.Queue.Calm.{Calm, calm_laws, IsExclusive, IsExclusive-Pointwise}
use manga_manager.Queue.Rows.{WorkJob, Db}
use manga_manager.Queue.Claim.{
  granted, exhausted, repair_clash, ClaimRequest, lease_job, claim, grant, Claimed, survey,
}
use manga_manager.Queue.Permits.{series_conflict, acquire_permits, conflicts_with}

-- Two rows of the table with one id are one row.
pub Descending-unique :
    (n : ℕ) (js : List WorkJob) (i j : WorkJob)
    → Descending n js
    → In i js
    → In j js
    → i.id ≡ j.id
    → i ≡ j
Descending-unique n [] i j d m k e = elim m [ ]
Descending-unique n (x ∷ js) i j d (inl a) (inl b) e = a ∙ sym b
Descending-unique n (x ∷ js) i j d (inl a) (inr k) e =
    absurd (let below = Descending-In x.id js j d.1 k in let same = ap (λ r. r.id) a in omega arith)
Descending-unique n (x ∷ js) i j d (inr m) (inl b) e =
    absurd (let below = Descending-In x.id js i d.1 m in let same = ap (λ r. r.id) b in omega arith)
Descending-unique n (x ∷ js) i j d (inr m) (inr k) e = Descending-unique x.id js i j d.1 m k e

-- Where the permits are granted, no live row excludes the candidate.
pub any-false :
    (p : WorkJob → Bool) (js : List WorkJob) (k : WorkJob)
    → any p js ≡ false
    → In k js
    → p k ≡ false
unfolding any
any-false p [] k h m = elim m [ ]
any-false p (j ∷ js) k h (inl e) = rw e (ground arith)
any-false p (j ∷ js) k h (inr m) = any-false p js k (ground arith) m

-- The row of an update by id, and what it was.
pub update_id-before :
    (f : WorkJob → WorkJob) (i : ℕ) (js : List WorkJob) (k : WorkJob)
    → In k (update_where (λ j. j.id == i) f js)
    → (j : WorkJob) × In j js × (((j.id ≡ i) × (k ≡ f j)) ⊎ ((j.id ≢ i) × (k ≡ j)))
unfolding update_where
update_id-before f i [] k m = elim m [ ]
update_id-before f i (j ∷ js) k (inl e) = elim (Bool-cases (j.id == i)) [
  | inl q ↦ (j, inl refl, inl ((nat_beq_iff j.id i).0 q, rw q at e))
  | inr q ↦
      (j, inl refl, inr (λ same. absurd (let hit = (nat_beq_iff j.id i).1 same in cc), rw q at e))
]
update_id-before f i (j ∷ js) k (inr m) =
    let (x, there, r) = update_id-before f i js k m in (x, inr there, r)

abbrev pub excludes : ℕ → WorkJob → WorkJob → Bool
excludes now c j = conflicts_with c.kind j.kind && live_lease now j && j.series_key == c.series_key

-- No live row of the table excludes the candidate.
abbrev HasRoom : ℕ → Db → WorkJob → Type 0
HasRoom now d c =
    (k : WorkJob)
    → In k d.jobs
    → is_mutating c.kind ≡ true
    → is_empty c.series_key ≡ false
    → conflicts_with c.kind k.kind ≡ true
    → live_lease now k ≡ true
    → k.series_key ≢ c.series_key

Acquired-HasRoom :
    (r : ClaimRequest) (db d : Db) (c : WorkJob) → Acquired r db d c → HasRoom r.now d c
unfolding acquire_permits series_conflict
Acquired-HasRoom r db d c a k m mc ne clash live same =
    elim (Bool-cases (series_conflict a.base r.now c)) [
      | inl e ↦ let bad : none ≡ some d = rw e at a.taken in cc
      | inr e ↦
          let clear : any (excludes r.now c) a.base.jobs ≡ false = rw (mc, ne) at e in
          let free = any-false (excludes r.now c) d.jobs k (rw a.same_jobs at clear) m in
          let equal = (list_beq_iff k.series_key c.series_key).1 same in
          let bad : true ≡ false = rw (clash, live, equal) at free in cc
    ]

-- A row after the grant, and the row that it was: the candidate, or one that was as live.
record Before (now : ℕ) (c : WorkJob) (js : List WorkJob) (k : WorkJob) : Type 0 where
  row : WorkJob
  present : In row js
  same_id : k.id ≡ row.id
  same_kind : k.kind ≡ row.kind
  same_series : k.series_key ≡ row.series_key
  origin : (row ≡ c) ⊎ (live_lease now k ≡ true → live_lease now row ≡ true)

before :
    (n now : ℕ) (owner : Text) (until : ℕ) (c : WorkJob) (js : List WorkJob) (k : WorkJob)
    → Descending n js
    → In c js
    → In k (update_where (λ j. j.id == c.id) (lease_job owner until now) js)
    → Before now c js k
before n now owner until c js k d m i =
    let (j, there, o) = update_id-before (lease_job owner until now) c.id js k i in
    elim o [
      | inl (e, f) ↦ record {
        row = j;
        present = there;
        same_id = ap (λ x. x.id) f;
        same_kind = ap (λ x. x.kind) f;
        same_series = ap (λ x. x.series_key) f;
        origin = inl (Descending-unique n js j c d there m e);
      }
      | inr (e, f) ↦ record {
        row = j;
        present = there;
        same_id = ap (λ x. x.id) f;
        same_kind = ap (λ x. x.kind) f;
        same_series = ap (λ x. x.series_key) f;
        origin = inr (λ h. rw (← f) h);
      }
    ]

repair_conflicts :
    (c k : WorkJob)
    → c.kind ≡ library_repair
    → is_mutating k.kind ≡ true
    → conflicts_with c.kind k.kind ≡ true
repair_conflicts c k h m = rw h m

conflicts_repair :
    (c k : WorkJob)
    → is_mutating c.kind ≡ true
    → k.kind ≡ library_repair
    → conflicts_with c.kind k.kind ≡ true
conflicts_repair c k m h = rw h (ground arith)

lease-IsExclusive :
    (n now : ℕ) (owner : Text) (until : ℕ) (d : Db) (c : WorkJob)
    → Descending n d.jobs
    → In c d.jobs
    → HasRoom now d c
    → IsExclusive now d.jobs
    → IsExclusive now (update_where (λ j. j.id == c.id) (lease_job owner until now) d.jobs)
lease-IsExclusive n now owner until d c desc m free x i j mi mj repair mutating li lj ne same =
    let bi = before n now owner until c d.jobs i desc m mi in
    let bj = before n now owner until c d.jobs j desc m mj in
    let repair' : bi.row.kind ≡ library_repair = sym bi.same_kind ∙ repair in
    let mutating' : is_mutating bj.row.kind ≡ true = rw bj.same_kind at mutating in
    let ne' : is_empty bi.row.series_key ≡ false = rw bi.same_series at ne in
    let same' : bi.row.series_key ≡ bj.row.series_key =
      sym bi.same_series ∙ same ∙ bj.same_series in
    elim bi.origin [
      | inl ei ↦ elim bj.origin [
        | inl ej ↦ bi.same_id ∙ ap (λ k. k.id) (ei ∙ sym ej) ∙ sym bj.same_id
        | inr live_j ↦
            let repair_c = rw ei at repair' in
            absurd (
              free bj.row bj.present (rw repair_c) (rw ei at ne')
                (repair_conflicts c bj.row repair_c mutating') (live_j lj) (rw ei at (sym same')))
      ]
      | inr live_i ↦ elim bj.origin [
        | inl ej ↦
            let mutating_c = rw ej at mutating' in
            let ne_j = rw same' at ne' in
            absurd (
              free bi.row bi.present mutating_c (rw ej at ne_j)
                (conflicts_repair c bi.row mutating_c repair') (live_i li) (rw ej at same'))
        | inr live_j ↦
            bi.same_id
            ∙ x bi.row bj.row bi.present bj.present repair' mutating' (live_i li) (live_j lj) ne'
                same'
            ∙ sym bj.same_id
      ]
    ]

grant-IsExclusive :
    (n : ℕ) (r : ClaimRequest) (db : Db) (o : Claimed)
    → Descending n db.jobs
    → Outcome r (Calm r.now) (calm_laws r.now) db o
    → IsExclusive r.now db.jobs
    → IsExclusive r.now (after db (grant r o)).jobs
unfolding grant
grant-IsExclusive n r db (exhausted d) desc o x = IsExclusive-Pointwise r.now db.jobs d.jobs o.0 x
grant-IsExclusive n r db (granted d c) desc o x = elim (Bool-cases (repair_clash d c)) [
  | inl t ↦ rw (t, grant) x
  | inr t ↦ elim (Option-cases (parse_job_payload c.kind c.payload)) [
    | inl q ↦ rw (t, q, grant) x
    | inr (p, q) ↦
        rw (t, q, grant)
          (simp frames (
            lease-IsExclusive n r.now (strip r.owner) (r.now + r.lease_for) d c
              (Descending-related (Calm r.now) n db.jobs d.jobs (λ j k e. e.same_id) o.0 desc) o.1
              (Acquired-HasRoom r db d c o.3) (IsExclusive-Pointwise r.now db.jobs d.jobs o.0 x)))
  ]
]

-- A claim keeps series exclusive: if in a well-formed database, at the time of the claim, a repair
-- with a live lease and a download or repair with a live lease on the same series are always one
-- job, then so they are after the claim.
pub claim-IsExclusive :
    (db : Db) (r : ClaimRequest)
    → IsWellFormed db
    → IsExclusive r.now db.jobs
    → IsExclusive r.now (after db (claim db r)).jobs
unfolding claim
claim-IsExclusive db r w x = elim (Bool-cases (is_empty (strip r.owner))) [
  | inl e ↦ rw e x
  | inr e ↦ elim (Bool-cases (leb r.lease_for 0)) [
    | inl q ↦ rw (e, q) x
    | inr q ↦
        rw (e, q)
          (grant-IsExclusive db.next_job_id r db _ w.ids
            (claim_loop-Outcome r (Calm r.now) (calm_laws r.now) db.next_job_id 50
              (survey r db [] []) db w.ids)
            x)
  ]
]
