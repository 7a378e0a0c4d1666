-- ===== src/Queue/Calm.antt =====
-- manga_manager/infrastructure/job_queue.py: exclusive series, and changes of a row that start no
-- lease.
use manga_manager.Queue.Routing.{is_mutating}
use manga_manager.Domain.Jobs.{library_repair}
use manga_manager.Queue.Store.{live_lease}
use manga_manager.Queue.ClaimLoop.{RowLaws}
use manga_manager.Prelude.{
  ℕ, ◌≡◌, ◌∷◌, [], List, inl, inr, Pointwise, In, true, ◌∙◌, sym, false, arith, refl, is_empty,
  nat_eq, text_eq,
}
use manga_manager.Queue.Rows.{WorkJob}

-- A row whose lease is live afterwards had a live lease before, and is the same work.
pub record Calm (now : ℕ) (j k : WorkJob) : Type 0 where
  pub same_id : k.id ≡ j.id
  pub same_kind : k.kind ≡ j.kind
  pub same_series : k.series_key ≡ j.series_key
  pub was_live : live_lease now k ≡ true → live_lease now j ≡ true

pub calm_laws : (now : ℕ) → RowLaws now (Calm now)
calm_laws now = record {
  same_row =
      λ j. record { same_id = refl; same_kind = refl; same_series = refl; was_live = λ h. h };
  chain = λ i j k p q. record {
    same_id = q.same_id ∙ p.same_id;
    same_kind = q.same_kind ∙ p.same_kind;
    same_series = q.same_series ∙ p.same_series;
    was_live = λ h. p.was_live (q.was_live h);
  };
  keeps_id = λ j k c. c.same_id;
  expires = λ j h e. record {
    same_id = refl;
    same_kind = refl;
    same_series = refl;
    was_live = λ h. ground arith;
  };
  repools = λ j h. ground arith;
}

-- A live repair and a live download or repair of the same series are one job.
abbrev pub IsExclusive : ℕ → List WorkJob → Type 0
IsExclusive now js =
    (i j : WorkJob)
    → In i js
    → In j js
    → i.kind ≡ library_repair
    → is_mutating j.kind ≡ true
    → live_lease now i ≡ true
    → live_lease now j ≡ true
    → is_empty i.series_key ≡ false
    → i.series_key ≡ j.series_key
    → i.id ≡ j.id

Pointwise-before :
    (R : WorkJob → WorkJob → Type 0) (js ks : List WorkJob) (k : WorkJob)
    → Pointwise R js ks
    → In k ks
    → (j : WorkJob) × In j js × R j k
Pointwise-before R [] [] k p m = elim m [ ]
Pointwise-before R (j ∷ js) [] k p m = elim m [ ]
Pointwise-before R [] (x ∷ ks) k p m = elim p [ ]
Pointwise-before R (j ∷ js) (x ∷ ks) k p (inl e) = (j, inl refl, rw e p.0)
Pointwise-before R (j ∷ js) (x ∷ ks) k p (inr m) =
    let (i, there, r) = Pointwise-before R js ks k p.1 m in (i, inr there, r)

pub IsExclusive-Pointwise :
    (now : ℕ) (js ks : List WorkJob)
    → Pointwise (Calm now) js ks
    → IsExclusive now js
    → IsExclusive now ks
IsExclusive-Pointwise now js ks p x i j mi mj ri mj_kind li lj ne same =
    let (i', ni, ci) = Pointwise-before (Calm now) js ks i p mi in
    let (j', nj, cj) = Pointwise-before (Calm now) js ks j p mj in
    let here =
      x i' j' ni nj (rw (← ci.same_kind) ri) (rw (← cj.same_kind) mj_kind) (ci.was_live li)
        (cj.was_live lj) (rw (← ci.same_series) ne)
        (rw (← ci.same_series, ← cj.same_series) same) in
    ci.same_id ∙ here ∙ sym cj.same_id
