-- ===== src/Queue/Selection.antt =====
-- manga_manager/infrastructure/job_queue.py: which row `claim_query` selects, described by the columns
-- of the rows.
use manga_manager.Prelude.{
  ℕ, ◌≡◌, ◌≤◌, ◌<◌, ◌⊎◌, inl, inr, refl, arith, true, false, both, Bool, Bool-cases, Option-cases,
  In, some, none, sym, ◌∙◌, ◌&&◌, ◌||◌, ◌==◌, ◌∷◌, [], not, is_empty, nat_eq, text_eq, ltb, leb,
  ltb→lt,
}
use manga_manager.Domain.Jobs.{
  chapter_download, kind_eq, kind_beq_iff, state_eq, state_beq_iff, queued, leased, retry_wait,
}
use manga_manager.Queue.Rows.{WorkJob, Db, CatalogSourceState}
use manga_manager.Queue.Store.{expired_at}
use manga_manager.Queue.Routing.{is_network_kind, is_mutating}
use manga_manager.Queue.Permits.{lex_lt}
use manga_manager.Queue.Eligible.{
  ClaimFilter, is_claimable, is_ready, is_expired, source_blocked, series_free, storage_paused,
  passes_filter, select_candidate, scheduling_tier, fairness_load, rank,
}
use manga_manager.Queue.Openness.{
  open_rows, rows_open, series_free-IsApart, IsApart-series_free, IsOpenRow, IsApart,
}
use manga_manager.Queue.Ordering.{select_candidate-least}

-- The row waits and its time has come, or its lease is over.
abbrev pub IsDue : ℕ → WorkJob → Type 0
IsDue now j =
    (((j.status ≡ queued) ⊎ (j.status ≡ retry_wait)) × (j.available_at ≤ now))
    ⊎ ((j.status ≡ leased) × ((u : ℕ) × (j.lease_expires_at ≡ some u) × (u ≤ now)))

-- A row that may start, whatever a caller narrows the search by.
pub record MayStart (db : Db) (now : ℕ) (j : WorkJob) : Type 0 where
  pub due : IsDue now j
  pub attempts_left : j.attempts < j.max_attempts
  pub provider_open :
      is_network_kind j.kind ≡ true
      → (s : CatalogSourceState) → In s db.sources
      → s.source ≡ j.source
      → IsOpenRow now s
  pub series_open :
      is_mutating j.kind ≡ true
      → is_empty j.series_key ≡ false
      → (k : WorkJob) → In k db.jobs
      → IsApart now j k
  pub storage_open : j.kind ≡ chapter_download → storage_paused db.storage ≡ false

-- A row stands before another: by tier, then by the load of its group, priority, time and id.
abbrev pub Precedes : Db → ℕ → WorkJob → WorkJob → Type 0
Precedes db now k c =
    (scheduling_tier k < scheduling_tier c)
    ⊎ ((scheduling_tier k ≡ scheduling_tier c)
        × ((fairness_load db now k < fairness_load db now c)
            ⊎ ((fairness_load db now k ≡ fairness_load db now c)
                × ((k.priority < c.priority)
                    ⊎ ((k.priority ≡ c.priority)
                        × ((k.available_at < c.available_at)
                            ⊎ ((k.available_at ≡ c.available_at) × (k.id < c.id))))))))

lex_lt-five :
    (a b c d e v w x y z : ℕ)
    → (a < v)
      ⊎ ((a ≡ v) × ((b < w) ⊎ ((b ≡ w) × ((c < x) ⊎ ((c ≡ x) × ((d < y) ⊎ ((d ≡ y) × (e < z))))))))
    → lex_lt (a ∷ b ∷ c ∷ d ∷ e ∷ []) (v ∷ w ∷ x ∷ y ∷ z ∷ []) ≡ true
unfolding lex_lt
lex_lt-five a b c d e v w x y z h = ground arith

Precedes-rank :
    (db : Db) (now : ℕ) (k c : WorkJob)
    → Precedes db now k c
    → lex_lt (rank db now k) (rank db now c) ≡ true
unfolding rank
Precedes-rank db now k c h = lex_lt-five _ _ _ _ _ _ _ _ _ _ h

ready-IsDue : (now : ℕ) (j : WorkJob) → is_ready now j ≡ true → IsDue now j
ready-IsDue now j h =
    inl (ground (arith, state_beq_iff j.status queued, state_beq_iff j.status retry_wait))

expired-IsDue : (now : ℕ) (j : WorkJob) → is_expired now j ≡ true → IsDue now j
expired-IsDue now j h =
    let (a, b) = both (j.status == leased) (expired_at now j.lease_expires_at) h in
    elim (Option-cases j.lease_expires_at) [
      | inl e ↦ absurd (let bad : false ≡ true = rw e at b in cc)
      | inr (u, e) ↦
          let over : leb u now ≡ true = rw e at b in
          inr ((state_beq_iff j.status leased).0 a, (u, e, ground arith))
    ]

tests-IsDue : (now : ℕ) (j : WorkJob) → (is_ready now j || is_expired now j) ≡ true → IsDue now j
tests-IsDue now j h = elim (Bool-cases (is_ready now j)) [
  | inl e ↦ ready-IsDue now j e
  | inr e ↦ expired-IsDue now j (rw e at h)
]

IsDue-tests : (now : ℕ) (j : WorkJob) → IsDue now j → (is_ready now j || is_expired now j) ≡ true
IsDue-tests now j (inl (inl q, h)) = rw q (ground arith)
IsDue-tests now j (inl (inr q, h)) = rw q (ground arith)
IsDue-tests now j (inr (q, (u, e, h))) = rw (q, e) (ground arith)

six :
    (a b c d e f : Bool)
    → (a && b && c && d && e && f) ≡ true
    → (a ≡ true) × (b ≡ true) × (c ≡ true) × (d ≡ true) × (e ≡ true) × (f ≡ true)
six a b c d e f h = ground arith

-- The tests of the query say that a row may start, and that the caller does not filter it out.
claimable-MayStart :
    (db : Db) (now : ℕ) (f : ClaimFilter) (j : WorkJob)
    → is_claimable db now f j ≡ true
    → MayStart db now j × (passes_filter f j ≡ true)
unfolding is_claimable source_blocked
claimable-MayStart db now f j h =
    let (due, left, provider, free, storage, kept) =
      six (is_ready now j || is_expired now j) (ltb j.attempts j.max_attempts)
        (not (is_network_kind j.kind) || not (source_blocked db now j.source))
        (series_free db now j) (not (j.kind == chapter_download) || not (storage_paused db.storage))
        (passes_filter f j) h in
    (
      record {
        due = tests-IsDue now j due;
        attempts_left = ltb→lt _ _ left;
        provider_open =
            λ n. rows_open now j.source db.sources (second (is_network_kind j.kind) _ n provider);
        series_open = series_free-IsApart db now j free;
        storage_open = λ d.
            second (j.kind == chapter_download) _ ((kind_beq_iff j.kind chapter_download).1 d)
              storage;
      },
      kept,
    )
  where
    second : (a b : Bool) → a ≡ true → (not a || not b) ≡ true → b ≡ false
    second a b t h = ground arith

MayStart-claimable :
    (db : Db) (now : ℕ) (f : ClaimFilter) (j : WorkJob)
    → MayStart db now j
    → passes_filter f j ≡ true
    → is_claimable db now f j ≡ true
unfolding is_claimable source_blocked
MayStart-claimable db now f j m kept =
    let due = IsDue-tests now j m.due in
    let left : ltb j.attempts j.max_attempts ≡ true = let h = m.attempts_left in ground arith in
    let free = IsApart-series_free db now j m.series_open in
    let provider =
      either (is_network_kind j.kind) (source_blocked db now j.source)
        (λ n. open_rows now j.source db.sources (m.provider_open n)) in
    let storage =
      either (j.kind == chapter_download) (storage_paused db.storage)
        (λ d. m.storage_open ((kind_beq_iff j.kind chapter_download).0 d)) in
    all_six _ _ _ _ _ _ due left provider free storage kept
  where
    either : (a b : Bool) → (a ≡ true → b ≡ false) → (not a || not b) ≡ true
    either false b h = refl
    either true b h = rw (h refl) refl

    all_six :
        (a b c d e f : Bool)
        → a ≡ true
        → b ≡ true
        → c ≡ true
        → d ≡ true
        → e ≡ true
        → f ≡ true
        → (a && b && c && d && e && f) ≡ true
    all_six a b c d e f p q r s t u = ground arith

-- A row that the caller does not filter out, and that may start.
abbrev pub IsEligible : Db → ℕ → ClaimFilter → WorkJob → Type 0
IsEligible db now f j = MayStart db now j × (passes_filter f j ≡ true)

-- The candidate of a claim is a row of the table that may start and that the caller does not filter
-- out: its time has come or its lease is over, it has attempts left, its provider is open, no live
-- lease on its series excludes it, and the storage is not paused for a download. No other such row
-- precedes it by tier, load of its group, priority, time and id. Without a candidate there is no
-- such row.
pub select_candidate-first :
    (db : Db) (now : ℕ) (f : ClaimFilter)
    → ((select_candidate db now f ≡ none)
        × ((k : WorkJob) → In k db.jobs → ¬ IsEligible db now f k))
      ⊎ ((c : WorkJob) × (select_candidate db now f ≡ some c)
          × In c db.jobs
          × IsEligible db now f c
          × ((k : WorkJob) → In k db.jobs → IsEligible db now f k → ¬ Precedes db now k c))
select_candidate-first db now f = elim (select_candidate-least db now f) [
  | inl (e, empty) ↦ inl (
    e,
    λ k m p.
        absurd
          (let bad : true ≡ false = sym (MayStart-claimable db now f k p.0 p.1) ∙ empty k m in cc),
  )
  | inr (c, e, m, t, least) ↦ inr (
    c,
    e,
    m,
    claimable-MayStart db now f c t,
    λ k i p q. absurd (
        let bad : true ≡ false =
          sym (Precedes-rank db now k c q) ∙ least k i (MayStart-claimable db now f k p.0 p.1) in
        cc),
  )
]
