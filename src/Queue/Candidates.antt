-- ===== src/Queue/Candidates.antt =====
-- manga_manager/infrastructure/job_queue.py: what `claim_query` promises of the row that it
-- selects.
use manga_manager.Prelude.{
  ℕ, ◌≡◌, ◌<◌, List, [], ◌∷◌, true, In, arith, some, both, Bool-cases, keep-In, ◌||◌, inl,
  Option-cases, inr, ltb→lt,
}
use manga_manager.Domain.Jobs.{leased, is_active, state_beq_iff, queued, retry_wait}
use manga_manager.Queue.Rows.{WorkJob, Db}
use manga_manager.Queue.Permits.{lex_lt}
use manga_manager.Queue.Eligible.{
  ClaimFilter, is_claimable, select_candidate, first_by, rank, is_expired, passes_filter, is_ready,
}

-- The first row of an order is a row of the list.
first_by-In :
    (key : WorkJob → List ℕ) (js : List WorkJob) (c : WorkJob) → first_by key js ≡ some c → In c js
unfolding first_by
first_by-In key [] c h = cc
first_by-In key (j ∷ js) c h = elim (Option-cases (first_by key js)) [
  | inl e ↦ inl (ground arith)
  | inr (k, e) ↦ elim (Bool-cases (lex_lt (key k) (key j))) [
    | inl q ↦ inr (first_by-In key js c (ground arith))
    | inr q ↦ inl (ground arith)
  ]
]

-- A candidate is a claimable row of the table.
pub select_candidate-In :
    (db : Db) (now : ℕ) (f : ClaimFilter) (c : WorkJob)
    → select_candidate db now f ≡ some c
    → In c db.jobs × (is_claimable db now f c ≡ true)
unfolding select_candidate
select_candidate-In db now f c h =
    keep-In (is_claimable db now f) db.jobs c (first_by-In (rank db now) _ c h)

-- What `claim_query` promises of a candidate, as far as leasing it goes.
abbrev pub Leasable : WorkJob → Type 0
Leasable c = (is_active c.status ≡ true) × (c.attempts < c.max_attempts)

pub is_claimable-Leasable :
    (db : Db) (now : ℕ) (f : ClaimFilter) (c : WorkJob)
    → is_claimable db now f c ≡ true
    → Leasable c
unfolding is_claimable
is_claimable-Leasable db now f c h =
    let unfiltered = (both _ (passes_filter f c) h).0 in
    let stored = (both _ _ unfiltered).0 in
    let unshared = (both _ _ stored).0 in
    let sourced = (both _ _ unshared).0 in
    let (due, attempts_left) = both (is_ready now c || is_expired now c) _ sourced in
    (
      ground (
        arith,
        state_beq_iff c.status queued,
        state_beq_iff c.status retry_wait,
        state_beq_iff c.status leased,
      ),
      ltb→lt c.attempts c.max_attempts attempts_left,
    )
