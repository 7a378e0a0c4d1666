-- ===== src/Downloads/Candidates.antt =====
-- manga_manager/application/download_activity.py against `claim_query` of the job queue.
use manga_manager.Downloads.Activity.{
  is_active_download, has_runnable_or_leased_downloads, is_runnable,
}
use manga_manager.Prelude.{
  refl, both, ltb, none, sym, ◌∙◌, ℕ, Bool, ◌≡◌, ◌⊎◌, inl, inr, true, false, [], ◌∷◌, any, List,
  none, In, ◌||◌, ◌&&◌, Bool-cases, not, arith, ◌==◌,
}
use manga_manager.Domain.Jobs.{chapter_download, kind_eq, kind_beq_iff}
use manga_manager.Queue.Rows.{WorkJob, Db}
use manga_manager.Queue.Store.{live_lease}
use manga_manager.Queue.Exclusion.{any-false}
use manga_manager.Queue.Routing.{is_network_kind}
use manga_manager.Queue.Eligible.{
  source_blocked, storage_paused, ClaimFilter, is_claimable, is_expired, is_ready, series_free,
  passes_filter,
}

any-In :
    (p : WorkJob → Bool) (js : List WorkJob)
    → any p js ≡ true
    → (j : WorkJob) × In j js × (p j ≡ true)
unfolding any
any-In p [] h = cc
any-In p (j ∷ js) h = elim (Bool-cases (p j)) [
  | inl e ↦ (j, inl refl, e)
  | inr e ↦ let (k, there, t) = any-In p js (rw e at h) in (k, inr there, t)
]

-- What the two queries test of a row: whether it is a download on the network, ready, expired, with
-- attempts left, blocked by its provider, on a free series, paused by the storage, filtered, leased.
waiting_tests :
    (d n r x a b s m g l : Bool)
    → d ≡ true
    → n ≡ true
    → x ≡ false
    → ((r || x) && a && (not n || not b) && s && (not d || not m) && g) ≡ true
    → (d && (l || (r && a && not b && not m)) && true) ≡ true
waiting_tests d n r x a b s m g l e f h t = ground arith

active_tests :
    (d n r x a b s m g l : Bool)
    → n ≡ true
    → s ≡ true
    → g ≡ true
    → l ≡ false
    → (d && (l || (r && a && not b && not m)) && true) ≡ true
    → ((r || x) && a && (not n || not b) && s && (not d || not m) && g) ≡ true
active_tests d n r x a b s m g l e f h i t = ground arith

is_download : (j : WorkJob) → (j.kind == chapter_download) ≡ true → j.kind ≡ chapter_download
is_download j e = (kind_beq_iff j.kind chapter_download).0 e

active-is_download :
    (db : Db) (now : ℕ) (j : WorkJob)
    → is_active_download db now none j ≡ true
    → j.kind ≡ chapter_download
active-is_download db now j h =
    let a : Bool = live_lease now j || is_runnable db now j in
    let d : Bool = j.kind == chapter_download in is_download j (both d a (both (d && a) true h).0).0

-- A waiting download among the candidates of a claim is active.
waiting_active :
    (db : Db) (now : ℕ) (f : ClaimFilter) (j : WorkJob)
    → j.kind ≡ chapter_download
    → is_claimable db now f j ≡ true
    → is_expired now j ≡ false
    → is_active_download db now none j ≡ true
unfolding is_claimable
waiting_active db now f j k c e =
    waiting_tests (j.kind == chapter_download) (is_network_kind j.kind) (is_ready now j)
      (is_expired now j) (ltb j.attempts j.max_attempts) (source_blocked db now j.source)
      (series_free db now j) (storage_paused db.storage) (passes_filter f j) (live_lease now j)
      ((kind_beq_iff j.kind chapter_download).1 k) (rw k refl) e c

-- An active download has a live lease, or it is among the candidates of a claim that does not filter
-- it out, once its series is free.
active_claimable :
    (db : Db) (now : ℕ) (f : ClaimFilter) (j : WorkJob)
    → is_active_download db now none j ≡ true
    → series_free db now j ≡ true
    → passes_filter f j ≡ true
    → (live_lease now j ≡ true) ⊎ (is_claimable db now f j ≡ true)
unfolding is_claimable
active_claimable db now f j h s g = elim (Bool-cases (live_lease now j)) [
  | inl l ↦ inl l
  | inr l ↦
      let k : j.kind ≡ chapter_download = active-is_download db now j h in
      inr (
        active_tests (j.kind == chapter_download) (is_network_kind j.kind) (is_ready now j)
          (is_expired now j) (ltb j.attempts j.max_attempts) (source_blocked db now j.source)
          (series_free db now j) (storage_paused db.storage) (passes_filter f j) (live_lease now j)
          (rw k refl) s g l h)
]

-- Either downloads count as active, and then some download has a live lease, or every claim that does
-- not filter it out has it among the rows that it chooses from, once its series is free; or they do
-- not, and then each download among the rows that a claim with any filter chooses from is one whose
-- lease is over.
pub has_downloads-Candidates :
    (db : Db) (now : ℕ)
    → ((has_runnable_or_leased_downloads db now none ≡ true)
        × ((j : WorkJob) × In j db.jobs
            × (j.kind ≡ chapter_download)
            × ((f : ClaimFilter)
                → series_free db now j ≡ true
                → passes_filter f j ≡ true
                → (live_lease now j ≡ true) ⊎ (is_claimable db now f j ≡ true))))
      ⊎ ((has_runnable_or_leased_downloads db now none ≡ false)
          × ((f : ClaimFilter) (j : WorkJob)
              → In j db.jobs
              → j.kind ≡ chapter_download
              → is_claimable db now f j ≡ true
              → is_expired now j ≡ true))
unfolding has_runnable_or_leased_downloads
has_downloads-Candidates db now = elim (Bool-cases (any (is_active_download db now none) db.jobs)) [
  | inl h ↦
      let (j, there, t) = any-In (is_active_download db now none) db.jobs h in
      inl (h, (j, there, active-is_download db now j t, λ f s g. active_claimable db now f j t s g))
  | inr h ↦ inr (
    h,
    λ f j m k c. elim (Bool-cases (is_expired now j)) [
      | inl e ↦ e
      | inr e ↦
          let quiet : is_active_download db now none j ≡ false =
            any-false (is_active_download db now none) db.jobs j h m in
          absurd (let bad : true ≡ false = sym (waiting_active db now f j k c e) ∙ quiet in cc)
    ],
  )
]
