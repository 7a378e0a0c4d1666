-- ===== src/Queue/Openness.antt =====
-- manga_manager/infrastructure/job_queue.py: the tests of `claim_query` on providers and series,
-- against what they say of rows.
use manga_manager.Prelude.{
  ℕ, ◌≡◌, ◌≢◌, inl, inr, refl, arith, true, false, both, Bool, Bool-cases, In, sym, ◌∙◌,
  nat_beq_iff, ◌&&◌, ◌||◌, ◌==◌, ◌∷◌, [], not, is_empty, nat_eq, text_eq, any, list_beq_iff, List,
  Text, Text,
}
use manga_manager.Domain.Jobs.{
  chapter_download, library_repair, kind_eq, kind_beq_iff, state_eq, JobKind,
}
use manga_manager.Queue.Rows.{WorkJob, Db, CatalogSourceState}
use manga_manager.Queue.Store.{live_lease, expires_after}
use manga_manager.Queue.Routing.{is_mutating}
use manga_manager.Queue.Eligible.{series_free, series_leased}
use manga_manager.Queue.Start.{series_free-cases, leased-false, any_of_none}

abbrev pub blocks : ℕ → Text → CatalogSourceState → Bool
blocks now source s =
    s.source == source && (not s.manual_enabled || expires_after now s.cooldown_until)

abbrev pub IsOpenRow : ℕ → CatalogSourceState → Type 0
IsOpenRow now s = (s.manual_enabled ≡ true) × (expires_after now s.cooldown_until ≡ false)

row_open :
    (now : ℕ) (source : Text) (s : CatalogSourceState)
    → s.source ≡ source
    → blocks now source s ≡ false
    → IsOpenRow now s
row_open now source s e h =
    let here : (s.source == source) ≡ true = (list_beq_iff s.source source).1 e in
    tests _ _ _ here h
  where
    tests : (a b c : Bool) → a ≡ true → (a && (not b || c)) ≡ false → (b ≡ true) × (c ≡ false)
    tests a b c t h = ground arith

open_row :
    (now : ℕ) (source : Text) (s : CatalogSourceState)
    → (s.source ≡ source → IsOpenRow now s)
    → blocks now source s ≡ false
open_row now source s h = elim (Bool-cases (s.source == source)) [
  | inr e ↦ rw e refl
  | inl e ↦ let (a, b) = h ((list_beq_iff s.source source).0 e) in rw (e, a, b) refl
]

-- No row of the provider blocks it exactly where each is open.
pub rows_open :
    (now : ℕ) (source : Text) (ss : List CatalogSourceState)
    → any (blocks now source) ss ≡ false
    → (s : CatalogSourceState) → In s ss
    → s.source ≡ source
    → IsOpenRow now s
unfolding any
rows_open now source [] h s m e = elim m [ ]
rows_open now source (x ∷ ss) h s (inl same) e =
    let first : blocks now source x ≡ false = ground arith in
    rw same (row_open now source x (rw same at e) first)
rows_open now source (x ∷ ss) h s (inr m) e =
    let rest : any (blocks now source) ss ≡ false = ground arith in
    rows_open now source ss rest s m e

pub open_rows :
    (now : ℕ) (source : Text) (ss : List CatalogSourceState)
    → ((s : CatalogSourceState) → In s ss → s.source ≡ source → IsOpenRow now s)
    → any (blocks now source) ss ≡ false
unfolding any
open_rows now source [] h = refl
open_rows now source (x ∷ ss) h =
    let first = open_row now source x (h x (inl refl)) in
    rw first (open_rows now source ss (λ s m. h s (inr m)))

-- The other rows with a live lease on the series of a row leave it alone.
abbrev pub IsApart : ℕ → WorkJob → WorkJob → Type 0
IsApart now j k =
    k.id ≢ j.id
    → live_lease now k ≡ true
    → k.series_key ≡ j.series_key
    → (k.kind ≢ library_repair) × (j.kind ≡ library_repair → is_mutating k.kind ≡ false)

different : (k j : WorkJob) → k.id ≢ j.id → (k.id == j.id) ≡ false
different k j h = elim (Bool-cases (k.id == j.id)) [
  | inl e ↦ absurd (h ((nat_beq_iff k.id j.id).0 e))
  | inr e ↦ e
]

not_kind : (a : JobKind) → a ≢ library_repair → (a == library_repair) ≡ false
not_kind a h = elim (Bool-cases (a == library_repair)) [
  | inl e ↦ absurd (h ((kind_beq_iff a library_repair).0 e))
  | inr e ↦ e
]

pub series_free-IsApart :
    (db : Db) (now : ℕ) (j : WorkJob)
    → series_free db now j ≡ true
    → is_mutating j.kind ≡ true
    → is_empty j.series_key ≡ false
    → (k : WorkJob) → In k db.jobs
    → IsApart now j k
series_free-IsApart db now j free mutating named k m ne live same =
    let here : (k.series_key == j.series_key) ≡ true = (list_beq_iff _ _).1 same in
    let e = different k j ne in
    elim (series_free-cases db now j free mutating named) [
      | inl (q, l) ↦
          let t : (k.kind == library_repair) ≡ false =
            head _ _ _ live here (leased-false (λ x. x == library_repair) db now j k l m e) in
          (
            λ a.
                absurd (
                  let bad : true ≡ false = sym ((kind_beq_iff k.kind library_repair).1 a) ∙ t in
                  cc),
            λ a. absurd (let bad : chapter_download ≡ library_repair = sym q ∙ a in cc),
          )
      | inr (q, l) ↦
          let t : is_mutating k.kind ≡ false =
            head _ _ _ live here (leased-false is_mutating db now j k l m e) in
          (λ a. absurd (let bad : true ≡ false = rw a at t in cc), λ a. t)
    ]
  where
    head : (a b c : Bool) → b ≡ true → c ≡ true → (a && b && c) ≡ false → a ≡ false
    head a b c t u h = ground arith

IsApart-unleased :
    (test : JobKind → Bool) (db : Db) (now : ℕ) (j : WorkJob)
    → ((k : WorkJob)
        → In k db.jobs
        → k.id ≢ j.id
        → live_lease now k ≡ true
        → k.series_key ≡ j.series_key
        → test k.kind ≡ false)
    → series_leased test db now j ≡ false
unfolding series_leased
IsApart-unleased test db now j h = any_of_none _ db.jobs λ k m. elim (Bool-cases (k.id == j.id)) [
  | inl e ↦ rw e refl
  | inr e ↦ elim (Bool-cases (live_lease now k && k.series_key == j.series_key)) [
    | inr q ↦
        tail (not (k.id == j.id)) (test k.kind) (live_lease now k) (k.series_key == j.series_key) q
    | inl q ↦
        let (live, same) = both (live_lease now k) (k.series_key == j.series_key) q in
        let t =
          h k m (λ a. absurd (let bad : true ≡ false = sym ((nat_beq_iff k.id j.id).1 a) ∙ e in cc))
            live ((list_beq_iff k.series_key j.series_key).0 same) in
        rw (e, t) refl
  ]
]
  where
    tail : (n a b c : Bool) → (b && c) ≡ false → (n && a && b && c) ≡ false
    tail n a b c h = ground arith

pub IsApart-series_free :
    (db : Db) (now : ℕ) (j : WorkJob)
    → (is_mutating j.kind ≡ true
        → is_empty j.series_key ≡ false
        → (k : WorkJob) → In k db.jobs
        → IsApart now j k)
    → series_free db now j ≡ true
unfolding series_free
IsApart-series_free db now j h =
    elim (Bool-cases (is_mutating j.kind && not (is_empty j.series_key))) [
      | inr e ↦ ground (arith, e)
      | inl e ↦
          let (mutating, named) = both (is_mutating j.kind) (not (is_empty j.series_key)) e in
          let apart = h mutating (ground arith) in
          elim (Bool-cases (j.kind == library_repair)) [
            | inl q ↦
                let l =
                  IsApart-unleased is_mutating db now j
                    (λ k m a b c. (apart k m a b c).1 ((kind_beq_iff j.kind library_repair).0 q)) in
                rw (q, l) (ground arith)
            | inr q ↦
                let l =
                  IsApart-unleased (λ x. x == library_repair) db now j
                    (λ k m a b c. not_kind k.kind (apart k m a b c).0) in
                let d : (j.kind == chapter_download) ≡ true = ground arith in
                rw (d, l) (ground arith)
          ]
    ]
