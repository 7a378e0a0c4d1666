-- ===== src/Domain/Jobs.antt =====
-- manga_manager/domain/jobs.py: job kinds, job states and the validated payloads. A payload column
-- holds the dump of a validated payload, so a payload is a value of one of the nine classes.
-- Three fields of `SourceRefreshPayload` that the queue only carries (popularity, external_ids and
-- metadata) stand together as the text of their JSON value.
use mathlib.Core.Bool.{decide}
use manga_manager.Prelude.{
  ℕ, ◌≡◌, ◌↔◌, Bool, true, false, not, ◌&&◌, ◌||◌, List, Option, none, some, arith, Text, txt,
  Comparable, ◌==◌, nat_eq, text_eq, leb, ltb, if◌then◌else◌, length, any, is_empty, ℕ_discrete,
  Bool-cases,
}

pub data JobKind : Type 0 where
  source_pull source_refresh chapter_download kavita_sync library_repair : JobKind
  cover_backfill maintenance notification match_operation : JobKind

pub data JobState : Type 0 where
  queued leased retry_wait succeeded failed cancelled : JobState

abbrev kind_index : JobKind → ℕ
kind_index source_pull = 0
kind_index source_refresh = 1
kind_index chapter_download = 2
kind_index kavita_sync = 3
kind_index library_repair = 4
kind_index cover_backfill = 5
kind_index maintenance = 6
kind_index notification = 7
kind_index match_operation = 8

abbrev state_index : JobState → ℕ
state_index queued = 0
state_index leased = 1
state_index retry_wait = 2
state_index succeeded = 3
state_index failed = 4
state_index cancelled = 5

pub kind_beq_iff : (a b : JobKind) → ((kind_index a == kind_index b) ≡ true) ↔ (a ≡ b)
kind_beq_iff a b = ground arith

pub state_beq_iff : (a b : JobState) → ((state_index a == state_index b) ≡ true) ↔ (a ≡ b)
state_beq_iff a b = ground arith

instance abbrev pub kind_eq : Comparable JobKind
kind_eq = record { equal = λ a b. kind_index a == kind_index b; equal_iff = kind_beq_iff }

instance abbrev pub state_eq : Comparable JobState
state_eq = record { equal = λ a b. state_index a == state_index b; equal_iff = state_beq_iff }

-- `ACTIVE_JOB_STATES`, and its complement `TERMINAL_JOB_STATES`.
abbrev pub is_active : JobState → Bool
is_active queued = true
is_active leased = true
is_active retry_wait = true
is_active succeeded = false
is_active failed = false
is_active cancelled = false

abbrev pub is_terminal : JobState → Bool
is_terminal queued = false
is_terminal leased = false
is_terminal retry_wait = false
is_terminal succeeded = true
is_terminal failed = true
is_terminal cancelled = true

-- `StrEnum` values of the kinds.
abbrev pub kind_value : JobKind → Text
kind_value source_pull = txt "source_pull"
kind_value source_refresh = txt "source_refresh"
kind_value chapter_download = txt "chapter_download"
kind_value kavita_sync = txt "kavita_sync"
kind_value library_repair = txt "library_repair"
kind_value cover_backfill = txt "cover_backfill"
kind_value maintenance = txt "maintenance"
kind_value notification = txt "notification"
kind_value match_operation = txt "match_operation"

pub record SourcePullPayload : Type 0 where
  pub source : Text
  pub workflow_key : Text

pub record SourceRefreshPayload : Type 0 where
  pub source : Text
  pub source_id : Text
  pub title : Text
  pub url : Text
  pub aliases : List Text
  pub description : Text
  pub cover_url : Text
  pub genres : List Text
  pub carried : Text
  pub workflow_key : Text
  pub observation_version : Text
  pub acquisition_critical : Bool

pub record ChapterDownloadPayload : Type 0 where
  pub chapter_release_id : ℕ
  pub attempted_sources : List Text
  pub preferred_only : Bool

-- `Literal["", "read", "unread"]`
pub data ReadingStatus : Type 0 where
  unset read unread : ReadingStatus

pub record KavitaSyncPayload : Type 0 where
  pub series_id : ℕ
  pub series_ids : List ℕ
  pub folder_path : Text
  pub reading_status : ReadingStatus

pub record LibraryRepairPayload : Type 0 where
  pub series_id : ℕ
  pub reason : Text
  pub obsolete_storage_keys : List Text

pub record MaintenancePayload : Type 0 where
  pub action : Text
  pub series_id : ℕ

pub data Body : Type 0 where
  source_pull : SourcePullPayload → Body
  source_refresh : SourceRefreshPayload → Body
  chapter_download : ChapterDownloadPayload → Body
  kavita_sync : KavitaSyncPayload → Body
  library_repair : LibraryRepairPayload → Body
  cover_backfill : ℕ → Body
  maintenance : MaintenancePayload → Body
  notification : ℕ → Body
  match_operation : ℕ → Body

-- `JobPayload`: the version that every class has, and the fields of the class.
pub record JobPayload : Type 0 where
  pub version : ℕ
  pub body : Body

JobPayload-discrete : Discrete JobPayload
JobPayload-discrete = hlevel ℕ_discrete

-- `==` on the dumps of two payloads.
unfoldable pub payload_beq : JobPayload → JobPayload → Bool
unfolding JobPayload-discrete
payload_beq p q = decide (JobPayload-discrete p q)

abbrev pub body_kind : Body → JobKind
body_kind (Body.source_pull p) = JobKind.source_pull
body_kind (Body.source_refresh p) = JobKind.source_refresh
body_kind (Body.chapter_download p) = JobKind.chapter_download
body_kind (Body.kavita_sync p) = JobKind.kavita_sync
body_kind (Body.library_repair p) = JobKind.library_repair
body_kind (Body.cover_backfill n) = JobKind.cover_backfill
body_kind (Body.maintenance p) = JobKind.maintenance
body_kind (Body.notification n) = JobKind.notification
body_kind (Body.match_operation n) = JobKind.match_operation

-- `Field(min_length=lo, max_length=hi)`
length_within : ℕ → ℕ → Text → Bool
length_within lo hi s = leb lo (length s) && leb (length s) hi

slug_char : ℕ → Bool
slug_char c = (leb b'a' c && leb c b'z') || (leb b'0' c && leb c b'9') || c == b'_' || c == b'-'

-- `Field(min_length=1, pattern=r"^[a-z0-9_-]+$")`
is_slug : Text → Bool
unfolding slug_char any
is_slug s = not (is_empty s) && not (any (λ c. not (slug_char c)) s)

is_unset : ReadingStatus → Bool
is_unset unset = true
is_unset read = false
is_unset unread = false

-- `validate_targets`
kavita_targets : KavitaSyncPayload → Bool
unfolding any is_unset
kavita_targets p =
    not (p.series_id == 0 && is_empty p.series_ids)
    && not (any (λ i. i == 0) p.series_ids)
    && (is_empty p.series_ids || (is_empty p.folder_path && is_unset p.reading_status))

-- The constraints that the field declarations of each class state.
valid_body : Body → Bool
unfolding length_within is_slug kavita_targets
valid_body (Body.source_pull p) =
    leb (length p.source) 50 && is_slug p.source && leb (length p.workflow_key) 100
valid_body (Body.source_refresh p) =
    leb (length p.source) 50
    && is_slug p.source
    && length_within 1 500 p.source_id
    && length_within 1 500 p.title
    && length_within 1 4096 p.url
    && leb (length p.workflow_key) 100
    && leb (length p.observation_version) 100
valid_body (Body.chapter_download p) = ltb 0 p.chapter_release_id
valid_body (Body.kavita_sync p) =
    leb (length p.series_ids) 100 && leb (length p.folder_path) 4096 && kavita_targets p
valid_body (Body.library_repair p) = ltb 0 p.series_id && length_within 1 100 p.reason
valid_body (Body.cover_backfill n) = ltb 0 n
valid_body (Body.maintenance p) = leb (length p.action) 100 && is_slug p.action
valid_body (Body.notification n) = ltb 0 n
valid_body (Body.match_operation n) = ltb 0 n

-- `parse_job_payload`: a payload of another class has fields that the class forbids, or lacks some.
unfoldable pub parse_job_payload : JobKind → JobPayload → Option JobPayload
unfolding valid_body
parse_job_payload kind p =
    if body_kind p.body == kind && leb 1 p.version && valid_body p.body then some p else none

pub parse_job_payload-kind :
    (kind : JobKind) (p q : JobPayload)
    → parse_job_payload kind p ≡ some q
    → (body_kind q.body ≡ kind) × (q ≡ p)
unfolding parse_job_payload
parse_job_payload-kind kind p q h = ground (
  arith,
  kind_beq_iff (body_kind p.body) kind,
  Bool-cases (body_kind p.body == kind && leb 1 p.version && valid_body p.body),
)
