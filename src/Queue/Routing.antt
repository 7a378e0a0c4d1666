-- ===== src/Queue/Routing.antt =====
-- manga_manager/infrastructure/job_queue.py: the pool and the fairness group of a job.
use manga_manager.Prelude.{
  ℕ, ◌+◌, ◌/◌, ◌%◌, Bool, true, false, ◌||◌, [], ◌∷◌, ◌++◌, Text, txt, nat_eq, if◌then◌else◌,
  is_empty, starts_with, or_text, zero, suc,
}
use manga_manager.Domain.Jobs.{
  JobKind, source_pull, source_refresh, chapter_download, kavita_sync, library_repair,
  cover_backfill, maintenance, notification, match_operation, kind_value,
}
use manga_manager.Queue.Rows.{WorkJob}

abbrev or_unknown : Text → Text
or_unknown [] = txt "unknown"
or_unknown (c ∷ s) = c ∷ s

-- `default_pool`
unfoldable pub default_pool : JobKind → Text → Text
default_pool source_pull source = txt "pull:" ++ or_unknown source
default_pool source_refresh source = txt "refresh:" ++ or_unknown source
default_pool chapter_download source = txt "download:" ++ or_unknown source
default_pool kavita_sync source = txt "kavita"
default_pool cover_backfill source = txt "cover_backfill"
default_pool notification source = txt "notification"
default_pool match_operation source = txt "catalog_mutation"
default_pool library_repair source = txt "maintenance"
default_pool maintenance source = txt "maintenance"

-- `NETWORK_JOB_KINDS`
abbrev pub is_network_kind : JobKind → Bool
is_network_kind source_pull = true
is_network_kind source_refresh = true
is_network_kind chapter_download = true
is_network_kind kavita_sync = false
is_network_kind library_repair = false
is_network_kind cover_backfill = false
is_network_kind maintenance = false
is_network_kind notification = false
is_network_kind match_operation = false

-- `MUTATING_JOB_KINDS`
abbrev pub is_mutating : JobKind → Bool
is_mutating chapter_download = true
is_mutating library_repair = true
is_mutating source_pull = false
is_mutating source_refresh = false
is_mutating kavita_sync = false
is_mutating cover_backfill = false
is_mutating maintenance = false
is_mutating notification = false
is_mutating match_operation = false

-- `_is_network_job`
unfoldable pub is_network_job : WorkJob → Bool
is_network_job job = is_network_kind job.kind || starts_with (txt "pull:") job.pool

-- `str` of a key, in decimal: the digits below 10, and then those before them.
unfoldable pub digits : ℕ → ℕ → Text → Text
digits zero n acc = acc
digits (suc fuel) n acc =
    let before = digits fuel (n / 10) ((b'0' + n % 10) ∷ acc) in
    elim (n / 10) [ zero ↦ (b'0' + n % 10) ∷ acc | suc _ ↦ before ]

-- A number has no more digits than its value and one.
unfoldable pub decimal_text : ℕ → Text
decimal_text n = digits (suc n) n []

unfoldable pub cycle_prefix : ℕ → Text
cycle_prefix cycle_id = txt "cycle:" ++ decimal_text cycle_id

abbrev pulled_group : Text → Text → Text
pulled_group workflow_key source = or_text workflow_key (txt "pull:" ++ source)

unfoldable pub kept_up_group : JobKind → ℕ → Text
kept_up_group kind cycle_id = cycle_prefix cycle_id ++ (txt ":maintenance:" ++ kind_value kind)

abbrev own_group : JobKind → Text → Text
own_group kind dedupe_key = kind_value kind ++ (txt ":" ++ dedupe_key)

-- `_default_group_key`
unfoldable pub default_group_key : JobKind → Text → Text → Text → Text → ℕ → Text
default_group_key chapter_download key source series_key workflow_key cycle_id =
    if is_empty series_key
    then own_group chapter_download key
    else cycle_prefix cycle_id ++ (txt ":download:" ++ series_key)
default_group_key source_pull key source series_key workflow_key c =
    pulled_group workflow_key source
default_group_key source_refresh key source series_key workflow_key c =
    pulled_group workflow_key source
default_group_key library_repair key source series_key w cycle_id =
    kept_up_group library_repair cycle_id
default_group_key kavita_sync key source series_key w cycle_id = kept_up_group kavita_sync cycle_id
default_group_key cover_backfill key source series_key w cycle_id =
    kept_up_group cover_backfill cycle_id
default_group_key maintenance key source series_key w cycle_id = kept_up_group maintenance cycle_id
default_group_key notification key source series_key w c = own_group notification key
default_group_key match_operation key source series_key w c = own_group match_operation key
