-- ===== src/Downloads/Activity.antt =====
-- manga_manager/application/download_activity.py: `has_runnable_or_leased_downloads`.
use manga_manager.Prelude.{
  ℕ, Bool, ◌&&◌, Option, ltb, Text, ◌==◌, any, true, not, ◌||◌, some, none, text_eq,
}
use manga_manager.Domain.Jobs.{chapter_download, kind_eq}
use manga_manager.Queue.Rows.{WorkJob, Db}
use manga_manager.Queue.Store.{live_lease}
use manga_manager.Queue.Eligible.{is_ready, source_blocked, storage_paused}

abbrev pub is_runnable : Db → ℕ → WorkJob → Bool
is_runnable db now j =
    is_ready now j
    && ltb j.attempts j.max_attempts
    && not (source_blocked db now j.source)
    && not (storage_paused db.storage)

abbrev pub is_of_series : Option Text → WorkJob → Bool
is_of_series none j = true
is_of_series (some key) j = j.series_key == key

abbrev pub is_active_download : Db → ℕ → Option Text → WorkJob → Bool
is_active_download db now key j =
    j.kind == chapter_download && (live_lease now j || is_runnable db now j) && is_of_series key j

unfoldable pub has_runnable_or_leased_downloads : Db → ℕ → Option Text → Bool
has_runnable_or_leased_downloads db now key = any (is_active_download db now key) db.jobs
