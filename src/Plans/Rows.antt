-- ===== src/Plans/Rows.antt =====
-- manga_manager/infrastructure/db_models.py: the rows that the download plans read and write, as far as
-- they do. Times are microseconds; the number of a chapter counts millionths, the scale of its
-- column; quality ranks are natural numbers.
use manga_manager.Prelude.{ℕ, Bool, List, Option, Text}
use manga_manager.Queue.Rows.{Db, Detail}

pub record Chapter : Type 0 where
  pub id : ℕ
  pub series_id : ℕ
  pub sort_number : Option ℕ
  pub created_at : ℕ

-- `CatalogChapterRelease`
pub record Release : Type 0 where
  pub id : ℕ
  pub chapter_id : ℕ
  pub source : Text
  pub quality_rank : ℕ
  pub downloadable_after : Option ℕ

-- `ChapterArtifact`; `active` is its state "active", `fallback` its provenance "fallback".
pub record Artifact : Type 0 where
  pub chapter_id : ℕ
  pub active : Bool
  pub fallback : Bool
  pub source : Text
  pub quality_rank : ℕ

pub data Tier : Type 0 where
  current priority backfill : Tier

pub data IntentState : Type 0 where
  blocked pending queued satisfied attention cancelled : IntentState

-- `ChapterDownloadIntent`
pub record Intent : Type 0 where
  pub id : ℕ
  pub series_id : ℕ
  pub chapter_id : ℕ
  pub tier : Tier
  pub state : IntentState
  pub job_id : Option ℕ
  pub updated_at : ℕ

pub data PlanStatus : Type 0 where
  active complete cancelled : PlanStatus

pub data Phase : Type 0 where
  priority backfill complete cancelled : Phase

-- `SeriesDownloadPlan`
pub record Plan : Type 0 where
  pub series_id : ℕ
  pub status : PlanStatus
  pub phase : Phase
  pub total_chapters : ℕ
  pub satisfied_chapters : ℕ
  pub attention_chapters : ℕ
  pub created_at : ℕ
  pub updated_at : ℕ

-- `ChapterReleaseAttempt`
pub record ReleaseAttempt : Type 0 where
  pub chapter_id : ℕ
  pub chapter_release_id : ℕ
  pub job_id : ℕ
  pub source : Text
  pub outcome : Text
  pub error_code : Text
  pub error_message : Text
  pub retry_after : Option ℕ
  pub details : List (Text × Detail)
  pub created_at : ℕ

-- `CatalogSourceSeries`; `carried` is the text of its popularity and metadata.
pub record SourceIdentity : Type 0 where
  pub series_id : ℕ
  pub source : Text
  pub source_id : Text
  pub title : Text
  pub url : Text
  pub description : Text
  pub cover_url : Text
  pub carried : Text
  pub observation_version : Text

-- `CatalogSeries`
pub record Series : Type 0 where
  pub id : ℕ
  pub status : Text

-- The tables, the job queue with them, and the next key of an intent. Intents and identities stand in
-- the order of their ids, attempts newest first.
pub record Catalog : Type 0 where
  pub queue : Db
  pub chapters : List Chapter
  pub releases : List Release
  pub artifacts : List Artifact
  pub intents : List Intent
  pub plans : List Plan
  pub attempts : List ReleaseAttempt
  pub identities : List SourceIdentity
  pub series : List Series
  pub next_intent_id : ℕ
