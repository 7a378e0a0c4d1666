-- ===== src/Plans/Detours.antt =====
-- manga_manager/application/download_plans.py: `reroute` and `bypass_cooling_source`, a download goes to
-- another provider. The sources of a list in the details of a row are one entry each.
use manga_manager.Prelude.{
  dedupe, List, Option, ℕ, Text, ◌∷◌, ◌++◌, false, none, map, find, keep, update_where, Bool, txt,
  ◌&&◌, some, [], take, ◌+◌, ◌==◌, true, if◌then◌else◌, text_eq, nat_eq,
}
use manga_manager.Domain.Jobs.{
  JobPayload, Body, ChapterDownloadPayload, chapter_download, parse_job_payload,
}
use manga_manager.Queue.Rows.{WorkJob, Db, Detail}
use manga_manager.Queue.Store.{Result, ok, raise, invalid_payload, update_jobs}
use manga_manager.Queue.Permits.{insert_pool}
use manga_manager.Queue.Waiting.{Reroute, is_waiting, reroute, reroute_waiting}
use manga_manager.Plans.Rows.{Release, Intent, ReleaseAttempt, Catalog}
use manga_manager.Plans.Choice.{fallback_release}
use manga_manager.Plans.Ready.{queue_intent}
use manga_manager.Queue.Store.{◌>>=◌}
use manga_manager.Domain.Jobs.{JobState, kind_eq, state_eq}

abbrev pub download_of : Body → Option ChapterDownloadPayload
download_of (Body.chapter_download p) = some p
download_of (Body.source_pull p) = none
download_of (Body.source_refresh p) = none
download_of (Body.kavita_sync p) = none
download_of (Body.library_repair p) = none
download_of (Body.cover_backfill n) = none
download_of (Body.maintenance p) = none
download_of (Body.notification n) = none
download_of (Body.match_operation n) = none

-- `ChapterDownloadPayload.model_validate`
abbrev pub validate_download : JobPayload → Option ChapterDownloadPayload
validate_download p = elim (parse_job_payload chapter_download p) [
  | none ↦ none
  | some q ↦ download_of q.body
]

abbrev pub download_to : ℕ → List Text → Bool → JobPayload
download_to release_id attempted preferred_only = record {
  version = 1;
  body = Body.chapter_download (record {
    chapter_release_id = release_id;
    attempted_sources = attempted;
    preferred_only = preferred_only;
  });
}

abbrev pub attempted_details : List Text → List (Text × Detail)
attempted_details = map (λ s. (txt "attempted_sources", Detail.text s))

-- `release.downloadable_after = at`
abbrev pub hold_release : ℕ → Option ℕ → List Release → List Release
hold_release id at = update_where (λ r. r.id == id) (λ r. record r { downloadable_after = at })

-- The intent of the chapter, if there is one, follows the job.
abbrev pub follow_intent : ℕ → ℕ → ℕ → List Intent → List Intent
follow_intent chapter_id job_id now is = elim (find (λ i. i.chapter_id == chapter_id) is) [
  | none ↦ is
  | some i ↦ update_where (λ x. x.id == i.id) (queue_intent job_id now) is
]

abbrev pub failed_attempt : Release → Release → ℕ → Text → Text → Option ℕ → ℕ → ReleaseAttempt
failed_attempt failed alternative job_id code message retry_after now = record {
  chapter_id = failed.chapter_id;
  chapter_release_id = failed.id;
  job_id = job_id;
  source = failed.source;
  outcome = txt "failed";
  error_code = code;
  error_message = take 4000 message;
  retry_after = retry_after;
  details = (txt "fallback_release_id", Detail.number alternative.id) ∷ [];
  created_at = now;
}

abbrev pub queued_attempt : Release → ℕ → Option ℕ → List (Text × Detail) → ℕ → ReleaseAttempt
queued_attempt alternative job_id retry_after details now = record {
  chapter_id = alternative.chapter_id;
  chapter_release_id = alternative.id;
  job_id = job_id;
  source = alternative.source;
  outcome = txt "fallback_queued";
  error_code = [];
  error_message = [];
  retry_after = retry_after;
  details = details;
  created_at = now;
}

abbrev pub rerouting : ChapterDownloadPayload → Release → Release → Text → ℕ → Reroute
rerouting current failed alternative code now =
    let attempted = dedupe (current.attempted_sources ++ failed.source ∷ []) in
    record {
      payload = download_to alternative.id attempted current.preferred_only;
      source = alternative.source;
      available_at = now;
      message = txt "rerouted to " ++ alternative.source ++ txt ": " ++ code;
      details = (txt "failed_source", Detail.text failed.source) ∷ attempted_details attempted;
    }

abbrev pub rerouted :
    WorkJob
    → Release
    → Release
    → Text
    → Text
    → Option ℕ
    → ℕ
    → Catalog
    → Result (Db × Bool)
    → Result (Option Catalog)
rerouted job failed alternative code message retry_after now k (raise e) = raise e
rerouted job failed alternative code message retry_after now k (ok (db, false)) = ok none
rerouted job failed alternative code message retry_after now k (ok (db, true)) = ok (
    some (record k {
      queue = db;
      releases = hold_release failed.id retry_after k.releases;
      intents = follow_intent failed.chapter_id job.id now k.intents;
      attempts =
          queued_attempt alternative job.id none
            ((txt "failed_release_id", Detail.number failed.id)
              ∷ (txt "failed_source", Detail.text failed.source)
              ∷ [])
            now
          ∷ failed_attempt failed alternative job.id code message retry_after now
          ∷ k.attempts;
    }))

-- `reroute`; `ok none` is the RuntimeError of a lease that was lost.
unfoldable pub reroute_chapter :
    WorkJob → Release → Release → Text → Text → Option ℕ → ℕ → Catalog → Result (Option Catalog)
reroute_chapter job failed alternative code message retry_after now k =
    elim (validate_download job.payload) [
      | none ↦ raise invalid_payload
      | some current ↦ rerouted job failed alternative code message retry_after now k (
          reroute k.queue job.id job.lease_owner (rerouting current failed alternative code now)
            now)
    ]

-- A chapter of the source that waits.
abbrev pub is_waiting_download : Text → WorkJob → Bool
is_waiting_download source j =
    j.kind == chapter_download && j.source == source && is_waiting j.status

abbrev pub release_id_of : WorkJob → ℕ
release_id_of j = elim (download_of j.payload.body) [ none ↦ 0 | some p ↦ p.chapter_release_id ]

abbrev pub wait_out : ℕ → WorkJob → WorkJob
wait_out retry_after j = record j { status = JobState.retry_wait; available_at = retry_after }

-- `tuple(sorted(set(attempted) | {source}))`
unfoldable pub sorted_set : List Text → List Text
sorted_set [] = []
sorted_set (x ∷ xs) = insert_pool x (sorted_set xs)

-- The job waits until the provider is back.
abbrev pub wait_for_source : Text → ℕ → WorkJob → Release → Catalog → Catalog
wait_for_source source retry_after job failed k = record k {
  queue =
      update_jobs (λ j. is_waiting_download source j && j.id == job.id) (wait_out retry_after)
        k.queue;
  releases = hold_release failed.id (some retry_after) k.releases;
}

abbrev pub bypassing : Text → List Text → Release → ℕ → Reroute
bypassing source attempted alternative now = record {
  payload = download_to alternative.id attempted false;
  source = alternative.source;
  available_at = now;
  message = txt "bypassed while " ++ source ++ txt " is cooling down";
  details = attempted_details attempted;
}

abbrev pub bypassed :
    Text → ℕ → ℕ → WorkJob → Release → Release → Catalog → Result (Db × Bool) → Result (Catalog × ℕ)
bypassed source retry_after now job failed alternative k (raise e) = raise e
bypassed source retry_after now job failed alternative k (ok (db, moved)) = ok (
  record k {
    queue = db;
    intents = follow_intent failed.chapter_id job.id now k.intents;
    attempts =
        queued_attempt alternative job.id (some retry_after)
          ((txt "bypassed_source", Detail.text source)
            ∷ (txt "bypassed_release_id", Detail.number failed.id)
            ∷ [])
          now
        ∷ k.attempts;
  },
  1,
)

-- One job of the loop, and whether it was rerouted.
unfoldable pub bypass_job : Text → ℕ → ℕ → WorkJob → Catalog → Result (Catalog × ℕ)
bypass_job source retry_after now job k = elim (find (λ r. r.id == release_id_of job) k.releases) [
  | none ↦ ok (k, 0)
  | some failed ↦ elim (validate_download job.payload) [
    | none ↦ raise invalid_payload
    | some p ↦
        if p.preferred_only
        then ok (wait_for_source source retry_after job failed k, 0)
        else (let attempted = sorted_set (p.attempted_sources ++ source ∷ []) in
            elim (fallback_release k.releases failed.chapter_id failed.id attempted now) [
              | none ↦ ok (wait_for_source source retry_after job failed k, 0)
              | some alternative ↦
                  bypassed source retry_after now job failed alternative k (
                    reroute_waiting k.queue job.id (bypassing source attempted alternative now) now)
            ])
  ]
]

unfoldable pub bypass_all : Text → ℕ → ℕ → List WorkJob → Catalog → Result (Catalog × ℕ)
bypass_all source retry_after now [] k = ok (k, 0)
bypass_all source retry_after now (j ∷ js) k = bypass_job source retry_after now j k >>= λ (d, n).
    bypass_all source retry_after now js d >>= λ (d', m). ok (d', n + m)

unfoldable pub bypass_cooling_source : Text → ℕ → ℕ → Catalog → Result (Catalog × ℕ)
bypass_cooling_source source retry_after now k =
    bypass_all source retry_after now (keep (is_waiting_download source) k.queue.jobs) k
