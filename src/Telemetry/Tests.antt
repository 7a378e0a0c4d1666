-- ===== src/Telemetry/Tests.antt =====
-- Runs of the telemetry.
use manga_manager.Prelude.{
  ◌≡◌, ◌-◌, ◌++◌, refl, [], ◌∷◌, none, some, txt, arith, List, length, take, keep, map, Text,
  list_beq, contains, find, update_where, strip, ℕ,
}
use manga_manager.Queue.Routing.{decimal_text, digits}
use manga_manager.Telemetry.Rows.{Telemetry, BenchmarkRun, limited}
use manga_manager.Telemetry.Samples.{Sample, record_all, record_sample, record_samples, active_run}
use manga_manager.Telemetry.Trials.{
  Baseline, base_policy, new_run, begin, ensure_policy, poll_cadence_metadata,
}
use manga_manager.Telemetry.Learning.{learn, max_retry, finish_run, finalize_due, finalize_all}
use manga_manager.Telemetry.Buffer.{new_buffer, drop, drain, flush}
use manga_manager.Telemetry.Activities.{Activity, perform, perform_all}
use manga_manager.Telemetry.Counters.{IsSound}
use manga_manager.Telemetry.Deletion.{deleted_in}
use manga_manager.Telemetry.Samples.{cleanup_samples}
use manga_manager.Telemetry.Drain.{observe_all, observe_all-latest, drain_ends}
use manga_manager.Telemetry.Limits.{Adapts, learn-Adapts, perform_all-IsSound}

abbrev no_telemetry : Telemetry
no_telemetry = record { runs = []; samples = []; policies = []; next_run_id = 1 }

abbrev sample_of : Text → ℕ → Sample
sample_of source status = record {
  source = source;
  host = txt "example.org";
  status_code = status;
  latency_ms = 20;
  byte_count = 100;
  error_code = [];
  retry_after_seconds = none;
}

abbrev baseline : Baseline
baseline = record {
  source = txt "mangadex";
  job_limit = 1;
  page_limit = 1;
  cooldown_seconds = 300;
  request_interval = 1000000;
  poll_interval_seconds = 600;
}

abbrev trial_activities : List Activity
trial_activities =
    Activity.ensure baseline 0
    ∷ Activity.begin (txt "mangadex") 3 10
    ∷ Activity.record_samples
        (sample_of (txt "mangadex") 200
          ∷ sample_of (txt "mangadex") 429
          ∷ sample_of (txt "other") 200
          ∷ [])
        20
    ∷ Activity.finalize 30
    ∷ Activity.cleanup 7 700000000000
    ∷ []

learned_from_limit :
    map (λ p. p.learned_job_limit) (perform_all no_telemetry trial_activities).policies ≡ 2 ∷ []
unfolding cleanup_samples perform_all perform begin ensure_policy poll_cadence_metadata
    record_samples record_all record_sample active_run keep contains finalize_due finalize_all
    finish_run learn find update_where strip decimal_text digits list_beq
learned_from_limit = refl

perform_all-IsSound_example :
    IsSound
      (deleted_in no_telemetry trial_activities [])
      (perform_all no_telemetry trial_activities)
perform_all-IsSound_example =
    perform_all-IsSound no_telemetry trial_activities
      ((omega arith, omega arith), (tt, (tt, (tt, (tt, tt)))))
      (record { counted = tt; run_ids = tt; sample_runs = tt; limits = tt })

abbrev tried : BenchmarkRun
tried = new_run 1 (txt "asura") 3 2 0

learn-Adapts_example : Adapts limited tried (base_policy baseline 0) (
    learn limited tried
      (max_retry tried.id [] (base_policy baseline 0).cooldown_seconds)
      5
      (base_policy baseline 0))
learn-Adapts_example = learn-Adapts limited tried [] 5 (base_policy baseline 0)

abbrev buffered : List Sample
buffered = sample_of (txt "asura") 200 ∷ sample_of (txt "mangadex") 200 ∷ []

drain_ends_example :
    drain 3 (record (new_buffer 10 1) { samples = buffered }) no_telemetry 9
    ≡ some (record (new_buffer 10 1) { samples = [] }, record_all 9 buffered no_telemetry)
unfolding contains list_beq
drain_ends_example =
    drain_ends 3 (record (new_buffer 10 1) { samples = buffered }) no_telemetry 9 (refl, (refl, tt))
      (omega arith) (omega arith)

observe_all-latest_example :
    (observe_all buffered (new_buffer 1 1)).samples
    ≡ drop (length ([] ++ buffered) - (new_buffer 1 1).max_samples) ([] ++ buffered)
observe_all-latest_example = observe_all-latest buffered (new_buffer 1 1) (omega arith)

-- A batch without a sample of a known provider ends the loop, with samples left in the buffer.
drain_stops_early :
    drain 3
      (record (new_buffer 10 1) {
        samples = sample_of (txt "other") 200 ∷ sample_of (txt "asura") 200 ∷ [];
      })
      no_telemetry
      9
    ≡ some (record (new_buffer 10 1) { samples = sample_of (txt "asura") 200 ∷ [] }, no_telemetry)
unfolding drain flush record_samples keep contains take record_all list_beq
drain_stops_early = refl
