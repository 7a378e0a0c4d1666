-- ===== src/Queue/Fixtures.antt =====
-- Concrete rows, requests and histories for the runs of the queue's operations.
use manga_manager.Prelude.{
  false, [], ◌∷◌, none, txt, take, keep, find, any, update_where, contains, count_if, list_beq,
  strip, starts_with, remove_prefix, dedupe, List, text_eq,
}
use manga_manager.Domain.Decimals.{text_gt}
use manga_manager.Domain.Jobs.{Body, chapter_download, parse_job_payload, payload_beq}
use manga_manager.Queue.Rows.{WorkJob, Db}
use manga_manager.Queue.Coalesce.{EnqueueRequest}
use manga_manager.Queue.Operations.{Call, step, run}
use manga_manager.Queue.Claim.{ClaimRequest, try_candidate}
use manga_manager.Queue.Store.{
  release_permits, record_event, notify_workers, add_units, record_terminal_units,
}
use manga_manager.Queue.Leases.{extend_children, heartbeat, finish, succeed, fail}
use manga_manager.Queue.Routing.{
  default_pool, is_network_job, digits, decimal_text, cycle_prefix, kept_up_group,
  default_group_key,
}
use manga_manager.Queue.Progress.{announces, progress}
use manga_manager.Queue.Returns.{
  retry, release, defer, cancel, fail_expired_job, fail_all, fail_exhausted_leases,
}
use manga_manager.Queue.Waiting.{
  reroute, reroute_waiting, is_outage_deferred, announce_all, resume_recovered_provider, retry_now,
}
use manga_manager.Queue.Limits.{
  limit_of, active_permits, permit_pool_full, saturated_direct_pools, policy_limit,
  effective_provider_limit, saturated_provider_sources,
}
use manga_manager.Queue.Permits.{
  lex_lt, insert_pool, sort_pools, permit_pools, series_conflict, pool_limit, any_full, new_permits,
  acquire_permits,
}
use manga_manager.Queue.Eligible.{
  source_blocked, series_leased, series_free, passes_filter, is_claimable, scheduling_tier,
  fairness_load, rank, first_by, select_candidate,
}
use manga_manager.Queue.Claim.{survey, claim_loop, grant, claim, repair_clash}
use manga_manager.Queue.Coalesce.{should_coalesce, merged_series, merge_payload, coalesce_into}
use manga_manager.Queue.Enqueue.{
  active_job, new_cycle, open_cycle, active_cycle, new_job, fold_in, insert_job, enqueue,
  moved_table, place,
}

-- All that a run computes with.
unfoldable pub program : Unit {0}
unfolding take keep find any update_where contains count_if list_beq strip starts_with remove_prefix
    dedupe parse_job_payload payload_beq text_gt release_permits record_event notify_workers
    add_units record_terminal_units extend_children heartbeat finish succeed fail default_pool
    is_network_job digits decimal_text cycle_prefix kept_up_group default_group_key retry release
    defer cancel fail_expired_job fail_all fail_exhausted_leases reroute reroute_waiting
    is_outage_deferred announce_all resume_recovered_provider retry_now limit_of active_permits
    permit_pool_full saturated_direct_pools policy_limit effective_provider_limit
    saturated_provider_sources lex_lt insert_pool sort_pools permit_pools series_conflict pool_limit
    any_full new_permits acquire_permits source_blocked series_leased series_free passes_filter
    is_claimable scheduling_tier fairness_load rank first_by select_candidate survey try_candidate
    claim_loop grant repair_clash claim should_coalesce merged_series merge_payload coalesce_into
    active_job new_cycle open_cycle active_cycle new_job moved_table fold_in insert_job place
    enqueue announces progress step run
program = tt

abbrev pub empty_db : Db
empty_db = record {
  jobs = [];
  permits = [];
  reservations = [];
  storage = none;
  events = [];
  cycles = [];
  policies = [];
  sources = [];
  notified = [];
  next_job_id = 1;
  next_cycle_id = 1;
}

abbrev pub download_request : EnqueueRequest
download_request = record {
  kind = chapter_download;
  dedupe_key = txt "chapter:7";
  payload = record {
    version = 1;
    body =
        Body.chapter_download
          (record { chapter_release_id = 7; attempted_sources = []; preferred_only = false });
  };
  priority = 100;
  max_attempts = 3;
  available_at = none;
  source = txt "asura";
  series_key = txt "s1";
  pool = [];
  workflow_key = [];
  group_key = [];
  logical_units = 1;
  coalesce = false;
}

abbrev pub claim_request : ClaimRequest
claim_request = record {
  owner = txt "worker-1";
  lease_for = 60;
  now = 2000;
  kinds = none;
  limits = (txt "network_global", 2) ∷ (txt "download:asura", 1) ∷ [];
  pacing_window = 2000000;
  pools = none;
}

abbrev pub until_leased : List Call
until_leased = Call.enqueue download_request 1000 ∷ Call.claim claim_request ∷ []

abbrev pub until_finished : List Call
until_finished = Call.succeed 1 (txt "worker-1") 2030 ∷ []

unfoldable pub leased_job : Db
unfolding program
leased_job = run empty_db until_leased

unfoldable pub finished_job : Db
unfolding leased_job
finished_job = run leased_job until_finished

unfoldable pub blank_job : WorkJob
unfolding program
blank_job = new_job download_request download_request.payload (txt "x") [] (txt "maintenance") 0 0 0

unfoldable pub first_row : Db → WorkJob
unfolding blank_job
first_row db = elim db.jobs [ [] ↦ blank_job | j ∷ js ↦ j ]
