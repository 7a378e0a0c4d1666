-- ===== src/Queue/Tests.antt =====
-- Runs of the queue's operations.
use manga_manager.Prelude.{
  ◌≡◌, refl, false, [], ◌∷◌, none, txt, count_if, length, map, In, List, inl, arith, ne_of_beq,
  text_eq, some, ◌≤◌, ◌⊎◌,
}
use manga_manager.Domain.Jobs.{Body, chapter_download, succeeded, library_repair}
use manga_manager.Queue.Rows.{WorkJob, Db, ProviderPolicy, no_tier}
use manga_manager.Queue.Store.{ok, live_lease, after}
use manga_manager.Queue.Coalesce.{EnqueueRequest}
use manga_manager.Queue.Operations.{Call, run}
use manga_manager.Queue.WellFormed.{IsWellFormed, run-IsWellFormed}
use manga_manager.Queue.Absorption.{run-absorbed}
use manga_manager.Queue.Calm.{IsExclusive}
use manga_manager.Queue.Histories.{run-IsExclusive, last_time}
use manga_manager.Queue.Quota.{claim-within_limit}
use manga_manager.Queue.Ordering.{downloads_first}
use manga_manager.Queue.Selection.{IsEligible, Precedes, select_candidate-first}
use manga_manager.Queue.Claim.{filter_of, repooled}
use manga_manager.Queue.Placement.{Answer, enqueue-Placed}
use manga_manager.Queue.Cleanup.{IsFree, end-IsFree}
use manga_manager.Queue.Start.{lease_for, claim-first}
use manga_manager.Queue.Policies.{Lowers, policy_limit-Lowers}
use manga_manager.Queue.Fencing.{stale_owner}
use manga_manager.Queue.Leases.{heartbeat, succeed, fail}
use manga_manager.Queue.Returns.{retry, release, defer, cancel}
use manga_manager.Queue.Limits.{active_permits, policy_limit}
use manga_manager.Queue.Eligible.{select_candidate, ClaimFilter}
use manga_manager.Queue.Claim.{survey, claim}
use manga_manager.Queue.Fixtures.{
  empty_db, download_request, claim_request, until_leased, until_finished, program, leased_job,
  finished_job, first_row,
}

lease_takes_permits : length leased_job.permits ≡ 2
unfolding leased_job
lease_takes_permits = refl

success_ends : map (λ j. j.status) finished_job.jobs ≡ succeeded ∷ []
unfolding finished_job
success_ends = refl

pub empty_db-IsWellFormed : IsWellFormed empty_db
empty_db-IsWellFormed = record { ids = tt; rows = tt; keys = tt }

run-IsWellFormed_example : IsWellFormed (run empty_db until_leased)
run-IsWellFormed_example = run-IsWellFormed empty_db until_leased empty_db-IsWellFormed

pub leased_job-IsWellFormed : IsWellFormed leased_job
unfolding leased_job
leased_job-IsWellFormed = run-IsWellFormed empty_db until_leased empty_db-IsWellFormed

finished_job-IsWellFormed : IsWellFormed finished_job
unfolding finished_job
finished_job-IsWellFormed = run-IsWellFormed leased_job until_finished leased_job-IsWellFormed

run-absorbed_example : In (first_row finished_job) (run finished_job until_leased).jobs
unfolding finished_job first_row
run-absorbed_example =
    run-absorbed finished_job until_leased (first_row finished_job) finished_job-IsWellFormed
      (inl refl) refl

stale_owner_example :
    (heartbeat leased_job (first_row leased_job).id (txt "worker-2") 60 2010
      ≡ ok (leased_job, false))
    × (succeed leased_job (first_row leased_job).id (txt "worker-2") 2010 ≡ (leased_job, false))
    × (fail leased_job (first_row leased_job).id (txt "worker-2") [] [] 2010 ≡ (leased_job, false))
    × (retry leased_job (first_row leased_job).id (txt "worker-2") 3000 [] [] 2010
        ≡ (leased_job, none))
unfolding leased_job first_row
stale_owner_example =
    stale_owner leased_job (first_row leased_job) (txt "worker-2") 2010 60 3000 [] []
      leased_job-IsWellFormed (inl refl) (inl (ne_of_beq _ _ refl)) (omega arith)

queued_job : Db
unfolding program
queued_job = run empty_db (Call.enqueue download_request 1000 ∷ [])

queued_job-IsWellFormed : IsWellFormed queued_job
unfolding queued_job
queued_job-IsWellFormed =
    run-IsWellFormed empty_db (Call.enqueue download_request 1000 ∷ []) empty_db-IsWellFormed

claim-within_limit_example :
    active_permits (after queued_job (claim queued_job claim_request)) 2000 (txt "network_global")
    ≤ 2
unfolding queued_job
claim-within_limit_example =
    claim-within_limit queued_job claim_request (txt "network_global") 2 queued_job-IsWellFormed
      refl refl

first_filter : ClaimFilter
unfolding queued_job
first_filter = filter_of claim_request (survey claim_request queued_job [] [])

downloads_first_example :
    (c : WorkJob) × (select_candidate queued_job 2000 first_filter ≡ some c)
    × (c.kind ≡ chapter_download)
unfolding queued_job first_row first_filter
downloads_first_example =
    downloads_first queued_job 2000 first_filter (first_row queued_job) (inl refl) refl refl

repair_request : EnqueueRequest
repair_request = record download_request {
  kind = library_repair;
  dedupe_key = txt "repair:s1";
  payload = record {
    version = 1;
    body =
        Body.library_repair
          (record { series_id = 1; reason = txt "missing"; obsolete_storage_keys = [] });
  };
}

abbrev contended : List Call
contended =
    Call.enqueue download_request 1000
    ∷ Call.enqueue repair_request 1000
    ∷ Call.claim claim_request
    ∷ Call.claim (record claim_request { owner = txt "worker-2" })
    ∷ []

one_leased : count_if (live_lease 2000) (run empty_db contended).jobs ≡ 1
unfolding program repair_request
one_leased = refl

run-IsExclusive_example : IsExclusive (last_time 0 contended) (run empty_db contended).jobs
run-IsExclusive_example =
    run-IsExclusive empty_db 0 contended empty_db-IsWellFormed (λ i j m. elim m [ ])
      (omega arith, (omega arith, (omega arith, (omega arith, tt))))

select_candidate-first_example :
    ((select_candidate queued_job 2000 first_filter ≡ none)
      × ((k : WorkJob) → In k queued_job.jobs → ¬ IsEligible queued_job 2000 first_filter k))
    ⊎ ((c : WorkJob) × (select_candidate queued_job 2000 first_filter ≡ some c)
        × In c queued_job.jobs
        × IsEligible queued_job 2000 first_filter c
        × ((k : WorkJob)
            → In k queued_job.jobs
            → IsEligible queued_job 2000 first_filter k
            → ¬ Precedes queued_job 2000 k c))
select_candidate-first_example = select_candidate-first queued_job 2000 first_filter

enqueue-Placed_example : Answer queued_job download_request 1500
enqueue-Placed_example = enqueue-Placed queued_job download_request 1500 queued_job-IsWellFormed

end-IsFree_example :
    ((succeed leased_job 1 (txt "worker-1") 2010 ≡ (leased_job, false))
      ⊎ IsFree 1 (succeed leased_job 1 (txt "worker-1") 2010).0)
    × ((fail leased_job 1 (txt "worker-1") [] [] 2010 ≡ (leased_job, false))
        ⊎ IsFree 1 (fail leased_job 1 (txt "worker-1") [] [] 2010).0)
    × ((retry leased_job 1 (txt "worker-1") 3000 [] [] 2010 ≡ (leased_job, none))
        ⊎ IsFree 1 (retry leased_job 1 (txt "worker-1") 3000 [] [] 2010).0)
    × ((release leased_job 1 (txt "worker-1") [] 2010 ≡ (leased_job, false))
        ⊎ IsFree 1 (release leased_job 1 (txt "worker-1") [] 2010).0)
    × ((defer leased_job 1 (txt "worker-1") 3000 [] [] 2010 ≡ (leased_job, false))
        ⊎ IsFree 1 (defer leased_job 1 (txt "worker-1") 3000 [] [] 2010).0)
    × ((cancel leased_job 1 [] 2010 ≡ (leased_job, false))
        ⊎ IsFree 1 (cancel leased_job 1 [] 2010).0)
end-IsFree_example =
    end-IsFree leased_job 1 (txt "worker-1") 3000 2010 [] [] leased_job-IsWellFormed

claim-first_example :
    (d : Db) × (claim queued_job claim_request
      ≡ ok (
        d,
        some (lease_for claim_request (repooled (first_row queued_job)) download_request.payload),
      ))
unfolding queued_job first_row
claim-first_example =
    claim-first queued_job claim_request (first_row queued_job) download_request.payload
      queued_job-IsWellFormed refl (omega arith) refl refl refl refl

learned_policy : ProviderPolicy
learned_policy = record {
  source = txt "asura";
  learned_job_limit = 2;
  request_interval = 500000;
  cooldown_seconds = 300;
  clean_since = none;
  last_limited_at = some 1000;
  expires_at = none;
  exploration = record { until = none; tier = no_tier };
}

learned_limit : policy_limit 2000000 2000 learned_policy (some 4) ≡ some 2
unfolding learned_policy program
learned_limit = refl

policy_limit-Lowers_example : Lowers 4 (policy_limit 2000000 2000 learned_policy (some 4))
unfolding learned_policy
policy_limit-Lowers_example = policy_limit-Lowers 2000000 2000 4 learned_policy refl
