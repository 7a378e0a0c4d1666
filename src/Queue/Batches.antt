-- ===== src/Queue/Batches.antt =====
-- A run of Kavita batches: the units of a batch that grows while it is leased.
use manga_manager.Prelude.{◌≡◌, refl, [], ◌∷◌, txt, length, map, List, text_eq, true, Text, ℕ}
use manga_manager.Domain.Jobs.{Body, succeeded, kavita_sync, unset}
use manga_manager.Queue.Rows.{Db}
use manga_manager.Queue.Coalesce.{EnqueueRequest}
use manga_manager.Queue.Operations.{Call, run}
use manga_manager.Queue.Coalesce.{apply_merge}
use manga_manager.Prelude.{ℕ_discrete}
use mathlib.Core.Bool.{decide}
use manga_manager.Queue.Claim.{ClaimRequest}
use manga_manager.Queue.Fixtures.{empty_db, download_request, claim_request, program}

abbrev pub kavita_request : List ℕ → EnqueueRequest
kavita_request series_ids = record download_request {
  kind = kavita_sync;
  dedupe_key = txt "kavita";
  payload = record {
    version = 1;
    body = Body.kavita_sync (record {
      series_id = 1;
      series_ids = series_ids;
      folder_path = [];
      reading_status = unset;
    });
  };
  logical_units = length series_ids;
  coalesce = true;
}

abbrev pub kavita_claim : Text → ℕ → ClaimRequest
kavita_claim owner now = record claim_request { owner = owner; now = now }

-- A batch of three series, one more while it is leased, one more after it is put back.
abbrev kavita_calls : List Call
kavita_calls =
    Call.enqueue (kavita_request (1 ∷ 2 ∷ 3 ∷ [])) 1000
    ∷ Call.claim (kavita_claim (txt "worker-1") 2000)
    ∷ Call.enqueue (kavita_request (4 ∷ [])) 2010
    ∷ Call.succeed 1 (txt "worker-1") 2020
    ∷ Call.enqueue (kavita_request (5 ∷ [])) 2030
    ∷ Call.claim (kavita_claim (txt "worker-1") 3000)
    ∷ Call.succeed 1 (txt "worker-1") 3010
    ∷ []

kavita_done : Db
unfolding program
kavita_done = run empty_db kavita_calls

kavita_states : map (λ j. j.status) kavita_done.jobs ≡ succeeded ∷ []
unfolding kavita_done apply_merge decide ℕ_discrete
kavita_states = refl

kavita_units :
    (map (λ c. c.total_units) kavita_done.cycles ≡ 4 ∷ [])
    × (map (λ c. c.successful_units) kavita_done.cycles ≡ 2 ∷ [])
unfolding kavita_done apply_merge decide ℕ_discrete
kavita_units = (refl, refl)
