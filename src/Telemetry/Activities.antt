-- ===== src/Telemetry/Activities.antt =====
-- manga_manager/infrastructure/provider_telemetry.py: the calls that workers and the scheduler make,
-- and a history of them. A call that raises changes nothing but what it had committed.
use manga_manager.Prelude.{ℕ, Bool, List, [], ◌∷◌, Option, Text, some, none}
use manga_manager.Telemetry.Rows.{Telemetry}
use manga_manager.Telemetry.Samples
use manga_manager.Telemetry.Samples.{Sample}
use manga_manager.Telemetry.Trials
use manga_manager.Telemetry.Trials.{Baseline}
use manga_manager.Telemetry.Learning

pub data Activity : Type 0 where
  begin : (source : Text) (tier now : ℕ) → Activity
  record_samples : List Sample → (now : ℕ) → Activity
  observe : (run_id : ℕ) → Sample → (now : ℕ) → Activity
  ensure : Baseline → (now : ℕ) → Activity
  explore : (source : Text) (ceiling now : ℕ) → Activity
  finish : (run_id : ℕ) → Bool → (completed_jobs now : ℕ) → Activity
  finalize : (now : ℕ) → Activity
  cleanup : (days now : ℕ) → Activity

abbrev pub finished : Telemetry → Option (Telemetry × Text) → Telemetry
finished t none = t
finished t (some r) = r.0

unfoldable pub perform : Telemetry → Activity → Telemetry
perform t (Activity.begin source tier now) = (Trials.begin t source tier now).0
perform t (Activity.record_samples ss now) = (Samples.record_samples t ss now).0
perform t (Activity.observe run_id s now) = Samples.observe_run t run_id s now
perform t (Activity.ensure b now) = Trials.ensure_policy t b now
perform t (Activity.explore source ceiling now) =
    (Trials.start_due_exploration t source ceiling now).0
perform t (Activity.finish run_id limited completed_jobs now) =
    finished t (Learning.finish_run t run_id limited completed_jobs now)
perform t (Activity.finalize now) = (Learning.finalize_due t now).0
perform t (Activity.cleanup days now) = (Samples.cleanup_samples t days now).0

unfoldable pub perform_all : Telemetry → List Activity → Telemetry
perform_all t [] = t
perform_all t (a ∷ rest) = perform_all (perform t a) rest
