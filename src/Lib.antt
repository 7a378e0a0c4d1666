-- ===== src/Lib.antt =====
-- Manga Manager: the durable job queue at the core of the service, the worker and the download
-- plans on top of it, the pacing and telemetry of requests to providers and the reservation of disk
-- space, modelled and verified.
--
-- The program polls manga providers, downloads chapters and synchronises a reader. All of its work
-- is rows of a job table, which worker processes claim, keep alive and finish through `JobQueue`
-- (manga_manager/infrastructure/job_queue.py). A provider scheduler paces their requests, and a
-- storage coordinator reserves the space of downloads.
--
-- Files. Prelude and its children hold tests, equality, lists, text and tables row by row.
-- Domain/Jobs models manga_manager/domain/jobs.py: kinds, states, payload classes with their field
-- constraints, `parse_job_payload`. Domain/Decimals models `decimal.Decimal` as far as
-- `_should_coalesce` compares versions. Queue/Rows holds the rows of
-- manga_manager/infrastructure/db_models.py that the queue uses, and `Db`, the tables together.
-- Queue/Store, Routing, Leases, Progress, Returns, Waiting, Limits, Permits, Eligible, Claim, Coalesce and
-- Enqueue hold the operations of `JobQueue`, a function for each method, under its name without a
-- leading underscore. Queue/Operations lists the calls and runs a history of them. The other files
-- below Queue hold proofs, with the abstract life of a job in Queue/LifeCycle, and Queue/Fixtures,
-- Tests, LifeTests and Batches the runs. Requests/Reserve models
-- `_reserve` of manga_manager/infrastructure/provider_scheduler.py, with proofs and runs beside it,
-- and Storage/Capacity the coordinator of manga_manager/infrastructure/storage_capacity.py, with
-- the free space that the disk reports as an argument. Worker/Runtime models `JobWorker` of
-- manga_manager/worker/runtime.py on top of the queue: how the handler of a job ends is an argument
-- of a turn (Worker/Handlers, after manga_manager/application/job_handlers.py), and so is what is
-- called while it runs. Worker/Traces, Ends, Verdict, Delays and Tests hold the proofs and runs.
-- Telemetry models manga_manager/infrastructure/provider_telemetry.py: Rows the tables, Samples the
-- recording of requests, Trials the policies and the runs that try a higher limit, Learning
-- `finish` and `finalize_due`, Buffer the bounded buffer of a worker, Activities a history of
-- calls; Counters, Deletion, Limits, Drain and Tests hold the proofs and runs. Plans models
-- manga_manager/application/download_plans.py on top of the queue: Rows the tables, Choice the
-- release of a chapter, Chapters `_sync_chapters`, Ready `_enqueue_ready`, Reconcile `reconcile`
-- and `untrack`, Detours `reroute` and `bypass_cooling_source`, Tracking `track` and the upgrades,
-- Sweeps the rest and a history of calls; Preference, Best, Coverage, Window, Settled, Endings,
-- Untracking, Opened, Opening, Attempted, Bypass, Leaving and Histories hold the proofs, Tests and
-- DetourTests the runs.
-- Downloads models manga_manager/application/download_activity.py, with a proof against the claims
-- of the queue. The rolling window of a plan is an argument, 20 by default in the source. Intents
-- stand in the order of their ids, so the order by tier and id is that of one tier after the other.
--
-- State and time. An operation takes the database and returns it changed; an exception rolls back
-- (`after`). Calls are transactions that run one after another, so advisory locks, `SKIP LOCKED`
-- and the `IntegrityError` branch of a concurrent insert have no counterpart; the one that the index
-- on leased repairs raises in a claim has. An operation reads
-- the clock once, as its argument `now`, in microseconds. A `where` on a primary key selects one
-- row at most, so an operation that changes the row it selected is an update under the same
-- `where`. Rows stand newest first. Priorities and units are natural numbers. `claim` looks at 50
-- candidates, as the source does.
--
-- Not modelled: the daily retention of jobs; the sleeping loop around `_reserve`; the tasks and
-- signals of the worker service; provider adapters, catalog, artifacts, web API and command line;
-- time zones; floating-point rounding of the pacing quotient and of retry delays, which are
-- quotients of microseconds here, and a rounding to milliseconds rounds halves up; the headers of a
-- sample and the text of a benchmark report. Decimal text is read over ASCII digits.
pub mod Prelude
pub mod Domain
pub mod Queue
pub mod Requests
pub mod Storage
pub mod Worker
pub mod Telemetry
pub mod Downloads
pub mod Plans
