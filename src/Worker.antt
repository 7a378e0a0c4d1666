-- ===== src/Worker.antt =====
-- manga_manager/worker/runtime.py and manga_manager/application/job_handlers.py: the workers that run
-- the leased jobs.
pub mod Handlers
pub mod Runtime
mod Traces
mod Ends
mod Verdict
mod Delays
mod Tests
