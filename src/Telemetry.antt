-- ===== src/Telemetry.antt =====
-- manga_manager/infrastructure/provider_telemetry.py: what the service learns from its requests.
pub mod Rows
pub mod Samples
pub mod Trials
pub mod Learning
pub mod Buffer
pub mod Activities
mod Counters
mod Deletion
mod Drain
mod Limits
mod Tests
