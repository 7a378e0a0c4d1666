-- ===== src/Requests.antt =====
-- manga_manager/infrastructure/provider_scheduler.py: when a request to a provider may start.
pub mod Reserve
mod Slots
mod Spacing
mod Cooldown
mod Tests
