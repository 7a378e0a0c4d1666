-- ===== src/Plans.antt =====
-- manga_manager/application/download_plans.py: which chapters of the tracked series are downloaded, and
-- in which order.
pub mod Rows
pub mod Choice
pub mod Chapters
pub mod Ready
pub mod Reconcile
pub mod Detours
pub mod Tracking
mod Opened
mod Opening
pub mod Sweeps
mod Histories
mod Attempted
mod Bypass
mod Leaving
mod Preference
mod Best
mod Coverage
mod Window
mod Settled
mod Endings
mod Untracking
mod Tests
mod DetourTests
