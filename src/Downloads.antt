-- ===== src/Downloads.antt =====
-- manga_manager/application/download_activity.py: whether downloads are active, for the work that gives
-- way to them.
pub mod Activity
mod Candidates
mod Tests
