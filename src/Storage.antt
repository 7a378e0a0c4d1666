-- ===== src/Storage.antt =====
-- manga_manager/infrastructure/storage_capacity.py: space on the disk for downloads.
pub mod Capacity
mod Within
mod Tests
