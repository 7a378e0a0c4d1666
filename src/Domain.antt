-- ===== src/Domain.antt =====
-- manga_manager/domain: the job kinds, states and payloads, and the decimal text they compare.
pub mod Jobs
pub mod Decimals
