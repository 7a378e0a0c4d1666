-- ===== src/Queue.antt =====
-- manga_manager/infrastructure/job_queue.py: the durable job queue.
pub mod Rows
pub mod Store
pub mod Leases
pub mod Routing
pub mod Returns
pub mod Progress
pub mod Waiting
pub mod Limits
pub mod Permits
pub mod Eligible
pub mod Claim
pub mod Coalesce
pub mod Enqueue
pub mod Frames
pub mod Validity
mod Candidates
mod PermitFrames
mod ClaimLoop
mod Changes
mod Evolution
mod ClaimChanges
mod EnqueueFrames
pub mod EnqueueChanges
pub mod Operations
mod Sequences
mod Steps
pub mod WellFormed
mod Absorption
mod PoolOrder
mod Quota
mod Calm
pub mod Exclusion
mod Histories
mod LifeCycle
mod Refinement
mod Stranding
mod Reports
mod Placement
pub mod Fencing
pub mod Cleanup
mod Start
mod Openness
mod Selection
mod Policies
pub mod Ordering
pub mod Fixtures
pub mod Tests
mod Batches
mod LifeTests
