-- ===== src/Jobs.antt =====
-- packages/asas-jobs
pub mod Model
pub mod Queue
pub mod Reclaim
pub mod Scheduler
pub mod Lifecycle
pub mod Steps
pub mod Invariant
pub mod Dedupe
pub mod Enqueuing
pub mod Fencing
pub mod Claims
pub mod Oldest
pub mod Attempts
pub mod Ticks
pub mod Runner
pub mod Pass
mod Examples
