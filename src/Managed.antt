-- ===== src/Managed.antt =====
-- src/server/managed/: the queue of managed attempts.
pub mod Rows
pub mod Queries
pub mod Claims
pub mod Journal
pub mod Lifecycle
pub mod Tables
pub mod Steps
pub mod Sound
pub mod Evolution
pub mod Leases
pub mod Transitions
pub mod Refinement
pub mod Histories
pub mod Fencing
pub mod Budget
pub mod Outcomes
pub mod KeptRuns
pub mod FoundRuns
pub mod Repeating
pub mod Requests
pub mod Examples
mod Witnesses
