-- ===== src/Cache.antt =====
-- src/manager.rs: the state of `SequenceCache` and the calls through which its methods act on it.
-- The parts of the state machine are the child modules.
pub mod Records
pub mod Monad
pub mod Contained
pub mod Totals
pub mod Recount
pub mod Refresh
pub mod Pages
pub mod Sequences
pub mod Retire
pub mod Clock
pub mod Plan
pub mod Evict
pub mod Lookup
pub mod Segments
pub mod Reserve
pub mod Checks
pub mod Append
pub mod Partial
pub mod Commit
pub mod Abort
pub mod Admit
pub mod BranchPlan
pub mod Branch
pub mod Retain
pub mod Batch
pub mod New
pub mod Validate
pub mod Accounted
