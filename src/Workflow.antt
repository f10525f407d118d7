-- ===== src/Workflow.antt =====
-- packages/workflow: the chained events of a run, their replay, and the reliability operations.
pub mod Events
pub mod Replay
pub mod Replaying
pub mod Reliability
pub mod Chains
pub mod Resetting
pub mod Resuming
mod Samples
