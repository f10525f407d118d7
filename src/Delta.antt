-- ===== src/Delta.antt =====
-- packages/delta: behavioral deltas, intent alignment and the certification-readiness decision.
pub mod Deltas
pub mod Intent
pub mod Decision
pub mod Repair
pub mod RepairLoop
pub mod Pipeline
pub mod Unopposed
mod Samples
