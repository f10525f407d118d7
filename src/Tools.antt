-- ===== src/Tools.antt =====
-- packages/tools: the policy-controlled tool layer.
pub mod Tool
pub mod Policies
pub mod Human
pub mod Audit
pub mod Control
