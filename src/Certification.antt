-- ===== src/Certification.antt =====
-- packages/certification: the final alignment with the intent, and the gate of the merge.
pub mod Alignment
pub mod Rows
pub mod MergeGate
pub mod Explained
mod Samples
