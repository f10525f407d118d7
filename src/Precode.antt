-- ===== src/Precode.antt =====
-- packages/precode: the semantic impact map, and the rows of the pre-coding objects.
pub mod Rows
pub mod Impact
pub mod Mapped
pub mod Locked
mod Samples
