-- ===== src/Develop.antt =====
-- packages/develop: the bounds of the develop and repair loops, the handoff and the barrier before an
-- execution, the comparison of the candidates, and the execution trace.
pub mod Bounds
pub mod Barrier
pub mod Trace
pub mod Candidates
