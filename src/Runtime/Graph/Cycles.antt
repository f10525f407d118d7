-- ===== src/Runtime/Graph/Cycles.antt =====
-- The search for a cycle in graph.py ends, and finds a dependency path exactly when there is one.
pub mod Paths
mod Scanning
pub mod Search
pub mod Linking
