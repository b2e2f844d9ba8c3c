-- ===== src/Diff.antt =====
-- harness/diff: the cell-by-cell comparison of three FIB sources, and its metrics.
pub mod Key
pub mod Engine
pub mod Metrics
