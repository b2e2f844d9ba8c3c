-- ===== src/Adapters.antt =====
-- harness/adapters: waiting for a router to converge.
pub mod Convergence
pub mod Sessions
