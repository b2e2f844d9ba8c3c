-- ===== src/Batfish.antt =====
-- harness/tools/batfish.py: the driver of Batfish.
pub mod Service
pub mod Transform
