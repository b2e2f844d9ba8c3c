-- ===== src/Drivers.antt =====
-- harness/tools: the drivers of the two simulators.
pub mod Hammerhead
