-- ===== src/Convert.antt =====
-- The converters from the tools' JSON to the canonical FIB.
pub mod Labels
pub mod Scope
pub mod Hammerhead
pub mod Frr
pub mod Eos
pub mod Bgp
pub mod Flatten
