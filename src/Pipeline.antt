-- ===== src/Pipeline.antt =====
-- harness/pipeline.py: scoring one topology.
pub mod Loopback
pub mod Pairwise
pub mod SimOnly
pub mod Coverage
pub mod Sidecar
pub mod Run
pub mod Trials
pub mod Means
pub mod Timing
pub mod SimOnlyRun
pub mod Corpus
pub mod ThreeWay
pub mod TruthRun
