-- ===== src/Tests.antt =====
-- Runs of the definitions on small inputs.
pub mod Diffs
pub mod Scores
mod Tables
mod Guards
mod Runs
mod Snapshots
mod Trials
mod Truth
mod Answers
