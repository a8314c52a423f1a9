-- ===== src/Orchestrator.antt =====
-- crates/jitgen-orchestrator: processing of targets, the run, and the findings gate.
pub mod Checkout
pub mod Patch
pub mod Config
pub mod Gate
pub mod Process
pub mod Select
pub mod Drive
