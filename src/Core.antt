-- ===== src/Core.antt =====
-- crates/jitgen-core: the domain types and the observed classification of executions.
pub mod Model
pub mod Classify
pub mod Change
pub mod Config
