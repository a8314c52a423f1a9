-- ===== src/Llm.antt =====
-- crates/jitgen-llm: reading and screening what the model returns.
pub mod Prefix
pub mod Parse
pub mod Validate
