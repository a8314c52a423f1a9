-- ===== src/State.antt =====
-- crates/jitgen-state: the durable state of a run, by which an interrupted run is resumed.
pub mod Model
pub mod Store
