-- ===== src/Materialize.antt =====
-- crates/jitgen-materialize: where generated tests are put.
pub mod Placement
