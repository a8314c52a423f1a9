-- ===== src/Intake.antt =====
-- crates/jitgen-gitintake: which paths are read, and reading them from the tree of a revision.
pub mod Filter
pub mod Blob
pub mod Diff
