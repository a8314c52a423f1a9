-- ===== src/Context.antt =====
-- crates/jitgen-context: what of the repository a prompt may hold.
pub mod Packager
