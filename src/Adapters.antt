-- ===== src/Adapters.antt =====
-- crates/jitgen-adapters: the glob patterns of a repository's configuration, and the registry.
pub mod Glob
