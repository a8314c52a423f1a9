-- ===== src/Cli.antt =====
-- crates/jitgen-cli: the command line.
pub mod Run
pub mod Explained
pub mod Exits
pub mod ReportOnly
