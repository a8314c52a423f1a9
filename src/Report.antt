-- ===== src/Report.antt =====
-- crates/jitgen-report: the report data and the escaping of untrusted text.
pub mod Escape
pub mod Model
