-- ===== src/Feedback.antt =====
-- crates/jitgen-feedback: generation, repair, flake filter, minimization and assessment.
pub mod Host
pub mod Minimize
pub mod Flake
pub mod Prompts
pub mod Repair
pub mod Rules
pub mod Assess
pub mod Llmstep
pub mod Intent
pub mod Strategy
