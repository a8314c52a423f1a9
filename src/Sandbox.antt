-- ===== src/Sandbox.antt =====
-- crates/jitgen-sandbox: the policy, the backends, the environment and command of a run, and how a
-- finished process is read.
pub mod Policy
pub mod Backend
pub mod Sbpl
pub mod DenyList
pub mod Env
pub mod Command
pub mod Plans
pub mod Os
pub mod Which
pub mod Capture
pub mod Run
pub mod User
pub mod Detect
pub mod Capstone
pub mod Classify
pub mod Pairing
