-- ===== src/Samples.antt =====
-- Concrete inputs at which the theorems are applied, and the scripted collaborators they need.
mod Sandboxed
mod Patterns
mod Trusted
mod Overlays
mod Launched
mod Numbers
mod Scripted
mod Facts
mod Runs
mod Values
mod Stored
mod Repeated
