-- ===== src/Orchestrator/Process/Outcome.antt =====
-- No candidate of a target is lost, and each is accepted, reported or rejected for a reason.
use jitgen.Feedback.Host.{Host}
use jitgen.Prelude.Float.{Float}
