-- ===== src/Sandbox/Pairing.antt =====
-- Sandbox runs on both revisions, read by the sandbox's classifier and paired by jitgen-core's.
use jitgen.Core.Classify.{from_catch, from_catch-weak_iff, weak_catch}
use jitgen.Core.Model.{CatchExecution}
use jitgen.Prelude.{some, sym, ◌↔◌, ◌∙◌, ◌≡◌}
use jitgen.Sandbox.Classify.{
  Disposition, FailureCode, RanToExit, classify, classify-failed_iff, classify-passed_iff,
}

-- The dispositions of the two processes are what a weak catch rests on.
abbrev pub ObservedPair : CatchExecution → Disposition → Disposition → Type 0
ObservedPair exec b h = (exec.base.outcome ≡ classify b) × (exec.head.outcome ≡ classify h)

-- For a pair whose outcomes are the classifications of two dispositions, the pair is a weak catch
-- exactly when the parent's process ran to exit code 0 and the change's process ran to an exit
-- code other than 0, 126 and 127, each with no timeout, signal, wrapper failure or build failure.
pub weak_catch-dispositions :
    (exec : CatchExecution) (b h : Disposition)
    → ObservedPair exec b h
    → (from_catch exec ≡ weak_catch)
      ↔ ((RanToExit b × (b.exit_code ≡ some 0)) × (RanToExit h × FailureCode h.exit_code))
weak_catch-dispositions exec b h (eb, eh) = (
  λ w.
      let (p, f) = (from_catch-weak_iff exec).0 w in
      ((classify-passed_iff b).0 (sym eb ∙ p), (classify-failed_iff h).0 (sym eh ∙ f)),
  λ (p, f).
      (from_catch-weak_iff exec).1
        (eb ∙ (classify-passed_iff b).1 p, eh ∙ (classify-failed_iff h).1 f),
)
