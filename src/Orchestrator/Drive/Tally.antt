-- ===== src/Orchestrator/Drive/Tally.antt =====
-- The summary of a run adds up.
use jitgen.Core.Model.{Mode, Strategy}
use jitgen.Orchestrator.Drive.{assemble_report, gather, total}
use jitgen.Orchestrator.Process.{RankedTarget, TargetOutcome}
use jitgen.Orchestrator.Process.Steps.{disposed}
use jitgen.Prelude.{All, List, [], arith, length, length-append, refl, ◌+◌, ◌∷◌, ◌≡◌}
use jitgen.Prelude.Str.{Text}

tally :
    {F : Type 0} (os : List (TargetOutcome F))
    → All (λ o. disposed o ≡ o.candidates_generated) os
    → length (gather (λ o. o.accepted_list) os)
        + length (gather (λ o. o.catches_list) os)
        + length (gather (λ o. o.rejected_list) os)
      ≡ total os
unfolding gather total
tally [] a = omega arith
tally (o ∷ os) a = omega (
  arith,
  a.0,
  tally os a.1,
  length-append {0} o.accepted_list (gather (λ x. x.accepted_list) os),
  length-append {0} o.catches_list (gather (λ x. x.catches_list) os),
  length-append {0} o.rejected_list (gather (λ x. x.rejected_list) os),
)

-- If the lists of each target's outcome have as many members together as candidates were
-- generated for it, then the report's counts of accepted tests, catches and rejected candidates
-- add up to its count of generated candidates, and each is the length of its list.
pub assemble_report_lem :
    {F : Type 0} (jitgen_version run_id repo base_oid head_oid : Text) (mode : Mode)
    (strategy : Strategy) (ranked : List (RankedTarget F)) (outcomes : List (TargetOutcome F))
    (warnings : List Text)
    → All (λ o. disposed o ≡ o.candidates_generated) outcomes
    → let r =
        assemble_report jitgen_version run_id repo base_oid head_oid mode strategy ranked outcomes
          warnings in
      (r.summary.accepted_count + r.summary.catches_count + r.summary.rejected_count
        ≡ r.summary.candidates_generated)
      × (r.summary.accepted_count ≡ length r.accepted_list)
      × (r.summary.catches_count ≡ length r.catches_list)
      × (r.summary.rejected_count ≡ length r.rejected_list)
unfolding assemble_report
assemble_report_lem jitgen_version run_id repo base_oid head_oid mode strategy ranked outcomes
      warnings a =
    (tally outcomes a, refl, refl, refl)
