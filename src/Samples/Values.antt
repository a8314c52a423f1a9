-- ===== src/Samples/Values.antt =====
-- The theorems about values, at concrete ones.
use jitgen.Context.Packager.{build, new_builder}
use jitgen.Context.Packager.Budget.{InBudget, add_all, build-InBudget}
use jitgen.Core.Classify.{from_catch, strong_catch, very_high, weak_catch}
use jitgen.Core.Model.{
  ContextBudget, ContextItemKind, Redaction, catch, changed_code, intent_aware, signature,
}
use jitgen.Orchestrator.Gate.{gate_exit_code, is_failure}
use jitgen.Orchestrator.Gate.Verdict.{Gating, gate_exit_code-fails_iff}
use jitgen.Orchestrator.Process.{accepted_as}
use jitgen.Orchestrator.Process.Landing.{Landable, accept_landable_lem}
use jitgen.Prelude.{All, Any, List, Option, [], false, none, some, true, ℕ, ◌↔◌, ◌∷◌, ◌≡◌}
use jitgen.Prelude.Str.{Text, codes}
use jitgen.Report.Escape.{md_code_block, strip_controls}
use jitgen.Report.Escape.Controls.{Printable, strip_controls-Printable}
use jitgen.Report.Escape.Fences.{md_code_block-closed, no_fence}
use jitgen.Report.Model.{RunReport}
use jitgen.Samples.Facts.{candidate-lands, weak_pair-exits}
use jitgen.Samples.Numbers.{tenths}
use jitgen.Samples.Scripted.{candidate, ranked, weak_pair}
use jitgen.Sandbox.Classify.{Disposition, FailureCode, RanToExit}
use jitgen.Sandbox.Pairing.{weak_catch-dispositions}

abbrev strong_report : RunReport ℕ
strong_report = record {
  schema_version = 1;
  jitgen_version = codes "0.1.0";
  run_id = codes "run-1";
  repo = codes "/repo";
  base_revision = codes "b";
  head_revision = codes "h";
  mode = catch;
  strategy = intent_aware;
  summary = record {
    targets_selected = 1;
    candidates_generated = 1;
    accepted_count = 0;
    catches_count = 1;
    rejected_count = 0;
  };
  accepted_list = [];
  catches_list =
      record {
        target = codes "t1";
        language = codes "rust";
        path = codes "tests/a.rs";
        source = codes "x";
        observed_class = weak_catch;
        decision = strong_catch;
        tp_probability = 10;
        bucket = very_high;
        rationale = [];
        mutation = none;
        changed_path = none;
        changed_line = none;
        reproduction = [];
        evidence = none;
      }
      ∷ [];
  rejected_list = [];
  warnings = [];
}

gate_exit_code-fails_iff_example :
    (is_failure
        (gate_exit_code tenths strong_report 9 (record { entries = codes "t2" ∷ [] }) false true)
      ≡ true)
    ↔ ((true ≡ true)
        × (false ≡ false)
        × Any (Gating tenths 9 (record { entries = codes "t2" ∷ [] })) strong_report.catches_list)
gate_exit_code-fails_iff_example =
    gate_exit_code-fails_iff tenths 9 strong_report (record { entries = codes "t2" ∷ [] }) false
      true

accept_landable_lem_example :
    Landable
      (λ s. record { text = s; redacted = false })
      ranked
      candidate
      (accepted_as (λ s. record { text = s; redacted = false }) ranked candidate (codes "rust"))
accept_landable_lem_example =
    accept_landable_lem (λ s. record { text = s; redacted = false }) ranked candidate (codes "rust")
      (accepted_as (λ s. record { text = s; redacted = false }) ranked candidate (codes "rust"))
      candidate-lands

abbrev exited : ℕ → Disposition
exited n = record {
  exit_code = some n;
  signal = none;
  timed_out = false;
  build_failed = false;
  inner_never_started = false;
}

weak_catch-dispositions_example : (from_catch weak_pair ≡ weak_catch) ↔ (
    (RanToExit (exited 0) × ((exited 0).exit_code ≡ some 0))
    × (RanToExit (exited 1) × FailureCode (exited 1).exit_code))
weak_catch-dispositions_example =
    weak_catch-dispositions weak_pair (exited 0) (exited 1) weak_pair-exits

strip_controls-Printable_example :
    All Printable (strip_controls (27 ∷ b'[' ∷ 51 ∷ b'm' ∷ b'x' ∷ []))
strip_controls-Printable_example = strip_controls-Printable (27 ∷ b'[' ∷ 51 ∷ b'm' ∷ b'x' ∷ [])

abbrev tight : ContextBudget
tight = record { max_tokens = 4; max_files = 1; max_bytes_per_file = 20 }

abbrev unredacted : Text → Redaction
unredacted s = record { text = s; redacted = false }

abbrev two_contents : List (ContextItemKind × Option Text × Text)
two_contents =
    (changed_code, none, codes "fn f() -> u32 { 1 + 1 }")
    ∷ (signature, some (codes "a.rs"), codes "fn g()")
    ∷ []

build-InBudget_example :
    InBudget tight (build (add_all unredacted two_contents (new_builder tight)) (codes "t1")).items
build-InBudget_example = build-InBudget unredacted tight two_contents (codes "t1")

md_code_block-closed_example : no_fence 0 (md_code_block (codes "```\n~~~~~\nrm") 100) ≡ true
md_code_block-closed_example = md_code_block-closed (codes "```\n~~~~~\nrm") 100
