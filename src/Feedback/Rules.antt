-- ===== src/Feedback/Rules.antt =====
-- crates/jitgen-feedback/src/assess/rules.rs: the rules that weigh a weak catch.
use jitgen.Core.Classify.{AssessorSignal, has_failed, has_passed}
use jitgen.Core.Model.{CatchExecution}
use jitgen.Prelude.{Bool, List, [], any, if◌then◌else◌, ◌&&◌, ◌++◌, ◌∷◌}
use jitgen.Prelude.Float.{Float}
use jitgen.Prelude.Str.{Text, codes, contains, to_ascii_lowercase}

abbrev assertion_markers : List Text
assertion_markers =
    codes "assert"
    ∷ codes "assertion"
    ∷ codes "panicked"
    ∷ codes "expected"
    ∷ codes "to equal"
    ∷ codes "to be"
    ∷ codes "expect("
    ∷ codes "should be"
    ∷ codes "did not"
    ∷ []

abbrev env_markers : List Text
env_markers =
    codes "command not found"
    ∷ codes "no such file"
    ∷ codes "modulenotfounderror"
    ∷ codes "cannot find module"
    ∷ codes "importerror"
    ∷ codes "could not compile"
    ∷ codes "connection refused"
    ∷ codes "permission denied"
    ∷ codes "name or service not known"
    ∷ codes "network is unreachable"
    ∷ []

unfoldable pub evidence_clean : CatchExecution → Bool
unfolding has_passed has_failed
evidence_clean exec = has_passed exec.base.outcome && has_failed exec.head.outcome

-- The lower-case head output that the markers are looked up in.
head_blob : CatchExecution → Text
head_blob exec =
    to_ascii_lowercase exec.head.stdout ++ codes "\n" ++ to_ascii_lowercase exec.head.stderr

unfoldable pub looks_env : CatchExecution → Bool
unfolding head_blob contains
looks_env exec = any (contains (head_blob exec)) env_markers

unfoldable pub looks_assertion : CatchExecution → Bool
unfolding head_blob contains
looks_assertion exec = any (contains (head_blob exec)) assertion_markers

pub record RuleAssessment (F : Type 0) : Type 0 where
  pub gate_pass : Bool
  pub probability : F
  pub signals : List (AssessorSignal F)

module _ {F : Type 0} (f : Float F) where
  unfoldable pub head_signal : CatchExecution → F
  unfolding looks_env looks_assertion
  head_signal exec =
      if looks_env exec then f.point_two else if looks_assertion exec then f.one else f.point_five

  unfoldable pub signal : Text → F → Text → AssessorSignal F
  signal assessor score rationale = record {
    assessor = assessor;
    score = score;
    rationale = rationale;
  }

  unfoldable pub unit_of : Bool → F
  unit_of b = if b then f.one else f.zero

  rule_signals : Bool → Bool → F → List (AssessorSignal F)
  rule_signals clean stable hsig =
      signal (codes "rule:evidence") (unit_of clean) (
        if clean
        then codes "base passed and head failed an assertion (clean weak-catch evidence)"
        else codes "head did not fail as a clean assertion over a passing base")
      ∷ signal (codes "rule:stability") (unit_of stable) (
          if stable
          then codes "observed class was stable across the flake filter"
          else codes "observed class was not stable across the flake filter")
      ∷ signal (codes "rule:head_signal") hsig (
          if f.le f.one hsig
          then codes "head output resembles a genuine assertion/behavioral failure"
          else if f.le hsig f.point_two
          then codes "head output resembles an environment/harness problem, not a bug"
          else codes "head failure signal is ambiguous")
      ∷ []

  unfoldable pub assess_rules : CatchExecution → Bool → RuleAssessment F
  unfolding evidence_clean head_signal unit_of rule_signals signal
  assess_rules exec stable =
      let clean = evidence_clean exec in
      let hsig = head_signal exec in
      record {
        gate_pass = clean && stable && f.le f.one hsig;
        probability = f.mul (f.mul (unit_of clean) (unit_of stable)) hsig;
        signals = rule_signals clean stable hsig;
      }
