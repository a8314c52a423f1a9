-- ===== src/Report/Model.antt =====
-- crates/jitgen-report/src/model.rs: the run report, the durable artifact that the exporters render.
use jitgen.Core.Classify.{
  CatchClass, CatchDecision, TpBucket, WeakCatchAssessment, strictly_weak, strong_catch, uncertain,
  weak_catch,
}
use jitgen.Core.Model.{Mode, Strategy}
use jitgen.Prelude.{List, Option, ℕ}
use jitgen.Prelude.Str.{Text, codes}

pub data Severity : Type 0 where
  high_severity medium_severity low_severity : Severity

-- `Severity::sarif_level`.
unfoldable pub sarif_level : Severity → Text
sarif_level high_severity = codes "error"
sarif_level medium_severity = codes "warning"
sarif_level low_severity = codes "note"

unfoldable pub severity_of : {F : Type 0} → CatchDecision → F → Severity
severity_of strong_catch tp_probability = high_severity
severity_of uncertain tp_probability = medium_severity
severity_of strictly_weak tp_probability = low_severity

pub record AcceptedTest : Type 0 where
  pub target : Text
  pub symbol : Option Text
  pub language : Text
  pub path : Text
  pub source : Text
  pub observed_class : CatchClass
  pub reproduction : Text

pub record MutantInfo : Type 0 where
  pub id : Text
  pub risk_description : Text
  pub path : Text

pub record CatchEvidence : Type 0 where
  pub base_exit_code : Option ℕ
  pub head_exit_code : Option ℕ
  pub base_output : Text
  pub head_output : Text

pub record CatchReport (F : Type 0) : Type 0 where
  pub target : Text
  pub language : Text
  pub path : Text
  pub source : Text
  pub observed_class : CatchClass
  pub decision : CatchDecision
  pub tp_probability : F
  pub bucket : TpBucket
  pub rationale : Text
  pub mutation : Option MutantInfo
  pub changed_path : Option Text
  pub changed_line : Option ℕ
  pub reproduction : Text
  pub evidence : Option CatchEvidence

-- `CatchReport::from_assessment`.
unfoldable pub from_assessment :
    {F : Type 0}
    → (target language path source : Text) → WeakCatchAssessment F
    → Option MutantInfo
    → Option Text
    → Option ℕ
    → Text
    → Option CatchEvidence
    → CatchReport F
from_assessment target language path source assessment mutation changed_path changed_line
      reproduction evidence =
    record {
      target = target;
      language = language;
      path = path;
      source = source;
      observed_class = weak_catch;
      decision = assessment.decision;
      tp_probability = assessment.tp_probability;
      bucket = assessment.bucket;
      rationale = assessment.rationale;
      mutation = mutation;
      changed_path = changed_path;
      changed_line = changed_line;
      reproduction = reproduction;
      evidence = evidence;
    }

pub record RejectedCandidate : Type 0 where
  pub target : Text
  pub path : Text
  pub reason : Text
  pub observed_class : Option CatchClass

pub record RunSummary : Type 0 where
  pub targets_selected : ℕ
  pub candidates_generated : ℕ
  pub accepted_count : ℕ
  pub catches_count : ℕ
  pub rejected_count : ℕ

-- `accepted`, `catches` and `rejected` end in `_list`, since `RepairOutcome` has their names.
pub record RunReport (F : Type 0) : Type 0 where
  pub schema_version : ℕ
  pub jitgen_version : Text
  pub run_id : Text
  pub repo : Text
  pub base_revision : Text
  pub head_revision : Text
  pub mode : Mode
  pub strategy : Strategy
  pub summary : RunSummary
  pub accepted_list : List AcceptedTest
  pub catches_list : List (CatchReport F)
  pub rejected_list : List RejectedCandidate
  pub warnings : List Text
