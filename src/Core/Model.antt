-- ===== src/Core/Model.antt =====
-- crates/jitgen-core/src/{mode,execution,candidate,mutant,context,change,target}.rs: the data.
-- A string is a `Text`, an identifier newtype its text, a `u16`, `u32` or `i32` field a number.
use jitgen.Prelude.{Bool, List, Option, if◌then◌else◌, none, some, ℕ}
use jitgen.Prelude.Str.{Text, codes, text_eq}

pub data Mode : Type 0 where
  harden catch : Mode

pub data Strategy : Type 0 where
  auto : Strategy
  harden_strategy : Strategy
  dodgy_diff : Strategy
  intent_aware : Strategy

-- `Strategy::resolve`.
unfoldable pub resolve : Strategy → Mode → Strategy
resolve auto harden = harden_strategy
resolve auto catch = intent_aware
resolve other mode = other

-- `Mode::as_str` and `Mode::parse`.
unfoldable pub as_str : Mode → Text
as_str harden = codes "harden"
as_str catch = codes "catch"

unfoldable pub parse : Text → Option Mode
unfolding text_eq
parse s =
    if text_eq s (codes "harden")
    then some harden
    else if text_eq s (codes "catch")
    then some catch
    else none

pub data ExecOutcome : Type 0 where
  passed failed build_error timeout errored : ExecOutcome

-- `exit_code` is the two's complement pattern of the `i32`.
pub record ExecutionResult : Type 0 where
  pub outcome : ExecOutcome
  pub exit_code : Option ℕ
  pub duration_ms : ℕ
  pub truncated : Bool
  pub stdout : Text
  pub stderr : Text

pub record CatchExecution : Type 0 where
  pub base : ExecutionResult
  pub head : ExecutionResult

pub record TestCandidate : Type 0 where
  pub target : Text
  pub rel_path : Text
  pub source : Text
  pub test_name : Option Text
  pub attempt : ℕ

pub data MutantStatus : Type 0 where
  proposed valid invalid : MutantStatus

pub record Mutant : Type 0 where
  pub id : Text
  pub risk_description : Text
  pub path : Text
  pub diff : Text
  pub status : MutantStatus

pub record ContextBudget : Type 0 where
  pub max_tokens : ℕ
  pub max_files : ℕ
  pub max_bytes_per_file : ℕ

pub data ContextItemKind : Type 0 where
  changed_code neighboring_code existing_test signature diff_summary : ContextItemKind

pub record ContextItem : Type 0 where
  pub kind : ContextItemKind
  pub path : Option Text
  pub content : Text

pub record ContextBundle : Type 0 where
  pub target : Text
  pub items : List ContextItem
  pub budget : ContextBudget
  pub redacted : Bool

pub data SymbolKind : Type 0 where
  function method class module_kind hunk : SymbolKind

-- `Redaction` of crates/jitgen-context/src/redact.rs.
pub record Redaction : Type 0 where
  pub text : Text
  pub redacted : Bool
