-- ===== src/Core/Classify.antt =====
-- crates/jitgen-core/src/classify.rs: the observed class of one execution and of a base and head pair.
use jitgen.Core.Model.{
  CatchExecution, ExecOutcome, ExecutionResult, build_error, errored, failed, passed, timeout,
}
use jitgen.Prelude.{
  Bool, List, Option, arith, false, if◌then◌else◌, true, ◌&&◌, ◌||◌, ◌↔◌, ◌≡◌, ◌⊎◌,
}
use jitgen.Prelude.Str.{Text}

pub data CatchClass : Type 0 where
  harden_pass weak_catch no_catch broken flaky : CatchClass

unfoldable pub class_eq : CatchClass → CatchClass → Bool
class_eq harden_pass harden_pass = true
class_eq weak_catch weak_catch = true
class_eq no_catch no_catch = true
class_eq broken broken = true
class_eq flaky flaky = true
class_eq a b = false

pub class_eq_iff : (a b : CatchClass) → (class_eq a b ≡ true) ↔ (a ≡ b)
unfolding class_eq
class_eq_iff harden_pass b = ground arith
class_eq_iff weak_catch b = ground arith
class_eq_iff no_catch b = ground arith
class_eq_iff broken b = ground arith
class_eq_iff flaky b = ground arith

unfoldable pub unusable : ExecOutcome → Bool
unusable build_error = true
unusable errored = true
unusable timeout = true
unusable o = false

-- `ExecutionResult::passed`, and `outcome == ExecOutcome::Failed`.
unfoldable pub has_passed : ExecOutcome → Bool
has_passed passed = true
has_passed o = false

unfoldable pub has_failed : ExecOutcome → Bool
has_failed failed = true
has_failed o = false

-- `CatchClass::from_single`; its last arm, which nothing reaches, is `broken` too.
class_of_outcome : ExecOutcome → CatchClass
unfolding unusable
class_of_outcome passed = harden_pass
class_of_outcome failed = no_catch
class_of_outcome o = if unusable o then broken else broken

unfoldable pub from_single : ExecutionResult → CatchClass
unfolding class_of_outcome
from_single result = class_of_outcome result.outcome

unfoldable pub from_catch : CatchExecution → CatchClass
unfolding unusable has_passed has_failed
from_catch exec =
    if unusable exec.base.outcome || unusable exec.head.outcome
    then broken
    else if has_passed exec.base.outcome && has_failed exec.head.outcome
    then weak_catch
    else no_catch

-- A pair is a weak catch exactly when the parent passed and the change failed an assertion.
pub from_catch-weak_iff :
    (exec : CatchExecution)
    → (from_catch exec ≡ weak_catch) ↔ ((exec.base.outcome ≡ passed) × (exec.head.outcome ≡ failed))
unfolding from_catch
from_catch-weak_iff exec = ground arith

-- A pair of executions is broken exactly when one of its sides failed to build, timed out or
-- could not run.
pub from_catch-broken_iff :
    (exec : CatchExecution)
    → (from_catch exec ≡ broken)
      ↔ ((unusable exec.base.outcome ≡ true) ⊎ (unusable exec.head.outcome ≡ true))
unfolding from_catch
from_catch-broken_iff exec = ground arith

pub data TpBucket : Type 0 where
  very_low low medium high very_high : TpBucket

pub data CatchDecision : Type 0 where
  strong_catch strictly_weak uncertain : CatchDecision

-- `F` stands for `f64`.
pub record AssessorSignal (F : Type 0) : Type 0 where
  pub assessor : Text
  pub score : F
  pub rationale : Text

pub record WeakCatchAssessment (F : Type 0) : Type 0 where
  pub tp_probability : F
  pub bucket : TpBucket
  pub decision : CatchDecision
  pub rationale : Text
  pub signals : List (AssessorSignal F)

pub record ClassifiedResult (F : Type 0) : Type 0 where
  pub observed_class : CatchClass
  pub assessment : Option (WeakCatchAssessment F)
