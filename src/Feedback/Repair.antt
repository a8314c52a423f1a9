-- ===== src/Feedback/Repair.antt =====
-- crates/jitgen-feedback/src/{repair,classify}.rs: run, classify, and regenerate within a budget.
pub mod Sound
use jitgen.Core.Classify.{
  CatchClass, ClassifiedResult, broken, class_eq, from_catch, from_single, harden_pass, weak_catch,
}
use jitgen.Core.Model.{
  ExecOutcome, ExecutionResult, Mode, TestCandidate, build_error, catch, errored, failed, harden,
  passed, timeout,
}
use jitgen.Feedback.Host.{FeedbackError, Host, LlmRequest, ask, base, execute, head, invalid_bound}
use jitgen.Feedback.Prompts.{fenced_pre_redacted}
use jitgen.Llm.Parse.{parse_candidate}
use jitgen.Llm.Validate.{validate_candidate}
use jitgen.Prelude.{
  Bool, List, Option, [], if◌then◌else◌, none, not, some, suc, take, zero, ℕ, ◌%◌, ◌++◌, ◌+◌, ◌==◌,
  ◌^◌,
}
use jitgen.Prelude.Effect.{Exec, pure, raise, ◌>>=◌}
use jitgen.Prelude.Str.{Text, codes, join}

abbrev pub max_feedback_chars : ℕ
max_feedback_chars = 2000

pub data RepairOutcome : Type 0 where
  accepted exhausted rejected : RepairOutcome

pub record RepairReport (F : Type 0) : Type 0 where
  pub outcome : RepairOutcome
  pub candidate : TestCandidate
  pub classified : ClassifiedResult F
  pub attempts : ℕ

unfoldable pub goal_reached : Mode → CatchClass → Bool
unfolding class_eq
goal_reached harden k = class_eq k harden_pass
goal_reached catch k = class_eq k weak_catch

-- The derived `Debug` of an outcome.
unfoldable pub show_outcome : ExecOutcome → Text
show_outcome passed = codes "Passed"
show_outcome failed = codes "Failed"
show_outcome build_error = codes "BuildError"
show_outcome timeout = codes "Timeout"
show_outcome errored = codes "Errored"

unfoldable pub unassessed : {F : Type 0} → CatchClass → ClassifiedResult F
unassessed k = record { observed_class = k; assessment = none }

-- `last_classified.unwrap_or(..)`.
or_broken : {F : Type 0} → Option (ClassifiedResult F) → ClassifiedResult F
unfolding unassessed
or_broken none = unassessed broken
or_broken (some c) = c

module _ {W : Type 0} (h : Host W) where
  fenced_feedback : Text → Text → Text
  fenced_feedback kind raw = fenced_pre_redacted kind (take max_feedback_chars (h.redact raw).text)

  describe_single : ExecutionResult → Text
  unfolding show_outcome
  describe_single result = fenced_feedback (codes "repair_failure_head") (
      codes "previous attempt observed "
      ++ show_outcome result.outcome
      ++ codes "; captured output:\n"
      ++ result.stdout
      ++ codes "\n"
      ++ result.stderr)

  describe_catch : ExecutionResult → ExecutionResult → Text
  unfolding show_outcome
  describe_catch b r = fenced_feedback (codes "repair_failure_catch") (
      codes "previous attempt: base observed "
      ++ show_outcome b.outcome
      ++ codes ", head observed "
      ++ show_outcome r.outcome
      ++ codes "; head output:\n"
      ++ r.stdout
      ++ codes "\n"
      ++ r.stderr)

  describe_issues : List Text → Text
  describe_issues issues = fenced_feedback (codes "repair_validation") (
      codes "static validation rejected the test (do not use dangerous constructs): "
      ++ join (codes "; ") issues)

  -- One trial: `classify_single` or `classify_catch` of its runs, and the feedback they give.
  trial : {F : Type 0} → TestCandidate → Mode → Exec W FeedbackError (ClassifiedResult F × Text)
  unfolding describe_single describe_catch
  trial candidate harden =
      execute h candidate head >>= λ r. pure (unassessed (from_single r), describe_single r)
  trial candidate catch = execute h candidate base >>= λ b. execute h candidate head >>= λ r.
      pure (unassessed (from_catch (record { base = b; head = r })), describe_catch b r)

  -- The candidate of an attempt: the initial one, or one that the provider gives for the feedback.
  regenerate :
      LlmRequest → TestCandidate → Text → ℕ → TestCandidate → Exec W FeedbackError TestCandidate
  regenerate template initial feedback zero candidate = pure candidate
  regenerate template initial feedback (suc k) candidate =
      ask h (record template { attempt = suc k % 2 ^ 16; repair_feedback = some feedback })
      >>= λ raw. pure (parse_candidate raw initial.target initial.rel_path (suc k % 2 ^ 16))

  module _ {F : Type 0} (template : LlmRequest) (initial : TestCandidate) (mode : Mode)
      (max_attempts : ℕ) where
    -- The loop from `attempt` on, with `left` rounds left.
    attempt_from :
        (left attempt : ℕ)
        → TestCandidate
        → Option (ClassifiedResult F)
        → Text
        → Exec W FeedbackError (RepairReport F)
    attempt_from zero attempt candidate last_classified last_feedback = pure (record {
      outcome = exhausted;
      candidate = candidate;
      classified = or_broken last_classified;
      attempts = max_attempts;
    })
    attempt_from (suc left) attempt candidate last_classified last_feedback =
        regenerate template initial last_feedback attempt candidate >>= λ c.
        let validation = validate_candidate c.source in
        let again = attempt_from left (attempt + 1) c none (describe_issues validation.issues) in
        if not validation.accepted
        then if attempt + 1 == max_attempts
          then pure (record {
            outcome = rejected;
            candidate = c;
            classified = unassessed broken;
            attempts = attempt + 1;
          })
          else again
        else (trial c mode >>= λ (classified, feedback).
            let rest = attempt_from left (attempt + 1) c (some classified) feedback in
            if goal_reached mode classified.observed_class
            then pure (record {
              outcome = accepted;
              candidate = c;
              classified = classified;
              attempts = attempt + 1;
            })
            else rest)

    unfoldable pub repair_loop : Exec W FeedbackError (RepairReport F)
    unfolding attempt_from regenerate trial or_broken describe_issues fenced_feedback
    repair_loop =
        if max_attempts == 0
        then raise (invalid_bound (codes "max_attempts") (codes "must be >= 1"))
        else attempt_from max_attempts 0 initial none []
