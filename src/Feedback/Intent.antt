-- ===== src/Feedback/Intent.antt =====
-- crates/jitgen-feedback/src/strategy/intent_aware.rs: risks, mutants, killing tests, replay on head.
pub mod Sound
use jitgen.Core.Classify.{CatchClass, from_catch, has_failed, has_passed}
use jitgen.Core.Model.{
  CatchExecution, ContextBundle, Mode, Mutant, Strategy, TestCandidate, catch, intent_aware, valid,
}
use jitgen.Feedback.Host.{
  FeedbackError, Host, LlmRequest, Prompt, ask, base, execute, execute_existing, execution, head,
  mutant,
}
use jitgen.Feedback.Llmstep.{parse_mutants, parse_risks, request}
use jitgen.Llm.Parse.{parse_candidate}
use jitgen.Llm.Validate.{validate_candidate}
use jitgen.Prelude.{List, Option, [], if◌then◌else◌, not, take, ℕ, ◌&&◌, ◌++◌, ◌∷◌}
use jitgen.Prelude.Effect.{Exec, pure, ◌>>=◌}
use jitgen.Prelude.Str.{Text}

-- The prompts of jitgen-feedback/src/prompts.rs and of jitgen-context/src/prompt.rs.
pub record Prompts : Type 0 where
  pub harden_prompt : ContextBundle → Prompt
  pub dodgy_diff_prompt : ContextBundle → Prompt
  pub infer_risks_prompt : ContextBundle → Prompt
  pub make_mutants_prompt : ContextBundle → List Text → Prompt
  pub killing_test_prompt : ContextBundle → Mutant → Prompt
  pub judge_prompt : Text → Prompt
  pub render_prompt : ContextBundle → Mode → Strategy → Text → List Text → Prompt

pub record GenTarget : Type 0 where
  pub language : Text
  pub symbol : Option Text
  pub rel_path : Text

pub record HarvestedCatch : Type 0 where
  pub candidate : TestCandidate
  pub killed : Mutant
  pub execution : CatchExecution
  pub observed_class : CatchClass

-- `for (i, m) in mutants.iter_mut().enumerate()`: the risk of the same index, where there is one.
attach_risks : List Mutant → List Text → List Mutant
attach_risks [] risks = []
attach_risks (m ∷ ms) [] = m ∷ ms
attach_risks (m ∷ ms) (r ∷ rs) = record m { risk_description = r } ∷ attach_risks ms rs

module _ {W : Type 0} (h : Host W) (prompts : Prompts) (context : ContextBundle)
    (target : GenTarget) where
  -- Keep the mutants on which the existing tests pass.
  validate_mutants : List Mutant → List Mutant → Exec W FeedbackError (List Mutant)
  validate_mutants [] valid_ones = pure valid_ones
  validate_mutants (m ∷ ms) valid_ones = execute_existing h (mutant m) >>= λ existing.
      validate_mutants ms (
        if has_passed existing.outcome
        then valid_ones ++ record m { status = valid } ∷ []
        else valid_ones)

  killing_request : Mutant → LlmRequest
  killing_request m =
      request (prompts.killing_test_prompt context m) catch intent_aware target.language
        target.symbol

  -- What a killing test gives: nothing, or its replay on head.
  replay : TestCandidate → Mutant → Exec W FeedbackError (List HarvestedCatch)
  replay candidate m = execute h candidate base >>= λ b.
      execute h candidate (mutant m) >>= λ on_mutant.
      if not (has_passed b.outcome && has_failed on_mutant.outcome)
      then pure []
      else (execute h candidate head >>= λ r.
          let execution : CatchExecution = record { base = b; head = r } in
          pure (
            record {
              candidate = candidate;
              killed = m;
              execution = execution;
              observed_class = from_catch execution;
            }
            ∷ []))

  harvest : List Mutant → List HarvestedCatch → Exec W FeedbackError (List HarvestedCatch)
  harvest [] harvested = pure harvested
  harvest (m ∷ ms) harvested = ask h (killing_request m) >>= λ raw.
      let candidate = parse_candidate raw context.target target.rel_path 0 in
      if not (validate_candidate candidate.source).accepted
      then harvest ms harvested
      else (replay candidate m >>= λ found. harvest ms (harvested ++ found))

  from_mutants : ℕ → List Text → List Mutant → Exec W FeedbackError (List HarvestedCatch)
  from_mutants max_mutants risks [] = pure []
  from_mutants max_mutants risks (m ∷ ms) =
      validate_mutants (take max_mutants (attach_risks (m ∷ ms) risks)) [] >>= λ valid_ones.
      harvest valid_ones []

  from_risks : ℕ → List Text → Exec W FeedbackError (List HarvestedCatch)
  from_risks max_mutants [] = pure []
  from_risks max_mutants (r ∷ rs) =
      ask h (
        request (prompts.make_mutants_prompt context (r ∷ rs)) catch intent_aware target.language
          target.symbol)
      >>= λ raw. from_mutants max_mutants (r ∷ rs) (parse_mutants h.redact raw context.target)

  -- `intent_aware::run`.
  unfoldable pub run_intent_aware : ℕ → Exec W FeedbackError (List HarvestedCatch)
  unfolding from_risks from_mutants validate_mutants harvest replay killing_request attach_risks
  run_intent_aware max_mutants =
      ask h (
        request (prompts.infer_risks_prompt context) catch intent_aware target.language
          target.symbol)
      >>= λ raw. from_risks max_mutants (parse_risks h.redact raw)
