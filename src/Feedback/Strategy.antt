-- ===== src/Feedback/Strategy.antt =====
-- crates/jitgen-feedback/src/strategy/mod.rs: generation by strategy.
pub mod Sound
use jitgen.Core.Model.{
  ContextBundle, Mode, Strategy, TestCandidate, dodgy_diff, harden_strategy, resolve,
}
use jitgen.Feedback.Host.{FeedbackError, Host, Prompt, ask}
use jitgen.Feedback.Intent.{GenTarget, HarvestedCatch, Prompts, run_intent_aware}
use jitgen.Feedback.Llmstep.{request}
use jitgen.Llm.Parse.{parse_candidate}
use jitgen.Llm.Validate.{validate_candidate}
use jitgen.Prelude.{List, [], if◌then◌else◌, suc, zero, ℕ, ◌%◌, ◌++◌, ◌+◌, ◌^◌, ◌∷◌}
use jitgen.Prelude.Effect.{Exec, pure, ◌>>=◌}

pub record StrategyConfig : Type 0 where
  pub num_candidates : ℕ
  pub max_mutants : ℕ

pub record GenerationOutcome : Type 0 where
  pub candidates : List TestCandidate
  pub catches : List HarvestedCatch

module _ {W : Type 0} (h : Host W) (prompts : Prompts) (context : ContextBundle)
    (target : GenTarget) (mode : Mode) where
  -- The attempts from `attempt` on, with `left` of them left.
  generate_from :
      Strategy
      → (ContextBundle → Prompt)
      → ℕ
      → ℕ
      → List TestCandidate
      → Exec W FeedbackError (List TestCandidate)
  generate_from strategy build_prompt zero attempt out = pure out
  generate_from strategy build_prompt (suc left) attempt out =
      ask h (record (request (build_prompt context) mode strategy target.language target.symbol) {
        attempt = attempt % 2 ^ 16;
      })
      >>= λ raw.
          let candidate = parse_candidate raw context.target target.rel_path (attempt % 2 ^ 16) in
          generate_from strategy build_prompt left (attempt + 1)
            (if (validate_candidate candidate.source).accepted then out ++ candidate ∷ [] else out)

  generate_simple :
      Strategy → (ContextBundle → Prompt) → ℕ → Exec W FeedbackError (List TestCandidate)
  unfolding generate_from
  generate_simple strategy build_prompt num_candidates =
      generate_from strategy build_prompt num_candidates 0 []

  candidates_only : List TestCandidate → GenerationOutcome
  candidates_only cs = record { candidates = cs; catches = [] }

  catches_only : List HarvestedCatch → GenerationOutcome
  catches_only hs = record { candidates = []; catches = hs }

  by_strategy : Strategy → StrategyConfig → Exec W FeedbackError GenerationOutcome
  by_strategy harden_strategy cfg =
      generate_simple harden_strategy prompts.harden_prompt cfg.num_candidates >>= λ cs.
      pure (candidates_only cs)
  by_strategy dodgy_diff cfg =
      generate_simple dodgy_diff prompts.dodgy_diff_prompt cfg.num_candidates >>= λ cs.
      pure (candidates_only cs)
  by_strategy other cfg =
      run_intent_aware h prompts context target cfg.max_mutants >>= λ hs. pure (catches_only hs)

  unfoldable pub generate_candidates :
      Strategy → StrategyConfig → Exec W FeedbackError GenerationOutcome
  unfolding by_strategy generate_simple candidates_only catches_only
  generate_candidates strategy cfg = by_strategy (resolve strategy mode) cfg
