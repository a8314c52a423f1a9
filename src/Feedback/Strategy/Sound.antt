-- ===== src/Feedback/Strategy/Sound.antt =====
-- What generation hands on, whichever the strategy.
use jitgen.Core.Model.{
  ContextBundle, ExecutionResult, Mode, Strategy, TestCandidate, dodgy_diff, harden_strategy,
  resolve,
}
use jitgen.Feedback.Host.{FeedbackError, Host, Keeps, Prompt, Run}
use jitgen.Feedback.Intent.{GenTarget, Prompts, run_intent_aware}
use jitgen.Feedback.Intent.Sound.{IsHarvest, run_intent_aware_sound}
use jitgen.Feedback.Repair.Sound.{Screened}
use jitgen.Feedback.Strategy.{
  GenerationOutcome, StrategyConfig, by_strategy, candidates_only, catches_only,
  generate_candidates, generate_from, generate_simple,
}
use jitgen.Llm.Parse.{parse_candidate}
use jitgen.Llm.Validate.{validate_candidate}
use jitgen.Prelude.{
  All, All-append, Bool-cases, List, [], arith, inl, inr, length, length-append, refl, suc, zero, ℕ,
  ◌%◌, ◌++◌, ◌+◌, ◌^◌, ◌∷◌, ◌≡◌, ◌≤◌, ◌⊎◌,
}
use jitgen.Prelude.Effect.{Triple, Triple-bind, Triple-pure, Triple-weaken, pure, ◌>>=◌}
use jitgen.Prelude.Str.{Text}

-- A screened candidate for the target's file.
abbrev pub Offered : ContextBundle → GenTarget → TestCandidate → Type 0
Offered context target c = Screened c × (c.target ≡ context.target) × (c.rel_path ≡ target.rel_path)

pub record Generated (Seen : Run → ExecutionResult → Type 0) (context : ContextBundle)
    (target : GenTarget) (cfg : StrategyConfig) (g : GenerationOutcome) : Type 0 where
  pub offered : All (Offered context target) g.candidates
  pub harvested : All (IsHarvest Seen) g.catches
  pub few_candidates : length g.candidates ≤ cfg.num_candidates
  pub few_catches : length g.catches ≤ cfg.max_mutants
  pub one_kind : (g.candidates ≡ []) ⊎ (g.catches ≡ [])

offered_lem :
    (context : ContextBundle) (target : GenTarget) (raw : Text) (n : ℕ)
    → Screened (parse_candidate raw context.target target.rel_path n)
    → Offered context target (parse_candidate raw context.target target.rel_path n)
unfolding parse_candidate
offered_lem context target raw n s = (s, refl, refl)

module _ {W : Type 0} {h : Host W} {I : W → Type 0} {Seen : Run → ExecutionResult → Type 0}
    {R : FeedbackError → W → Type 0} (keeps : Keeps h I Screened Seen R) (prompts : Prompts)
    (context : ContextBundle) (target : GenTarget) (mode : Mode) where
  generate_from_sound :
      (strategy : Strategy) (build : ContextBundle → Prompt) (left attempt : ℕ)
      (out : List TestCandidate)
      → All (Offered context target) out
      → Triple I
          (generate_from h prompts context target mode strategy build left attempt out)
          (λ cs w. I w × (All (Offered context target) cs × (length cs ≤ length out + left)))
          R
  unfolding generate_from
  generate_from_sound strategy build zero attempt out a =
      Triple-pure out λ w i. (i, (a, omega arith))
  generate_from_sound strategy build (suc left) attempt out a =
      Triple-bind _ _ (keeps.generates _) λ raw.
        let c = parse_candidate raw context.target target.rel_path (attempt % 2 ^ 16) in
        elim (Bool-cases (validate_candidate c.source).accepted) [
          | inl good ↦ rw good (
              Triple-weaken
                (generate_from_sound strategy build left (attempt + 1) (out ++ c ∷ []) (
                  All-append (Offered context target) out (c ∷ []) a
                    (offered_lem context target raw _ good, tt)))
                λ cs w p. (p.0, (p.1.0, omega (arith, p.1.1, length-append {0} out (c ∷ [])))))
          | inr bad ↦ rw bad (
              Triple-weaken (generate_from_sound strategy build left (attempt + 1) out a)
                λ cs w p. (p.0, (p.1.0, omega (arith, p.1.1))))
        ]

  simple_sound :
      (strategy : Strategy) (build : ContextBundle → Prompt) (cfg : StrategyConfig)
      → Triple I
          (generate_simple h prompts context target mode strategy build cfg.num_candidates >>= λ cs.
            pure (candidates_only h prompts context target mode cs))
          (λ g w. I w × Generated Seen context target cfg g)
          R
  unfolding generate_simple candidates_only
  simple_sound strategy build cfg =
      Triple-bind _ _ (generate_from_sound strategy build cfg.num_candidates 0 [] tt) λ cs.
        Triple-pure _ λ w p. (
          p.0,
          record {
            offered = p.1.0;
            harvested = tt;
            few_candidates = omega (arith, p.1.1);
            few_catches = omega arith;
            one_kind = inr refl;
          },
        )

  intent_sound :
      (cfg : StrategyConfig)
      → Triple I
          (run_intent_aware h prompts context target cfg.max_mutants >>= λ hs.
            pure (catches_only h prompts context target mode hs))
          (λ g w. I w × Generated Seen context target cfg g)
          R
  unfolding catches_only
  intent_sound cfg =
      Triple-bind _ _ (run_intent_aware_sound keeps prompts context target cfg.max_mutants) λ hs.
        Triple-pure _ λ w p. (
          p.0,
          record {
            offered = tt;
            harvested = p.1.0;
            few_candidates = omega arith;
            few_catches = p.1.1;
            one_kind = inl refl;
          },
        )

  by_strategy_sound :
      (strategy : Strategy) (cfg : StrategyConfig)
      → Triple I
          (by_strategy h prompts context target mode strategy cfg)
          (λ g w. I w × Generated Seen context target cfg g)
          R
  unfolding by_strategy
  by_strategy_sound harden_strategy cfg = simple_sound harden_strategy prompts.harden_prompt cfg
  by_strategy_sound dodgy_diff cfg = simple_sound dodgy_diff prompts.dodgy_diff_prompt cfg
  by_strategy_sound other cfg = intent_sound cfg

  -- With a host that keeps I, generation that ends without a host error keeps I and hands on
  -- either screened candidates for the target's path, at most `num_candidates`, or harvested
  -- catches, at most `max_mutants`, and never both kinds.
  pub generate_candidates_sound :
      (strategy : Strategy) (cfg : StrategyConfig)
      → Triple I
          (generate_candidates h prompts context target mode strategy cfg)
          (λ g w. I w × Generated Seen context target cfg g)
          R
  unfolding generate_candidates
  generate_candidates_sound strategy cfg = by_strategy_sound (resolve strategy mode) cfg
