-- ===== src/Feedback/Host.antt =====
-- The seams of jitgen-feedback: executor.rs, error.rs, and the request of jitgen-llm/src/provider.rs.
-- The provider, the sandboxed executor, the redactor and the prompt texts are parameters.
use jitgen.Core.Model.{ExecutionResult, Mode, Mutant, Redaction, Strategy, TestCandidate}
use jitgen.Prelude.{Option, ℕ}
use jitgen.Prelude.Effect.{Exec, Triple, map_err}
use jitgen.Prelude.Str.{Text}

pub record Prompt : Type 0 where
  pub system : Text
  pub user : Text

pub record LlmRequest : Type 0 where
  pub prompt : Prompt
  pub mode : Mode
  pub strategy : Strategy
  pub language : Text
  pub symbol : Option Text
  pub attempt : ℕ
  pub repair_feedback : Option Text

pub data GenerationError : Type 0 where
  provider_error config_error : Text → GenerationError

pub data FeedbackError : Type 0 where
  generation : GenerationError → FeedbackError
  execution : Text → FeedbackError
  invalid_bound : Text → Text → FeedbackError

pub data Variant : Type 0 where
  base head : Variant
  mutant : Mutant → Variant

-- The outside world `W` as the feedback layer meets it: `LlmProvider`, `Executor` and `redact`.
pub record Host (W : Type 0) : Type 0 where
  pub generate : LlmRequest → Exec W GenerationError Text
  pub run_candidate : TestCandidate → Variant → Exec W Text ExecutionResult
  pub run_existing : Variant → Exec W Text ExecutionResult
  pub redact : Text → Redaction

module _ {W : Type 0} (h : Host W) where
  -- `provider.generate(&req)?` and `executor.run_candidate(..)?`, `executor.run_existing(..)?`.
  unfoldable pub ask : LlmRequest → Exec W FeedbackError Text
  ask req = map_err generation (h.generate req)

  unfoldable pub execute : TestCandidate → Variant → Exec W FeedbackError ExecutionResult
  execute candidate variant = map_err execution (h.run_candidate candidate variant)

  unfoldable pub execute_existing : Variant → Exec W FeedbackError ExecutionResult
  execute_existing variant = map_err execution (h.run_existing variant)

-- A run of a candidate, or of the existing tests.
pub data Run : Type 0 where
  ran : TestCandidate → Variant → Run
  ran_existing : Variant → Run

-- What a proof knows of a host. `I` holds of the world throughout, provided that only candidates
-- with `Allowed` are run; `Seen u r` is what is recorded of a run `u` that gave `r`; `R`
-- is what holds when a call fails.
pub record Keeps {W : Type 0} (h : Host W) (I : W → Type 0) (Allowed : TestCandidate → Type 0)
    (Seen : Run → ExecutionResult → Type 0) (R : FeedbackError → W → Type 0) : Type 0 where
  pub generates : (req : LlmRequest) → Triple I (ask h req) (λ _ w. I w) R
  pub runs :
      (c : TestCandidate) (v : Variant)
      → Allowed c
      → Triple I (execute h c v) (λ r w. I w × Seen (ran c v) r) R
  pub probes :
      (v : Variant) → Triple I (execute_existing h v) (λ r w. I w × Seen (ran_existing v) r) R
