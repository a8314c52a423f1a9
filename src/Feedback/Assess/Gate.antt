-- ===== src/Feedback/Assess/Gate.antt =====
-- A strong catch rests on what was observed, whatever the judge answers.
use jitgen.Cli.Run.{gate}
use jitgen.Core.Classify.{has_failed, has_passed, strong_catch}
use jitgen.Core.Model.{CatchExecution, ContextBundle, Redaction, failed, passed}
use jitgen.Feedback.Assess.{AssessConfig, Json, assess, build_evidence, consult, decide_catch, sane}
use jitgen.Feedback.Host.{GenerationError, LlmRequest, Prompt}
use jitgen.Feedback.Rules.{assess_rules, looks_assertion, looks_env}
use jitgen.Prelude.{Bool, Option, arith, false, true, ◌↔◌, ◌≡◌}
use jitgen.Prelude.Effect.{Exec}
use jitgen.Prelude.Float.{Float, FloatLaws}
use jitgen.Prelude.Str.{Text}

-- The facts that the rule gate asks for.
pub record Genuine (exec : CatchExecution) (stable : Bool) : Type 0 where
  pub base_passed : exec.base.outcome ≡ passed
  pub head_failed : exec.head.outcome ≡ failed
  pub confirmed : stable ≡ true
  pub no_env_marker : looks_env exec ≡ false
  pub assertion_marker : looks_assertion exec ≡ true

module _ {F : Type 0} (f : Float F) (laws : FloatLaws f) where
  -- The rule gate passes exactly on genuine evidence.
  gate_pass_iff :
      (exec : CatchExecution) (stable : Bool)
      → ((assess_rules f exec stable).gate_pass ≡ true) ↔ Genuine exec stable
  unfolding assess_rules has_passed has_failed
  gate_pass_iff exec stable = (
    λ h. ground (arith, laws.one-not_le-point_two, laws.one-not_le-point_five, h),
    λ g. ground (arith, g, laws.le_refl f.one laws.one_unit),
  )

module _ {F : Type 0} (f : Float F) where
  pub decide-strong :
      (cfg : AssessConfig F) (gate : Bool) (p : F)
      → decide_catch f cfg gate p ≡ strong_catch
      → (gate ≡ true) × (f.le cfg.strong_threshold p ≡ true)
  unfolding decide_catch
  decide-strong cfg gate p h = ground arith

module _ {F J W : Type 0} (f : Float F) (json : Json F J) (laws : FloatLaws f) where
  -- For floats with the named laws, whatever judge is consulted and whatever it answers, an
  -- assessment decides on a strong catch only if the parent passed, the change failed, the class
  -- was stable, the head output has an assertion marker and no environment marker, and the
  -- combined probability is at least the strong threshold clamped into [0, 1].
  pub assess-strong :
      (provider : Option (LlmRequest → Exec W GenerationError Text)) (redact : Text → Redaction)
      (judge_prompt : Text → Prompt) (exec : CatchExecution) (stable : Bool)
      (context : Option ContextBundle) (cfg : AssessConfig F) (w : W)
      → (assess f json provider redact judge_prompt exec stable context cfg w).0.decision
        ≡ strong_catch
      → Genuine exec stable
        × (f.le
              (f.clamp cfg.strong_threshold f.zero f.one)
              (assess f json provider redact judge_prompt exec stable context cfg
                w).0.tp_probability
            ≡ true)
  unfolding assess
  assess-strong provider redact judge_prompt exec stable context cfg w h =
      let (sig, _) =
        consult f json provider redact judge_prompt (build_evidence redact exec context) w in
      let combined =
        f.clamp (f.min (assess_rules f exec stable).probability sig.score) f.zero f.one in
      let (g, t) = decide-strong f (sane f cfg) (assess_rules f exec stable).gate_pass combined h in
      ((gate_pass_iff f laws exec stable).0 g, t)
