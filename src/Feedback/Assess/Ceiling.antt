-- ===== src/Feedback/Assess/Ceiling.antt =====
-- The judge can only lower what the rules alone would say.
use jitgen.Core.Classify.{strong_catch}
use jitgen.Core.Model.{CatchExecution, ContextBundle, Redaction}
use jitgen.Feedback.Assess.{
  AssessConfig, Json, and_then, assess, build_evidence, consult, finite_in_unit, judge,
  judge_answer, judge_value, neutral, or_else, parse_probability, sane,
}
use jitgen.Feedback.Assess.Gate.{decide-strong}
use jitgen.Feedback.Host.{GenerationError, LlmRequest, Prompt}
use jitgen.Feedback.Rules.{assess_rules, evidence_clean, head_signal, unit_of}
use jitgen.Llm.Parse.{extract_code}
use jitgen.Prelude.{Bool, Bool-cases, Option, arith, false, inl, inr, none, some, true, ◌≡◌, ◌⊎◌}
use jitgen.Prelude.Effect.{Exec}
use jitgen.Prelude.Float.{Float, FloatLaws, InUnit}
use jitgen.Prelude.Result.{Result, err, ok}
use jitgen.Prelude.Str.{Text}

module _ {F : Type 0} (f : Float F) (laws : FloatLaws f) where
  -- The three signals that the head output can give.
  abbrev IsSignal : F → Type 0
  IsSignal x = (x ≡ f.point_two) ⊎ (x ≡ f.point_five) ⊎ (x ≡ f.one)

  signal_unit : (x : F) → IsSignal x → InUnit f x × (f.mul f.zero x ≡ f.zero)
  signal_unit x (inl e) = rw e (laws.point_two_unit, laws.zero-mul-point_two)
  signal_unit x (inr (inl e)) = rw e (laws.point_five_unit, laws.zero-mul-point_five)
  signal_unit x (inr (inr e)) = rw e (laws.one_unit, laws.zero-mul-one)

  head_signal-IsSignal : (exec : CatchExecution) → IsSignal (head_signal f exec)
  unfolding head_signal
  head_signal-IsSignal exec = ground arith

  product_unit :
      (clean stable : Bool) (x : F)
      → IsSignal x
      → InUnit f (f.mul (f.mul (unit_of f clean) (unit_of f stable)) x)
  unfolding unit_of
  product_unit true true x s =
      rw (laws.one_mul f.one laws.one_unit)
        (rw (laws.one_mul x (signal_unit x s).0) (signal_unit x s).0)
  product_unit true false x s =
      rw (laws.one_mul f.zero laws.zero_unit) (rw (signal_unit x s).1 laws.zero_unit)
  product_unit false true x s = rw laws.zero-mul-one (rw (signal_unit x s).1 laws.zero_unit)
  product_unit false false x s = rw laws.zero-mul-zero (rw (signal_unit x s).1 laws.zero_unit)

  probability-InUnit :
      (exec : CatchExecution) (stable : Bool) → InUnit f (assess_rules f exec stable).probability
  unfolding assess_rules
  probability-InUnit exec stable =
      product_unit (evidence_clean exec) stable (head_signal f exec) (head_signal-IsSignal exec)

  -- In [0, 1] the combination is the minimum.
  combine_bounds :
      (x y : F)
      → InUnit f x
      → InUnit f y
      → (f.clamp (f.min x y) f.zero f.one ≡ f.min x y) × (f.le (f.min x y) x ≡ true)
  combine_bounds x y ux uy =
      let below = laws.min-le_left x y ux uy in
      let u : InUnit f (f.min x y) =
        (laws.le-min x y f.zero ux.0 uy.0, laws.le_trans _ x _ below ux.1) in
      (laws.clamp_unit (f.min x y) u, below)

  -- A neutral score changes nothing, up to the order.
  neutral_bounds : (x : F) → InUnit f x → f.le x (f.min x f.one) ≡ true
  neutral_bounds x u = laws.le-min x f.one x (laws.le_refl x u) u.1

  -- A score in [0, 1] gives at most what the neutral score gives.
  combine_le :
      (x y : F)
      → InUnit f x
      → InUnit f y
      → f.le (f.clamp (f.min x y) f.zero f.one) (f.clamp (f.min x f.one) f.zero f.one) ≡ true
  combine_le x y ux uy =
      let (e, below) = combine_bounds x y ux uy in
      let (e', _) = combine_bounds x f.one ux laws.one_unit in
      rw e (rw e' (laws.le_trans _ x _ below (neutral_bounds x ux)))

  abbrev SomeInUnit : Option F → Type 0
  SomeInUnit none = Unit
  SomeInUnit (some x) = InUnit f x

  SomeInUnit-and_then :
      {A : Type 0} (o : Option A) (k : A → Option F)
      → ((a : A) → SomeInUnit (k a))
      → SomeInUnit (and_then o k)
  unfolding and_then
  SomeInUnit-and_then none k h = tt
  SomeInUnit-and_then (some a) k h = h a

  finite_in_unit_lem : (x : F) → SomeInUnit (finite_in_unit f x)
  unfolding finite_in_unit
  finite_in_unit_lem x = elim (Bool-cases (f.is_finite x)) [
    | inl e ↦ rw e (laws.clamp_in_unit x e)
    | inr e ↦ rw e tt
  ]

  or_else_one : (o : Option F) → SomeInUnit o → InUnit f (or_else o f.one)
  unfolding or_else
  or_else_one none h = laws.one_unit
  or_else_one (some x) h = h

module _ {F J W : Type 0} (f : Float F) (json : Json F J) (laws : FloatLaws f)
    (redact : Text → Redaction) (judge_prompt : Text → Prompt) where
  answer_unit :
      (r : Result GenerationError Text × W) → InUnit f (judge_answer f json redact r).0.score
  unfolding judge_answer judge_value parse_probability neutral
  answer_unit (err e, w) = laws.one_unit
  answer_unit (ok raw, w) = value (json.from_str (extract_code raw))
    where
      value : (o : Option J) → InUnit f (judge_value f json redact o).score
      value none = laws.one_unit
      value (some v) = or_else_one f laws _ (
          SomeInUnit-and_then f laws _ _
            λ p. SomeInUnit-and_then f laws _ _ (finite_in_unit_lem f laws))

  consult_unit :
      (provider : Option (LlmRequest → Exec W GenerationError Text)) (evidence : Text) (w : W)
      → InUnit f (consult f json provider redact judge_prompt evidence w).0.score
  unfolding consult judge neutral
  consult_unit none evidence w = laws.one_unit
  consult_unit (some generate) evidence w = answer_unit _

  module _ (generate : LlmRequest → Exec W GenerationError Text) (exec : CatchExecution)
      (stable : Bool) (context : Option ContextBundle) (cfg : AssessConfig F) (w : W) where
    -- For floats with the named laws, the probability of an assessment with a judge is at most
    -- the probability of the assessment of the same evidence without one, whatever the judge
    -- answers.
    pub assess-ceiling :
        f.le
          (assess f json
            (some generate)
            redact
            judge_prompt
            exec
            stable
            context
            cfg
            w).0.tp_probability
          (assess f json none redact judge_prompt exec stable context cfg w).0.tp_probability
        ≡ true
    unfolding assess
    assess-ceiling =
        combine_le f laws _ _ (probability-InUnit f laws exec stable)
          (consult_unit (some generate) (build_evidence redact exec context) w)

    -- For floats with the named laws, if an assessment with a judge decides on a strong catch,
    -- then so does the assessment of the same evidence without one.
    pub assess-judge_cannot_raise :
        (assess f json (some generate) redact judge_prompt exec stable context cfg w).0.decision
          ≡ strong_catch
        → (assess f json none redact judge_prompt exec stable context cfg w).0.decision
          ≡ strong_catch
    unfolding assess
    assess-judge_cannot_raise h =
        let (g, t) = decide-strong f (sane f cfg) _ _ h in
        ground (arith, g, laws.le_trans _ _ _ t assess-ceiling)
