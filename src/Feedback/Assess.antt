-- ===== src/Feedback/Assess.antt =====
-- crates/jitgen-feedback/src/assess/{mod,judge}.rs: a weak catch is weighed by rules and a judge.
pub mod Gate
pub mod Ceiling
pub mod World
use jitgen.Cli.Run.{attempt, json}
use jitgen.Core.Classify.{
  CatchDecision, TpBucket, WeakCatchAssessment, high, low, medium, strictly_weak, strong_catch,
  uncertain, very_high, very_low,
}
use jitgen.Core.Model.{
  CatchExecution, ContextBundle, ContextItem, ContextItemKind, Redaction, as_str, catch,
  diff_summary, intent_aware,
}
use jitgen.Feedback.Host.{GenerationError, LlmRequest, Prompt}
use jitgen.Feedback.Repair.{show_outcome}
use jitgen.Feedback.Rules.{RuleAssessment, assess_rules, signal}
use jitgen.Llm.Parse.{extract_code}
use jitgen.Prelude.{
  Bool, List, Option, [], false, if◌then◌else◌, map, none, not, some, take, true, ℕ, ◌&&◌, ◌++◌,
  ◌∷◌,
}
use jitgen.Prelude.Effect.{Exec}
use jitgen.Prelude.Float.{Float}
use jitgen.Prelude.Result.{Result, err, ok}
use jitgen.Prelude.Str.{Text, codes, is_control}

abbrev pub max_evidence : ℕ
max_evidence = 4000

abbrev pub max_rationale : ℕ
max_rationale = 240

pub record JudgeSignal (F : Type 0) : Type 0 where
  pub score : F
  pub rationale : Text

pub record AssessConfig (F : Type 0) : Type 0 where
  pub strong_threshold : F
  pub weak_threshold : F

-- The calls of `serde_json` on the judge's answer.
pub record Json (F J : Type 0) : Type 0 where
  pub from_str : Text → Option J
  pub get : J → Text → Option J
  pub as_f64 : J → Option F
  pub as_str : J → Option Text

-- `TpBucket::from_probability`.
unfoldable pub from_probability : {F : Type 0} → Float F → F → TpBucket
from_probability f p =
    if f.lt p f.point_two
    then very_low
    else if f.lt p f.point_four
    then low
    else if f.lt p f.point_six
    then medium
    else if f.lt p f.point_eight
    then high
    else very_high

show_decision : CatchDecision → Text
show_decision strong_catch = codes "StrongCatch"
show_decision strictly_weak = codes "StrictlyWeak"
show_decision uncertain = codes "Uncertain"

show_bool : Bool → Text
show_bool true = codes "true"
show_bool false = codes "false"

and_then : {A B : Type 0} → Option A → (A → Option B) → Option B
and_then none k = none
and_then (some a) k = k a

or_else : {A : Type 0} → Option A → A → A
or_else none d = d
or_else (some a) d = a

module _ {F : Type 0} (f : Float F) where
  -- `AssessConfig::sane`.
  unfoldable pub sane : AssessConfig F → AssessConfig F
  sane cfg = record {
    strong_threshold = f.clamp cfg.strong_threshold f.zero f.one;
    weak_threshold = f.clamp cfg.weak_threshold f.zero f.one;
  }

  finite_in_unit : F → Option F
  finite_in_unit n = if not (f.is_finite n) then none else some (f.clamp n f.zero f.one)

  neutral : Text → JudgeSignal F
  neutral rationale = record { score = f.one; rationale = rationale }

  -- The decision and the report of `assess`, from what the rules and the judge gave.
  unfoldable pub decide_catch : AssessConfig F → Bool → F → CatchDecision
  decide_catch cfg gate_pass combined =
      if gate_pass && f.le cfg.strong_threshold combined
      then strong_catch
      else if f.le combined cfg.weak_threshold
      then strictly_weak
      else uncertain

  unfoldable pub combine :
      (Text → Redaction) → AssessConfig F → RuleAssessment F → JudgeSignal F → WeakCatchAssessment F
  unfolding decide_catch from_probability show_decision show_bool signal
  combine redact cfg rule sig =
      let combined = f.clamp (f.min rule.probability sig.score) f.zero f.one in
      let decision = decide_catch cfg rule.gate_pass combined in
      record {
        tp_probability = combined;
        bucket = from_probability f combined;
        decision = decision;
        rationale =
            (redact (
              codes "decision="
              ++ show_decision decision
              ++ codes "; tp_probability="
              ++ f.fixed2 combined
              ++ codes "; rule_gate_pass="
              ++ show_bool rule.gate_pass
              ++ codes "; rule_probability="
              ++ f.fixed2 rule.probability
              ++ codes "; judge_score="
              ++ f.fixed2 sig.score
              ++ codes
                  " (the LLM judge can only lower confidence, never raise it or pass the gate).")).text;
        signals = rule.signals ++ signal f (codes "llm:judge") sig.score sig.rationale ∷ [];
      }

item_summary : ContextItemKind → Text → Text
item_summary diff_summary content = codes "\ndiff summary:\n" ++ content
item_summary k content = []

diff_summaries : Option ContextBundle → Text
unfolding item_summary
diff_summaries none = []
diff_summaries (some context) = of_items context.items
  where
    of_items : List ContextItem → Text
    of_items [] = []
    of_items (item ∷ items) = item_summary item.kind item.content ++ of_items items

build_evidence : (Text → Redaction) → CatchExecution → Option ContextBundle → Text
unfolding show_outcome diff_summaries
build_evidence redact exec context =
    take max_evidence
      (redact (
        codes "observed base="
        ++ show_outcome exec.base.outcome
        ++ codes " head="
        ++ show_outcome exec.head.outcome
        ++ codes "\nhead output:\n"
        ++ exec.head.stdout
        ++ codes "\n"
        ++ exec.head.stderr
        ++ diff_summaries context)).text

module _ {F J : Type 0} (f : Float F) (json : Json F J) where
  parse_probability : J → Option F
  unfolding finite_in_unit
  parse_probability value =
      and_then (json.get value (codes "tp_probability"))
        λ p. and_then (json.as_f64 p) (finite_in_unit f)

  parse_rationale : (Text → Redaction) → J → Text
  parse_rationale redact value = take max_rationale (
      map (λ c. if is_control c then 32 else c)
        (redact (or_else (and_then (json.get value (codes "rationale")) json.as_str) [])).text)

  judge_value : (Text → Redaction) → Option J → JudgeSignal F
  judge_value redact none =
      neutral f (codes "unparseable judge output (not strict JSON); using rules only")
  judge_value redact (some value) = record {
    score = or_else (parse_probability value) f.one;
    rationale = parse_rationale redact value;
  }

  judge_answer :
      {W : Type 0} → (Text → Redaction) → Result GenerationError Text × W → JudgeSignal F × W
  judge_answer redact (err e, w) =
      (neutral f (codes "llm judge unavailable; using deterministic rules only"), w)
  judge_answer redact (ok raw, w) = (judge_value redact (json.from_str (extract_code raw)), w)

  -- `judge`: a provider error or an answer that is no JSON object gives a neutral signal.
  judge :
      {W : Type 0}
      → (LlmRequest → Exec W GenerationError Text)
      → (Text → Redaction)
      → (Text → Prompt)
      → Text
      → W
      → JudgeSignal F × W
  judge generate redact judge_prompt evidence w = judge_answer redact (
      generate
        (record {
          prompt = judge_prompt evidence;
          mode = catch;
          strategy = intent_aware;
          language = codes "assessment";
          symbol = none;
          attempt = 0;
          repair_feedback = none;
        })
        w)

  consult :
      {W : Type 0}
      → Option (LlmRequest → Exec W GenerationError Text)
      → (Text → Redaction)
      → (Text → Prompt)
      → Text
      → W
      → JudgeSignal F × W
  consult none redact judge_prompt evidence w = (neutral f (codes "llm judge not consulted"), w)
  consult (some generate) redact judge_prompt evidence w =
      judge generate redact judge_prompt evidence w

  unfoldable pub assess :
      {W : Type 0}
      → Option (LlmRequest → Exec W GenerationError Text)
      → (Text → Redaction)
      → (Text → Prompt)
      → CatchExecution
      → Bool
      → Option ContextBundle
      → AssessConfig F
      → W
      → WeakCatchAssessment F × W
  unfolding assess_rules sane combine consult judge judge_answer judge_value parse_probability
      parse_rationale neutral and_then or_else build_evidence
  assess provider redact judge_prompt exec stable context cfg w =
      let (sig, w') = consult provider redact judge_prompt (build_evidence redact exec context) w in
      (combine f redact (sane f cfg) (assess_rules f exec stable) sig, w')
