-- ===== src/Orchestrator/Process.antt =====
-- crates/jitgen-orchestrator/src/process.rs: one target, from generation to what the report says.
-- The outcome `out` that the source mutates is passed along and returned.
pub mod Landing
pub mod Steps
pub mod Sound
pub mod Outcome
use jitgen.Core.Change.{Target}
use jitgen.Core.Classify.{CatchClass, WeakCatchAssessment, class_eq, flaky, harden_pass, weak_catch}
use jitgen.Core.Model.{
  CatchExecution, ContextBundle, ExecutionResult, Mode, Mutant, Redaction, Strategy, TestCandidate,
  catch, harden, resolve,
}
use jitgen.Feedback.Assess.{AssessConfig, Json, assess}
use jitgen.Feedback.Flake.{
  FlakeReport, flake_filter_catch, flake_filter_single, report, report_class,
}
use jitgen.Feedback.Host.{FeedbackError, Host, LlmRequest, base, execute, head}
use jitgen.Feedback.Intent.{GenTarget, HarvestedCatch, Prompts}
use jitgen.Feedback.Repair.{RepairOutcome, accepted, exhausted, rejected, repair_loop}
use jitgen.Feedback.Strategy.{StrategyConfig, generate_candidates}
use jitgen.Materialize.Placement.{test_path}
use jitgen.Prelude.{
  Bool, List, Option, [], any, if◌then◌else◌, is_empty, length, none, not, some, true, ℕ, ◌&&◌,
  ◌++◌, ◌+◌, ◌==◌, ◌∷◌,
}
use jitgen.Prelude.Effect.{Exec, pure, ◌>>=◌}
use jitgen.Prelude.Float.{Float}
use jitgen.Prelude.Result.{Result, err, ok}
use jitgen.Prelude.Str.{Text, codes, starts_with, text_eq, trim, trim_end, trim_start}
use jitgen.Report.Escape.{sanitize, strip_controls}
use jitgen.Report.Model.{
  AcceptedTest, CatchEvidence, CatchReport, MutantInfo, RejectedCandidate, from_assessment,
}

pub record RankedTarget (F : Type 0) : Type 0 where
  pub target : Target F
  pub score : F
  pub rationale : Text

pub record RunConfig (F : Type 0) : Type 0 where
  pub mode : Mode
  pub strategy : Strategy
  pub strategy_cfg : StrategyConfig
  pub max_attempts : ℕ
  pub reruns : ℕ
  pub assess_cfg : AssessConfig F
  pub real_llm : Bool
  pub surface_evidence : Bool

-- As in a run report, the three lists end in `_list`.
pub record TargetOutcome (F : Type 0) : Type 0 where
  pub accepted_list : List AcceptedTest
  pub catches_list : List (CatchReport F)
  pub rejected_list : List RejectedCandidate
  pub candidates_generated : ℕ

abbrev max_evidence_output : ℕ
max_evidence_output = 4096

-- `out.accepted.push`, `out.catches.push` and `out.rejected.push`.
unfoldable pub push_accepted : {F : Type 0} → AcceptedTest → TargetOutcome F → TargetOutcome F
push_accepted t out = record out { accepted_list = out.accepted_list ++ t ∷ [] }

unfoldable pub push_catch : {F : Type 0} → CatchReport F → TargetOutcome F → TargetOutcome F
push_catch c out = record out { catches_list = out.catches_list ++ c ∷ [] }

unfoldable pub push_rejected : {F : Type 0} → RejectedCandidate → TargetOutcome F → TargetOutcome F
push_rejected r out = record out { rejected_list = out.rejected_list ++ r ∷ [] }

unfoldable pub reproduction : Text → Text → Text
reproduction language rel_path =
    codes "Apply the test file `"
    ++ rel_path
    ++ codes "` into the repository and run the "
    ++ language
    ++ codes " test suite (jitgen ran it in a no-network sandbox against the head revision)."

unfoldable pub path_is_landable : Text → Bool
unfolding text_eq starts_with
path_is_landable p =
    text_eq (strip_controls p) p
    && not (any (λ c. c == 10) p)
    && not (any (λ c. c == 9) p)
    && not (starts_with p (b'/' ∷ []))

map_option : {A B : Type 0} → (A → B) → Option A → Option B
map_option k none = none
map_option k (some a) = some (k a)

module _ (redact : Text → Redaction) where
  unfoldable pub report_path : Text → Text
  report_path rel_path = (redact rel_path).text

  unfoldable pub reject :
      {F : Type 0} → RankedTarget F → Text → Text → Option CatchClass → RejectedCandidate
  unfolding report_path
  reject rt path reason k = record {
    target = rt.target.id;
    path = report_path path;
    reason = (redact reason).text;
    observed_class = k;
  }

  evidence_output : ExecutionResult → Text
  unfolding trim trim_start trim_end sanitize
  evidence_output r =
      let combined =
        if is_empty (trim r.stderr)
        then r.stdout
        else if is_empty (trim r.stdout)
        then r.stderr
        else r.stdout ++ 10 ∷ r.stderr in
      sanitize (redact combined).text max_evidence_output

  catch_evidence : CatchExecution → CatchEvidence
  unfolding evidence_output
  catch_evidence exec = record {
    base_exit_code = exec.base.exit_code;
    head_exit_code = exec.head.exit_code;
    base_output = evidence_output exec.base;
    head_output = evidence_output exec.head;
  }

  unfoldable pub accepted_as : {F : Type 0} → RankedTarget F → TestCandidate → Text → AcceptedTest
  unfolding map_option reproduction
  accepted_as rt candidate language = record {
    target = rt.target.id;
    symbol = map_option (λ s. (redact s).text) rt.target.symbol;
    language = language;
    path = candidate.rel_path;
    source = candidate.source;
    observed_class = harden_pass;
    reproduction = (redact (reproduction language candidate.rel_path)).text;
  }

  -- The accepted test, or the reason why the candidate must not be landed.
  unfoldable pub accept_landable :
      {F : Type 0} → RankedTarget F → TestCandidate → Text → Result Text AcceptedTest
  unfolding path_is_landable accepted_as trim trim_start trim_end text_eq
  accept_landable rt candidate language =
      if is_empty (trim candidate.source)
      then err (codes "generated test source is empty; refusing to land it")
      else if (redact candidate.source).redacted
      then err (codes "generated test source contains a secret-shaped token; refusing to land it")
      else if (redact candidate.rel_path).redacted
      then err (codes "generated test path contains a secret-shaped token; refusing to land it")
      else if not (text_eq (strip_controls candidate.source) candidate.source)
      then err (codes "generated test source contains control characters; refusing to land it")
      else if not (path_is_landable candidate.rel_path)
      then err (codes "generated test path contains control characters; refusing to land it")
      else ok (accepted_as rt candidate language)

-- `Pipeline`: the collaborators of one ranked target.
module _ {W F J : Type 0} (h : Host W) (prompts : Prompts) (f : Float F) (json : Json F J)
    (rt : RankedTarget F) (context : ContextBundle) (prompt_hints : List Text)
    (cfg : RunConfig F) where
  build_template : LlmRequest
  unfolding resolve
  build_template =
      let strategy = resolve cfg.strategy cfg.mode in
      record {
        prompt = prompts.render_prompt context cfg.mode strategy rt.target.adapter prompt_hints;
        mode = cfg.mode;
        strategy = strategy;
        language = rt.target.adapter;
        symbol = rt.target.symbol;
        attempt = 0;
        repair_feedback = none;
      }

  -- `assess`, which fails in no case, with the provider as judge of a run with a real one.
  assessed : CatchExecution → Exec W FeedbackError (WeakCatchAssessment F)
  unfolding assess
  assessed exec w =
      let (assessment, w') =
        assess f json (if cfg.real_llm then some h.generate else none) h.redact prompts.judge_prompt
          exec true (some context) cfg.assess_cfg w in
      (ok assessment, w')

  unfoldable pub report_of :
      TestCandidate → CatchExecution → Option MutantInfo → WeakCatchAssessment F → CatchReport F
  unfolding from_assessment report_path reproduction catch_evidence
  report_of candidate exec mutation assessment =
      from_assessment rt.target.id rt.target.adapter (report_path h.redact candidate.rel_path)
        (h.redact candidate.source).text assessment mutation
        (some (report_path h.redact rt.target.path)) (some rt.target.span.start)
        (h.redact (reproduction rt.target.adapter candidate.rel_path)).text
        (if cfg.surface_evidence then some (catch_evidence h.redact exec) else none)

  report_assessed_catch :
      TestCandidate
      → CatchExecution
      → Option MutantInfo
      → TargetOutcome F
      → Exec W FeedbackError (TargetOutcome F)
  unfolding assessed report_of push_catch
  report_assessed_catch candidate exec mutation out = assessed exec >>= λ assessment.
      pure (push_catch (report_of candidate exec mutation assessment) out)

  -- One more paired run, which is what the assessment sees.
  unfoldable pub assess_fresh :
      TestCandidate → Option MutantInfo → TargetOutcome F → Exec W FeedbackError (TargetOutcome F)
  unfolding report_assessed_catch
  assess_fresh candidate mutation out = execute h candidate base >>= λ b.
      execute h candidate head >>= λ r.
      report_assessed_catch candidate (record { base = b; head = r }) mutation out

  unfoldable pub rejected_with :
      TestCandidate → Text → CatchClass → TargetOutcome F → TargetOutcome F
  unfolding push_rejected reject
  rejected_with candidate reason k out =
      push_rejected (reject h.redact rt candidate.rel_path reason (some k)) out

  land : TestCandidate → Result Text AcceptedTest → TargetOutcome F → TargetOutcome F
  unfolding push_accepted rejected_with
  land candidate (ok t) out = push_accepted t out
  land candidate (err reason) out = rejected_with candidate reason harden_pass out

  unfoldable pub classify_stable :
      Mode → TestCandidate → CatchClass → TargetOutcome F → Exec W FeedbackError (TargetOutcome F)
  unfolding land accept_landable assess_fresh rejected_with
  classify_stable harden candidate harden_pass out =
      pure (land candidate (accept_landable h.redact rt candidate rt.target.adapter) out)
  classify_stable catch candidate weak_catch out = assess_fresh candidate none out
  classify_stable mode candidate k out =
      pure (rejected_with candidate (codes "did not reach the goal class") k out)

  unfoldable pub rerun : Mode → TestCandidate → Exec W FeedbackError FlakeReport
  unfolding flake_filter_single flake_filter_catch
  rerun harden candidate = flake_filter_single h candidate head cfg.reruns
  rerun catch candidate = flake_filter_catch h candidate cfg.reruns

  -- The rest of `Pipeline::candidate`, by the outcome of the repair loop.
  after_repair :
      RepairOutcome
      → TestCandidate
      → CatchClass
      → TargetOutcome F
      → Exec W FeedbackError (TargetOutcome F)
  unfolding rerun classify_stable report_class rejected_with
  after_repair exhausted candidate k out =
      pure (rejected_with candidate (codes "repair budget exhausted before reaching goal") k out)
  after_repair rejected candidate k out =
      pure (rejected_with candidate (codes "failed static validation (dangerous construct)") k out)
  after_repair accepted candidate k out = rerun cfg.mode candidate >>= λ stable.
      if not stable.stable
      then pure (rejected_with candidate (codes "flaky (nondeterministic across reruns)") flaky out)
      else classify_stable cfg.mode candidate (report_class stable) out

  -- `Pipeline::candidate`.
  process_candidate : TestCandidate → TargetOutcome F → Exec W FeedbackError (TargetOutcome F)
  unfolding build_template repair_loop after_repair
  process_candidate candidate out =
      repair_loop h {F = F} build_template candidate cfg.mode cfg.max_attempts >>= λ report.
      after_repair report.outcome report.candidate report.classified.observed_class out

  mutant_info : Mutant → MutantInfo
  mutant_info m = record {
    id = m.id;
    risk_description = (h.redact m.risk_description).text;
    path = (h.redact m.path).text;
  }

  -- `Pipeline::harvested`.
  process_harvested : HarvestedCatch → TargetOutcome F → Exec W FeedbackError (TargetOutcome F)
  unfolding class_eq report_class rejected_with mutant_info assess_fresh flake_filter_catch
  process_harvested hc out =
      if not (class_eq hc.observed_class weak_catch)
      then pure
          (rejected_with hc.candidate (codes "replay was not a weak catch") hc.observed_class out)
      else (flake_filter_catch h hc.candidate cfg.reruns >>= λ stable.
          if not (stable.stable && class_eq (report_class stable) weak_catch)
          then pure (
              rejected_with hc.candidate
                (codes "did not stably reproduce as a weak catch across reruns")
                (if stable.stable then report_class stable else flaky) out)
          else assess_fresh hc.candidate (some (mutant_info hc.killed)) out)

  process_candidates : List TestCandidate → TargetOutcome F → Exec W FeedbackError (TargetOutcome F)
  unfolding process_candidate
  process_candidates [] out = pure out
  process_candidates (c ∷ cs) out = process_candidate c out >>= λ out'. process_candidates cs out'

  process_catches : List HarvestedCatch → TargetOutcome F → Exec W FeedbackError (TargetOutcome F)
  unfolding process_harvested
  process_catches [] out = pure out
  process_catches (c ∷ cs) out = process_harvested c out >>= λ out'. process_catches cs out'

  gen_target : GenTarget
  unfolding test_path
  gen_target = record {
    language = rt.target.adapter;
    symbol = rt.target.symbol;
    rel_path = test_path rt.target rt.target.adapter;
  }

  outcome_of_size : ℕ → TargetOutcome F
  outcome_of_size n = record {
    accepted_list = [];
    catches_list = [];
    rejected_list = [];
    candidates_generated = n;
  }

  unfoldable pub process_target : Exec W FeedbackError (TargetOutcome F)
  unfolding generate_candidates gen_target outcome_of_size process_candidates process_catches
  process_target =
      generate_candidates h prompts context gen_target cfg.mode cfg.strategy cfg.strategy_cfg
      >>= λ generated.
          process_candidates generated.candidates
            (outcome_of_size (length generated.candidates + length generated.catches))
          >>= λ out. process_catches generated.catches out
