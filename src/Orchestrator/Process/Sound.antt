-- ===== src/Orchestrator/Process/Sound.antt =====
-- What accepting, reporting and rejecting a candidate rests on.
use jitgen.Core.Classify.{CatchClass, broken, flaky, harden_pass, no_catch, weak_catch}
use jitgen.Core.Model.{
  CatchExecution, ContextBundle, ExecutionResult, Mode, TestCandidate, catch, harden,
}
use jitgen.Feedback.Assess.{Json, assess}
use jitgen.Feedback.Assess.World.{assess_world}
use jitgen.Feedback.Flake.{FlakeReport, report_class}
use jitgen.Feedback.Flake.Sound.{
  CatchSeen, ReportOf, SingleSeen, flake_filter_catch_sound, flake_filter_single_sound,
  report_class_iff,
}
use jitgen.Feedback.Host.{
  FeedbackError, GenerationError, Host, Keeps, LlmRequest, Run, ask, base, generation, head,
}
use jitgen.Feedback.Intent.{Prompts}
use jitgen.Feedback.Repair.Sound.{Screened}
use jitgen.Orchestrator.Process.{
  RankedTarget, RunConfig, TargetOutcome, accept_landable, assess_fresh, assessed, classify_stable,
  land, rejected_with, report_assessed_catch, report_of, rerun,
}
use jitgen.Orchestrator.Process.Landing.{accept_landable_lem}
use jitgen.Orchestrator.Process.Steps.{
  Step, Step-push_accepted, Step-push_catch, Step-push_rejected,
}
use jitgen.Prelude.{
  All, List, Option, ap, if◌then◌else◌, none, not, refl, some, sym, true, ℕ, ◌∙◌, ◌≡◌, ◌≢◌,
}
use jitgen.Prelude.Effect.{
  Post, Triple, Triple-bind, Triple-fact, Triple-if, Triple-pure, map_end, map_err, pure, ◌>>=◌,
}
use jitgen.Prelude.Float.{Float}
use jitgen.Prelude.Result.{Result, err, ok}
use jitgen.Prelude.Str.{Text, codes}
use jitgen.Report.Model.{AcceptedTest, MutantInfo}

harden_pass-not_flaky : harden_pass ≢ flaky
harden_pass-not_flaky h = cc

weak_catch-not_flaky : weak_catch ≢ flaky
weak_catch-not_flaky h = cc

-- The class of a report, which is not `flaky`, is that of each of its trials.
each_trial :
    {D : CatchClass → Type 0} {n : ℕ} {r : FlakeReport} (k : CatchClass)
    → ReportOf D n r
    → k ≢ flaky
    → report_class r ≡ k
    → All (λ d. d ≡ k) r.observed
each_trial {r} k t real e =
    ((report_class_iff r.observed k real).0 (ap report_class (sym t.computed) ∙ e)).1

-- A generation leaves `I`, since a failed one does.
generation_world :
    {W : Type 0} (I : W → Type 0) (R : FeedbackError → W → Type 0)
    → ((e : GenerationError) (w : W) → R (generation e) w → I w)
    → (r : Result GenerationError Text × W) → Post (λ _ w. I w) R (map_end generation r)
    → I r.1
generation_world I R recover (ok raw, w) p = p
generation_world I R recover (err e, w) p = recover e w p

module _ {W F J : Type 0} {h : Host W} {I : W → Type 0} {Seen : Run → ExecutionResult → Type 0}
    {R : FeedbackError → W → Type 0} (keeps : Keeps h I Screened Seen R)
    (recover : (e : GenerationError) (w : W) → R (generation e) w → I w) (prompts : Prompts)
    (f : Float F) (json : Json F J) (rt : RankedTarget F) (context : ContextBundle)
    (hints : List Text) (cfg : RunConfig F) where
  judge_world : (req : LlmRequest) (w : W) → I w → I (h.generate req w).1
  unfolding ask map_err
  judge_world req w i =
      generation_world I R recover (h.generate req w) ((keeps.generates req).run w i)

  -- The assessment is that of `assess` in the world at hand.
  assessed_sound :
      (exec : CatchExecution)
      → Triple I
          (assessed h prompts f json rt context hints cfg exec)
          (λ a w.
            I w
            × ((w0 : W) × (a
                  ≡ (assess f json
                      (if cfg.real_llm then some h.generate else none)
                      h.redact
                      prompts.judge_prompt
                      exec
                      true
                      (some context)
                      cfg.assess_cfg
                      w0).0)))
          R
  unfolding assessed
  assessed_sound exec = record {
    run = λ w i. (
      assess_world f json h.generate I judge_world cfg.real_llm h.redact prompts.judge_prompt exec
          true (some context) cfg.assess_cfg w i,
      (w, refl),
    );
  }

  abbrev pub Stepped : ℕ → TargetOutcome F → TargetOutcome F → W → Type 0
  Stepped n out out' w = I w × Step h prompts f json Seen rt context hints cfg n out out'

  pub reject_sound :
      (c : TestCandidate) (reason : Text) (k : CatchClass) (out : TargetOutcome F)
      → Triple I
          (pure (rejected_with h prompts f json rt context hints cfg c reason k out))
          (Stepped 1 out)
          R
  unfolding rejected_with
  reject_sound c reason k out = Triple-pure _ λ w i. (i, Step-push_rejected _ out)

  pub assess_fresh_sound :
      (c : TestCandidate) (mutation : Option MutantInfo) (out : TargetOutcome F)
      (trials : FlakeReport)
      → Screened c
      → ReportOf (CatchSeen Seen c) cfg.reruns trials
      → report_class trials ≡ weak_catch
      → Triple I
          (assess_fresh h prompts f json rt context hints cfg c mutation out)
          (Stepped 1 out)
          R
  unfolding assess_fresh report_assessed_catch
  assess_fresh_sound c mutation out trials screened ran_them weak =
      Triple-bind _ _ (keeps.runs c base screened) λ b. Triple-fact λ sb.
        Triple-bind _ _ (keeps.runs c head screened) λ r. Triple-fact λ sr.
          Triple-bind _ _ (assessed_sound (record { base = b; head = r })) λ a.
            Triple-fact λ (w0, e). Triple-pure _ λ w i. (
              i,
              Step-push_catch _ out (record {
                candidate = c;
                screened = screened;
                trials = trials;
                trials_ran = ran_them;
                all_weak = each_trial weak_catch ran_them weak_catch-not_flaky weak;
                exec = record { base = b; head = r };
                on_base = sb;
                on_head = sr;
                world = w0;
                judge = if cfg.real_llm then some h.generate else none;
                mutation = mutation;
                reported_as =
                    ap
                      (report_of h prompts f json rt context hints cfg c
                        (record { base = b; head = r }) mutation)
                      e;
              }),
            )

  land_sound :
      (c : TestCandidate) (out : TargetOutcome F) (trials : FlakeReport)
      → cfg.mode ≡ harden
      → Screened c
      → ReportOf (SingleSeen Seen c head) cfg.reruns trials
      → report_class trials ≡ harden_pass
      → (r : Result Text AcceptedTest) → accept_landable h.redact rt c rt.target.adapter ≡ r
      → Step h prompts f json Seen rt context hints cfg 1 out
          (land h prompts f json rt context hints cfg c r out)
  unfolding land rejected_with
  land_sound c out trials mode screened ran_them e (ok t) accepted_it =
      Step-push_accepted t out (record {
        hardening = mode;
        candidate = c;
        screened = screened;
        landable = accept_landable_lem h.redact rt c rt.target.adapter t accepted_it;
        trials = trials;
        trials_ran = ran_them;
        all_passed = each_trial harden_pass ran_them harden_pass-not_flaky e;
      })
  land_sound c out trials mode screened ran_them e (err reason) refused = Step-push_rejected _ out

  harden_sound :
      (c : TestCandidate) (out : TargetOutcome F) (trials : FlakeReport)
      → cfg.mode ≡ harden
      → Screened c
      → ReportOf (SingleSeen Seen c head) cfg.reruns trials
      → (k : CatchClass) → report_class trials ≡ k
      → Triple I
          (classify_stable h prompts f json rt context hints cfg harden c k out)
          (Stepped 1 out)
          R
  unfolding classify_stable
  harden_sound c out trials mode screened ran_them harden_pass e =
      Triple-pure _ λ w i. (i, land_sound c out trials mode screened ran_them e _ refl)
  harden_sound c out trials mode screened ran_them weak_catch e = reject_sound c _ _ out
  harden_sound c out trials mode screened ran_them no_catch e = reject_sound c _ _ out
  harden_sound c out trials mode screened ran_them broken e = reject_sound c _ _ out
  harden_sound c out trials mode screened ran_them flaky e = reject_sound c _ _ out

  catch_sound :
      (c : TestCandidate) (out : TargetOutcome F) (trials : FlakeReport)
      → Screened c
      → ReportOf (CatchSeen Seen c) cfg.reruns trials
      → (k : CatchClass) → report_class trials ≡ k
      → Triple I
          (classify_stable h prompts f json rt context hints cfg catch c k out)
          (Stepped 1 out)
          R
  unfolding classify_stable
  catch_sound c out trials screened ran_them weak_catch e =
      assess_fresh_sound c none out trials screened ran_them e
  catch_sound c out trials screened ran_them harden_pass e = reject_sound c _ _ out
  catch_sound c out trials screened ran_them no_catch e = reject_sound c _ _ out
  catch_sound c out trials screened ran_them broken e = reject_sound c _ _ out
  catch_sound c out trials screened ran_them flaky e = reject_sound c _ _ out

  pub confirm_sound :
      (m : Mode) (c : TestCandidate) (out : TargetOutcome F)
      → cfg.mode ≡ m
      → Screened c
      → Triple I
          (rerun h prompts f json rt context hints cfg m c >>= λ stable.
            if not stable.stable
            then pure (
                rejected_with h prompts f json rt context hints cfg c
                  (codes "flaky (nondeterministic across reruns)")
                  flaky
                  out)
            else classify_stable h prompts f json rt context hints cfg m c
                (report_class stable)
                out)
          (Stepped 1 out)
          R
  unfolding rerun
  confirm_sound harden c out mode screened =
      Triple-bind _ _ (flake_filter_single_sound keeps c screened cfg.reruns head) λ trials.
        Triple-fact λ t.
          Triple-if (not trials.stable) _ _ (λ b. reject_sound c _ _ out)
            (λ g. harden_sound c out trials mode screened t _ refl)
  confirm_sound catch c out mode screened =
      Triple-bind _ _ (flake_filter_catch_sound keeps c screened cfg.reruns) λ trials.
        Triple-fact λ t.
          Triple-if (not trials.stable) _ _ (λ b. reject_sound c _ _ out)
            (λ g. catch_sound c out trials screened t _ refl)
