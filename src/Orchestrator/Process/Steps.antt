-- ===== src/Orchestrator/Process/Steps.antt =====
-- What the outcome of a target says of the runs behind it, and that no candidate is lost.
use jitgen.Core.Classify.{harden_pass, weak_catch}
use jitgen.Core.Model.{CatchExecution, ContextBundle, ExecutionResult, TestCandidate, harden}
use jitgen.Feedback.Assess.{Json, assess}
use jitgen.Feedback.Flake.{FlakeReport}
use jitgen.Feedback.Flake.Sound.{CatchSeen, ReportOf, SingleSeen}
use jitgen.Feedback.Host.{GenerationError, Host, LlmRequest, Run, base, head, ran}
use jitgen.Feedback.Intent.{Prompts}
use jitgen.Feedback.Repair.Sound.{Screened}
use jitgen.Orchestrator.Process.{
  RankedTarget, RunConfig, TargetOutcome, push_accepted, push_catch, push_rejected, report_of,
}
use jitgen.Orchestrator.Process.Landing.{Landable}
use jitgen.Prelude.{
  All, All-append, List, Option, [], arith, length, length-append, refl, some, suc, true, ℕ, ◌+◌,
  ◌∙◌, ◌∷◌, ◌≡◌,
}
use jitgen.Prelude.Effect.{Exec}
use jitgen.Prelude.Float.{Float}
use jitgen.Prelude.Str.{Text}
use jitgen.Report.Model.{AcceptedTest, CatchReport, MutantInfo, RejectedCandidate}

-- The candidates that an outcome has disposed of.
abbrev pub disposed : {F : Type 0} → TargetOutcome F → ℕ
disposed out = length out.accepted_list + length out.catches_list + length out.rejected_list

module _ {W F J : Type 0} (h : Host W) (prompts : Prompts) (f : Float F) (json : Json F J)
    (Seen : Run → ExecutionResult → Type 0) (rt : RankedTarget F) (context : ContextBundle)
    (hints : List Text) (cfg : RunConfig F) where
  -- A landable test whose screened candidate passed on head in every one of its flake trials.
  pub record Landed (t : AcceptedTest) : Type 0 where
    pub hardening : cfg.mode ≡ harden
    pub candidate : TestCandidate
    pub screened : Screened candidate
    pub landable : Landable h.redact rt candidate t
    pub trials : FlakeReport
    pub trials_ran : ReportOf (SingleSeen Seen candidate head) cfg.reruns trials
    pub all_passed : All (λ k. k ≡ harden_pass) trials.observed

  -- A reported catch of a screened candidate: every one of its flake trials was a weak catch, and the
  -- assessment, made in some world, is that of one more pair of runs.
  pub record Reported (c : CatchReport F) : Type 0 where
    pub candidate : TestCandidate
    pub screened : Screened candidate
    pub trials : FlakeReport
    pub trials_ran : ReportOf (CatchSeen Seen candidate) cfg.reruns trials
    pub all_weak : All (λ k. k ≡ weak_catch) trials.observed
    pub exec : CatchExecution
    pub on_base : Seen (ran candidate base) exec.base
    pub on_head : Seen (ran candidate head) exec.head
    pub world : W
    pub judge : Option (LlmRequest → Exec W GenerationError Text)
    pub mutation : Option MutantInfo
    pub reported_as :
        c
        ≡ report_of h prompts f json rt context hints cfg candidate exec mutation
            (assess f json judge h.redact prompts.judge_prompt exec true
              (some context)
              cfg.assess_cfg
              world).0

  pub record Processed (out : TargetOutcome F) : Type 0 where
    pub landed : All Landed out.accepted_list
    pub reported : All Reported out.catches_list

  -- What a step does to an outcome: it keeps what holds, and disposes of `n` candidates more.
  pub record Step (n : ℕ) (out out' : TargetOutcome F) : Type 0 where
    pub processed : Processed out → Processed out'
    pub counted : disposed out' ≡ disposed out + n
    pub same_total : out'.candidates_generated ≡ out.candidates_generated

module _ {W F J : Type 0} {h : Host W} {prompts : Prompts} {f : Float F} {json : Json F J}
    {Seen : Run → ExecutionResult → Type 0} {rt : RankedTarget F} {context : ContextBundle}
    {hints : List Text} {cfg : RunConfig F} where
  pub Step-push_accepted :
      (t : AcceptedTest) (out : TargetOutcome F)
      → Landed h prompts f json Seen rt context hints cfg t
      → Step h prompts f json Seen rt context hints cfg 1 out (push_accepted t out)
  unfolding push_accepted
  Step-push_accepted t out l = record {
    processed = λ p. record {
      landed = All-append _ out.accepted_list (t ∷ []) p.landed (l, tt);
      reported = p.reported;
    };
    counted = omega (arith, length-append {0} out.accepted_list (t ∷ []));
    same_total = refl;
  }

  pub Step-push_catch :
      (c : CatchReport F) (out : TargetOutcome F)
      → Reported h prompts f json Seen rt context hints cfg c
      → Step h prompts f json Seen rt context hints cfg 1 out (push_catch c out)
  unfolding push_catch
  Step-push_catch c out r = record {
    processed = λ p. record {
      landed = p.landed;
      reported = All-append _ out.catches_list (c ∷ []) p.reported (r, tt);
    };
    counted = omega (arith, length-append {0} out.catches_list (c ∷ []));
    same_total = refl;
  }

  pub Step-push_rejected :
      (r : RejectedCandidate) (out : TargetOutcome F)
      → Step h prompts f json Seen rt context hints cfg 1 out (push_rejected r out)
  unfolding push_rejected
  Step-push_rejected r out = record {
    processed = λ p. record { landed = p.landed; reported = p.reported };
    counted = omega (arith, length-append {0} out.rejected_list (r ∷ []));
    same_total = refl;
  }

  pub Step-then :
      (n : ℕ) (a b c : TargetOutcome F)
      → Step h prompts f json Seen rt context hints cfg 1 a b
      → Step h prompts f json Seen rt context hints cfg n b c
      → Step h prompts f json Seen rt context hints cfg (suc n) a c
  Step-then n a b c s t = record {
    processed = λ p. t.processed (s.processed p);
    counted = omega (arith, s.counted, t.counted);
    same_total = t.same_total ∙ s.same_total;
  }

  pub Step-none :
      (out : TargetOutcome F) → Step h prompts f json Seen rt context hints cfg 0 out out
  Step-none out = record { processed = λ p. p; counted = omega arith; same_total = refl }
