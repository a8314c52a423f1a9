-- ===== src/Samples/Runs.antt =====
-- The theorems about runs against a host, at the scripted hosts.
use jitgen.Core.Classify.{strong_catch}
use jitgen.Core.Model.{TestCandidate, auto, catch, failed}
use jitgen.Feedback.Assess.{assess}
use jitgen.Feedback.Assess.Ceiling.{assess-judge_cannot_raise}
use jitgen.Feedback.Assess.Gate.{Genuine, assess-strong}
use jitgen.Feedback.Intent.{run_intent_aware}
use jitgen.Feedback.Intent.Sound.{IsHarvest, run_intent_aware_sound}
use jitgen.Feedback.Minimize.{minimize}
use jitgen.Feedback.Minimize.Sound.{minimize_sound}
use jitgen.Feedback.Strategy.{generate_candidates}
use jitgen.Feedback.Strategy.Sound.{Generated, generate_candidates_sound}
use jitgen.Prelude.{All, Bool, leb, length, none, some, suc, true, ℕ, ◌≡◌, ◌≤◌, ◌⊎◌}
use jitgen.Prelude.Effect.{Exec, Triple}
use jitgen.Prelude.Result.{ok}
use jitgen.Prelude.Str.{Text}
use jitgen.Samples.Numbers.{tenths, tenths-laws}
use jitgen.Samples.Scripted.{
  Never, Nothing, answer, budgets, candidate, context, gen_target, json, prompts, scripted,
  scripted-Keeps, thresholds, weak_pair, weak_pair-strong, weak_pair-strong_alone,
}

run_intent_aware_sound_example :
    Triple Nothing
      (run_intent_aware (scripted failed) prompts context gen_target 3)
      (λ hs w. Nothing w × (All (IsHarvest (λ u r. r ≡ answer failed u)) hs × (length hs ≤ 3)))
      Never
run_intent_aware_sound_example =
    run_intent_aware_sound (scripted-Keeps failed) prompts context gen_target 3

generate_candidates_sound_example :
    Triple Nothing
      (generate_candidates (scripted failed) prompts context gen_target catch auto budgets)
      (λ g w. Nothing w × Generated (λ u r. r ≡ answer failed u) context gen_target budgets g)
      Never
generate_candidates_sound_example =
    generate_candidates_sound (scripted-Keeps failed) prompts context gen_target catch auto budgets

assess-strong_example :
    Genuine weak_pair true
    × (leb 7
          (assess tenths json {W = ℕ} none
            (scripted failed).redact
            prompts.judge_prompt
            weak_pair
            true
            (some context)
            thresholds
            0).0.tp_probability
        ≡ true)
assess-strong_example =
    assess-strong tenths json tenths-laws none (scripted failed).redact prompts.judge_prompt
      weak_pair true (some context) thresholds 0 weak_pair-strong_alone

assess-judge_cannot_raise_example :
    (assess tenths json {W = ℕ} none
      (scripted failed).redact
      prompts.judge_prompt
      weak_pair
      true
      (some context)
      thresholds
      0).0.decision
    ≡ strong_catch
assess-judge_cannot_raise_example =
    assess-judge_cannot_raise tenths json tenths-laws (scripted failed).redact prompts.judge_prompt
      (scripted failed).generate weak_pair true (some context) thresholds 0 weak_pair-strong

abbrev long_enough : TestCandidate → Exec ℕ Text Bool
long_enough c w = (ok (leb 3 (length c.source)), suc w)

minimize_sound_example :
    Triple Nothing
      (minimize long_enough candidate 5)
      (λ c w. Nothing w × ((c ≡ candidate) ⊎ (leb 3 (length c.source) ≡ true)))
      (λ e w. ⊥)
minimize_sound_example =
    minimize_sound long_enough candidate Nothing (λ e w. ⊥) (λ c. leb 3 (length c.source) ≡ true)
      (λ c. record { run = λ w p. (tt, λ h. h) }) 5
