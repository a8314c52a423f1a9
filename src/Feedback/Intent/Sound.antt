-- ===== src/Feedback/Intent/Sound.antt =====
-- What the intent-aware pipeline harvests, and that it stays within its budget.
use jitgen.Core.Classify.{from_catch, has_failed, has_passed}
use jitgen.Core.Model.{
  ContextBundle, ExecOutcome, ExecutionResult, Mutant, TestCandidate, failed, passed, valid,
}
use jitgen.Feedback.Host.{FeedbackError, Host, Keeps, Run, base, head, mutant, ran, ran_existing}
use jitgen.Feedback.Intent.{
  GenTarget, HarvestedCatch, Prompts, attach_risks, from_mutants, from_risks, harvest, replay,
  run_intent_aware, validate_mutants,
}
use jitgen.Feedback.Llmstep.{parse_risks}
use jitgen.Feedback.Repair.Sound.{Screened}
use jitgen.Llm.Parse.{parse_candidate}
use jitgen.Llm.Validate.{validate_candidate}
use jitgen.Prelude.{
  All, All-append, Bool-cases, List, [], arith, false, inl, inr, length, length-append,
  length-take-le, not, refl, take, true, ℕ, ◌&&◌, ◌++◌, ◌+◌, ◌∷◌, ◌≡◌, ◌≤◌,
}
use jitgen.Prelude.Effect.{Triple, Triple-bind, Triple-fact, Triple-if, Triple-pure, Triple-weaken}
use jitgen.Prelude.Str.{Text}

module _ (Seen : Run → ExecutionResult → Type 0) where
  -- A mutant marked valid, on which a run of the existing tests passed.
  pub record IsUseful (m : Mutant) : Type 0 where
    pub probed : Mutant
    pub same : m ≡ record probed { status = valid }
    pub result : ExecutionResult
    pub ran_tests : Seen (ran_existing (mutant probed)) result
    pub tests_passed : result.outcome ≡ passed

  -- A screened test that passed on the parent, failed on a useful mutant, and was run on head.
  pub record IsHarvest (hc : HarvestedCatch) : Type 0 where
    pub screened : Screened hc.candidate
    pub useful : IsUseful hc.killed
    pub on_base : Seen (ran hc.candidate base) hc.execution.base
    pub base_passed : hc.execution.base.outcome ≡ passed
    pub kill : ExecutionResult
    pub on_mutant : Seen (ran hc.candidate (mutant hc.killed)) kill
    pub killed_it : kill.outcome ≡ failed
    pub on_head : Seen (ran hc.candidate head) hc.execution.head
    pub class_of_replay : hc.observed_class ≡ from_catch hc.execution

both_outcomes :
    (b m : ExecOutcome) → not (has_passed b && has_failed m) ≡ false → (b ≡ passed) × (m ≡ failed)
unfolding has_passed has_failed
both_outcomes b m h = ground arith

passed_outcome : (o : ExecOutcome) → has_passed o ≡ true → o ≡ passed
unfolding has_passed
passed_outcome o h = ground arith

module _ {W : Type 0} {h : Host W} {I : W → Type 0} {Seen : Run → ExecutionResult → Type 0}
    {R : FeedbackError → W → Type 0} (keeps : Keeps h I Screened Seen R) (prompts : Prompts)
    (context : ContextBundle) (target : GenTarget) where
  validate_mutants_sound :
      (ms acc : List Mutant)
      → All (IsUseful Seen) acc
      → Triple I
          (validate_mutants h prompts context target ms acc)
          (λ vs w. I w × (All (IsUseful Seen) vs × (length vs ≤ length acc + length ms)))
          R
  unfolding validate_mutants
  validate_mutants_sound [] acc a = Triple-pure acc λ w i. (i, (a, omega arith))
  validate_mutants_sound (m ∷ ms) acc a = Triple-bind _ _ (keeps.probes (mutant m)) λ r.
      Triple-fact λ s. elim (Bool-cases (has_passed r.outcome)) [
        | inl p ↦ rw p (
            Triple-weaken
              (validate_mutants_sound ms (acc ++ record m { status = valid } ∷ []) (
                All-append (IsUseful Seen) acc _ a (
                  record {
                    probed = m;
                    same = refl;
                    result = r;
                    ran_tests = s;
                    tests_passed = passed_outcome r.outcome p;
                  },
                  tt,
                )))
              λ vs w p. (
                p.0,
                (
                  p.1.0,
                  omega (arith, p.1.1, length-append {0} acc (record m { status = valid } ∷ [])),
                ),
              ))
        | inr f ↦ rw f (
            Triple-weaken (validate_mutants_sound ms acc a)
              λ vs w p. (p.0, (p.1.0, omega (arith, p.1.1))))
      ]

  -- A replay of a screened test against a useful mutant harvests one catch at most.
  replay_sound :
      (c : TestCandidate) (m : Mutant)
      → Screened c
      → IsUseful Seen m
      → Triple I
          (replay h prompts context target c m)
          (λ hs w. I w × (All (IsHarvest Seen) hs × (length hs ≤ 1)))
          R
  unfolding replay
  replay_sound c m s u = Triple-bind _ _ (keeps.runs c base s) λ b. Triple-fact λ sb.
      Triple-bind _ _ (keeps.runs c (mutant m) s) λ k. Triple-fact λ sk.
        Triple-if (not (has_passed b.outcome && has_failed k.outcome)) _ _
          (λ miss. Triple-pure _ λ w i. (i, (tt, omega arith)))
          (λ hit. Triple-bind _ _ (keeps.runs c head s) λ r. Triple-fact λ sr. Triple-pure _ λ w i.
            (
              i,
              (
                (
                  record {
                    screened = s;
                    useful = u;
                    on_base = sb;
                    base_passed = (both_outcomes _ _ hit).0;
                    kill = k;
                    on_mutant = sk;
                    killed_it = (both_outcomes _ _ hit).1;
                    on_head = sr;
                    class_of_replay = refl;
                  },
                  tt,
                ),
                omega arith,
              ),
            ))

  harvest_sound :
      (ms : List Mutant) (acc : List HarvestedCatch)
      → All (IsUseful Seen) ms
      → All (IsHarvest Seen) acc
      → Triple I
          (harvest h prompts context target ms acc)
          (λ hs w. I w × (All (IsHarvest Seen) hs × (length hs ≤ length acc + length ms)))
          R
  unfolding harvest
  harvest_sound [] acc u a = Triple-pure acc λ w i. (i, (a, omega arith))
  harvest_sound (m ∷ ms) acc u a = Triple-bind _ _ (keeps.generates _) λ raw.
      Triple-if
        (not
          (validate_candidate
            (parse_candidate raw context.target target.rel_path 0).source).accepted)
        _ _
        (λ bad.
          Triple-weaken (harvest_sound ms acc u.1 a) λ hs w p. (p.0, (p.1.0, omega (arith, p.1.1))))
        (λ good. Triple-bind _ _ (replay_sound _ m (ground arith) u.0) λ found. Triple-fact λ f.
          Triple-weaken
            (harvest_sound ms (acc ++ found) u.1 (All-append (IsHarvest Seen) acc found a f.0))
            λ hs w p. (p.0, (p.1.0, omega (arith, p.1.1, f.1, length-append {0} acc found))))

  -- With a host that keeps I, the intent-aware pipeline that ends without a host error keeps I
  -- and returns at most `max` catches, each with a screened test that passed on base, failed on a
  -- mutant on which the existing tests passed, and was run on head, with the class of its base
  -- and head runs.
  pub run_intent_aware_sound :
      (max : ℕ)
      → Triple I
          (run_intent_aware h prompts context target max)
          (λ hs w. I w × (All (IsHarvest Seen) hs × (length hs ≤ max)))
          R
  unfolding run_intent_aware
  run_intent_aware_sound max =
      Triple-bind _ _ (keeps.generates _) λ raw. risks_sound (parse_risks h.redact raw)
    where
      mutants_sound :
          (risks : List Text) (ms : List Mutant)
          → Triple I
              (from_mutants h prompts context target max risks ms)
              (λ hs w. I w × (All (IsHarvest Seen) hs × (length hs ≤ max)))
              R
      mutants_sound risks [] = Triple-pure [] λ w i. (i, (tt, omega arith))
      mutants_sound risks (m ∷ ms) =
          Triple-bind _ _ (validate_mutants_sound (take max (attach_risks (m ∷ ms) risks)) [] tt)
            λ vs. Triple-fact λ u. Triple-weaken (harvest_sound vs [] u.0 tt) λ hs w p. (
              p.0,
              (
                p.1.0,
                omega (arith, p.1.1, u.1, length-take-le {0} max (attach_risks (m ∷ ms) risks)),
              ),
            )

      risks_sound :
          (risks : List Text)
          → Triple I
              (from_risks h prompts context target max risks)
              (λ hs w. I w × (All (IsHarvest Seen) hs × (length hs ≤ max)))
              R
      risks_sound [] = Triple-pure [] λ w i. (i, (tt, omega arith))
      risks_sound (r ∷ rs) = Triple-bind _ _ (keeps.generates _) λ raw. mutants_sound (r ∷ rs) _
