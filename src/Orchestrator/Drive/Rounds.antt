-- ===== src/Orchestrator/Drive/Rounds.antt =====
-- The loop over targets: each round yields a good outcome, processed or loaded, and an interrupted loop
-- leaves a state that can be loaded from.
use jitgen.Orchestrator.Drive.{
  Codec, RunError, drive_from, drive_target, drive_targets, lift, load_or_process, process_step,
  require_step, sanitize_id, step_key,
}
use jitgen.Orchestrator.Drive.Checkpoint.{At, Loadable, recorded_At}
use jitgen.Orchestrator.Drive.Ops.{Both, Left, lift_sound, look_sound, update_sound}
use jitgen.Orchestrator.Drive.Steps.{Busy, after_process_sound, begin_sound, saved_sound}
use jitgen.Orchestrator.Drive.Stored.{AllFinite, SameOutcome, StoresOutcomes}
use jitgen.Orchestrator.Process.{RankedTarget, TargetOutcome}
use jitgen.Prelude.{
  List, Option, [], append-nil, append_assoc, none, refl, some, some_inj, subst, sym, ℕ, ◌++◌, ◌+◌,
  ◌∙◌, ◌∷◌, ◌≡◌,
}
use jitgen.Prelude.Effect.{Exec, Triple, Triple-bind, Triple-fact, Triple-pure, Triple-weaken}
use jitgen.Prelude.Int.{pos}
use jitgen.Prelude.Result.{ok, ok_inj}
use jitgen.Prelude.Str.{Text, codes}
use jitgen.State.Model.{StepRow}
use jitgen.State.Store.{step}

module _ {F : Type 0} (codec : Codec F) (config_fp : Text)
    (Good : Text → Text → TargetOutcome F → Type 0) where
  -- A good outcome for the target's inputs, under its id.
  abbrev pub GoodFor : RankedTarget F → TargetOutcome F → Type 0
  GoodFor rt o =
      (h : Text) × (codec.target_hash rt config_fp ≡ ok h) × Good (sanitize_id rt.target.id) h o

  -- One good outcome for each target, in order.
  abbrev pub Outcomes : List (RankedTarget F) → List (TargetOutcome F) → Type 0
  Outcomes [] [] = Unit
  Outcomes [] (o ∷ os) = ⊥
  Outcomes (rt ∷ rts) [] = ⊥
  Outcomes (rt ∷ rts) (o ∷ os) = GoodFor rt o × Outcomes rts os

module _ {W F : Type 0} (codec : Codec F) (config_fp : Text)
    (process : RankedTarget F → Exec W RunError (TargetOutcome F))
    (Good : Text → Text → TargetOutcome F → Type 0) (I : W → Type 0) (finite : F → Type 0)
    (storing : StoresOutcomes codec finite)
    (stays : (id h : Text) (o p : TargetOutcome F) → SameOutcome o p → Good id h o → Good id h p)
    (processes : (rt : RankedTarget F) (h : Text)
      → codec.target_hash rt config_fp ≡ ok h
      → Triple I
          (process rt)
          (λ o w. I w × Good (sanitize_id rt.target.id) h o × AllFinite finite o)
          (λ e w. Unit {0})) where
  process_step_sound :
      (rt : RankedTarget F) (h : Text)
      → codec.target_hash rt config_fp ≡ ok h
      → Triple
          (Both I (Busy codec Good (sanitize_id rt.target.id) h))
          (process_step codec config_fp process (sanitize_id rt.target.id) rt)
          (λ o s. Both I (Loadable codec Good) s × Good (sanitize_id rt.target.id) h o)
          (Left codec Good)
  unfolding process_step
  process_step_sound rt h e = record {
    run = λ (db, w) p.
        after_process_sound codec config_fp process Good I (sanitize_id rt.target.id) h storing
          (stays (sanitize_id rt.target.id) h) (process rt w) db p.0 ((processes rt h e).run w p.1);
  }

  load_or_process_sound :
      (rt : RankedTarget F) (h : Text) (row : StepRow) (o : Option (TargetOutcome F))
      → codec.target_hash rt config_fp ≡ ok h
      → ((x : TargetOutcome F) → o ≡ some x → Good (sanitize_id rt.target.id) h x)
      → Triple
          (Both I (At codec Good (sanitize_id rt.target.id) h row))
          (load_or_process codec config_fp process (sanitize_id rt.target.id) rt o)
          (λ x s. Both I (Loadable codec Good) s × Good (sanitize_id rt.target.id) h x)
          (Left codec Good)
  unfolding load_or_process
  load_or_process_sound rt h row (some x) e good =
      Triple-pure x λ s p. ((p.0.loadable, p.1), good x refl)
  load_or_process_sound rt h row none e good =
      Triple-bind _ _ (begin_sound codec config_fp process Good I (sanitize_id rt.target.id) h row)
        λ u. process_step_sound rt h e

  require_sound :
      (id h : Text) (found : Option StepRow)
      → Triple
          (Both I
            (λ db. ((row : StepRow) × At codec Good id h row db) × (step (step_key id) db ≡ found)))
          (lift codec config_fp process (require_step codec config_fp process found))
          (λ row s. Both I (At codec Good id h row) s)
          (Left codec Good)
  unfolding lift require_step step
  require_sound id h none = record { run = λ s p. p.0.0.1.loadable }
  require_sound id h (some r) = record {
    run = λ s p. (
      subst (λ q. At codec Good id h q s.0) (some_inj p.0.0.0 r (sym p.0.0.1.here ∙ p.0.1)) p.0.0.1,
      p.1,
    );
  }

  drive_target_sound :
      (i : ℕ) (rt : RankedTarget F)
      → Triple
          (Both I (Loadable codec Good))
          (drive_target codec config_fp process i rt)
          (λ o s. Both I (Loadable codec Good) s × GoodFor codec config_fp Good rt o)
          (Left codec Good)
  unfolding drive_target
  drive_target_sound i rt =
      let id = sanitize_id rt.target.id in
      Triple-bind _ _
        (lift_sound codec config_fp process Good I (Loadable codec Good)
          (codec.target_hash rt config_fp) (λ db l. l))
        λ h. Triple-fact λ e.
          Triple-bind _ _
            (update_sound codec config_fp process Good I (Loadable codec Good)
              (λ db. (row : StepRow) × At codec Good id h row db) _ (λ db l. l)
              λ db after l e'.
                subst (λ d. (row : StepRow) × At codec Good id h row d) (ok_inj _ after e')
                  (recorded_At codec Good id h (pos i) (codes "target") db l))
            λ u.
              Triple-bind _ _
                (look_sound codec config_fp process Good I
                  (λ db. (row : StepRow) × At codec Good id h row db) (step (step_key id)))
                λ found. Triple-bind _ _ (require_sound id h found) λ row.
                  Triple-bind _ _ (saved_sound codec config_fp process Good I id h row) λ o.
                    Triple-fact λ good.
                      Triple-weaken (load_or_process_sound rt h row o e good)
                        λ x s p. (p.0, (h, e, p.1))

  drive_from_sound :
      (i : ℕ) (ranked : List (RankedTarget F)) (acc : List (TargetOutcome F))
      → Triple
          (Both I (Loadable codec Good))
          (drive_from codec config_fp process i ranked acc)
          (λ os s.
            Both I (Loadable codec Good) s
            × ((new : List (TargetOutcome F)) × (os ≡ acc ++ new)
                × Outcomes codec config_fp Good ranked new))
          (Left codec Good)
  unfolding drive_from
  drive_from_sound i [] acc = Triple-pure acc λ s p. (p, ([], sym (append-nil acc), tt))
  drive_from_sound i (rt ∷ ranked) acc = Triple-bind _ _ (drive_target_sound i rt) λ o.
      Triple-fact λ good.
        Triple-weaken (drive_from_sound (i + 1) ranked (acc ++ o ∷ []))
          λ os s p. (p.0, (o ∷ p.1.0, p.1.1 ∙ append_assoc acc (o ∷ []) p.1.0, (good, p.1.2)))

  -- Provided that an outcome with finite probabilities that was stored reads back as the same but for
  -- these, that `Good` does not depend on them, and that processing gives good outcomes with finite
  -- probabilities (`Good id h o` for a target of the sanitized id `id` whose inputs have the hash `h`)
  -- and keeps `I`: from a state in which each done step with an artifact loads a good outcome, the
  -- loop that ends without an error returns one good outcome for each target, in order, processed
  -- or loaded, and leaves such a state and `I`; a loop that ends with an error leaves such a
  -- state too, so that it can be resumed.
  pub drive_targets_sound :
      (ranked : List (RankedTarget F))
      → Triple
          (Both I (Loadable codec Good))
          (drive_targets codec config_fp process ranked)
          (λ os s. Both I (Loadable codec Good) s × Outcomes codec config_fp Good ranked os)
          (Left codec Good)
  unfolding drive_targets
  drive_targets_sound ranked =
      Triple-weaken (drive_from_sound 0 ranked [])
        λ os s p. (p.0, subst (Outcomes codec config_fp Good ranked) (sym p.1.1) p.1.2)
