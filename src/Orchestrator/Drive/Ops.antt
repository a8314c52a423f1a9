-- ===== src/Orchestrator/Drive/Ops.antt =====
-- Operations on the run's state inside the loop over targets.
use jitgen.Orchestrator.Drive.{Codec, RunError, lift, look, update, update_by}
use jitgen.Orchestrator.Drive.Checkpoint.{Loadable}
use jitgen.Orchestrator.Process.{RankedTarget, TargetOutcome}
use jitgen.Prelude.{refl, ◌≡◌}
use jitgen.Prelude.Effect.{Exec, Post, Triple}
use jitgen.Prelude.Result.{Result, err, ok}
use jitgen.Prelude.Str.{Text}
use jitgen.State.Model.{StateError}
use jitgen.State.Store.{RunDb}

-- A property of the run's state, beside the invariant of the world.
abbrev pub Both : {W : Type 0} → (W → Type 0) → (RunDb → Type 0) → RunDb × W → Type 0
Both I P s = P s.0 × I s.1

-- What every interruption leaves.
abbrev pub Left :
    {W F : Type 0}
    → Codec F
    → (Text → Text → TargetOutcome F → Type 0)
    → RunError
    → RunDb × W
    → Type 0
Left codec Good e s = Loadable codec Good s.0

module _ {W F : Type 0} (codec : Codec F) (config_fp : Text)
    (process : RankedTarget F → Exec W RunError (TargetOutcome F))
    (Good : Text → Text → TargetOutcome F → Type 0) (I : W → Type 0) where
  update_end :
      (Q : RunDb → Type 0) (r : Result StateError RunDb) (db : RunDb) (w : W)
      → Loadable codec Good db
      → I w
      → ((after : RunDb) → r ≡ ok after → Q after)
      → Post (λ _ s. Both I Q s) (Left codec Good) (update_by codec config_fp process r (db, w))
  unfolding update_by
  update_end Q (ok after) db w l i k = (k after refl, i)
  update_end Q (err e) db w l i k = l

  pub update_sound :
      (P Q : RunDb → Type 0) (change : RunDb → Result StateError RunDb)
      → ((db : RunDb) → P db → Loadable codec Good db)
      → ((db after : RunDb) → P db → change db ≡ ok after → Q after)
      → Triple
          (Both I P)
          (update codec config_fp process change)
          (λ _ s. Both I Q s)
          (Left codec Good)
  unfolding update
  update_sound P Q change l k = record {
    run = λ (db, w) p. update_end Q (change db) db w (l db p.0) p.1 (λ after e. k db after p.0 e);
  }

  pub lift_sound :
      {A : Type 0} (P : RunDb → Type 0) (r : Result RunError A)
      → ((db : RunDb) → P db → Loadable codec Good db)
      → Triple
          (Both I P)
          (lift codec config_fp process r)
          (λ a s. Both I P s × (r ≡ ok a))
          (Left codec Good)
  unfolding lift
  lift_sound P (ok a) l = record { run = λ s p. (p, refl) }
  lift_sound P (err e) l = record { run = λ s p. l s.0 p.0 }

  pub look_sound :
      {A : Type 0} (P : RunDb → Type 0) (get : RunDb → A)
      → Triple
          (Both I P)
          (look codec config_fp process get)
          (λ a s. Both I (λ db. P db × (get db ≡ a)) s)
          (Left codec Good)
  unfolding look
  look_sound P get = record { run = λ (db, w) p. ((p.0, refl), p.1) }
