-- ===== src/Orchestrator/Drive/Reload.antt =====
-- A run that has finished is not run again: its outcomes are loaded.
use jitgen.Orchestrator.Drive.{
  Codec, RunError, artifact_key, drive_from, drive_target, drive_targets, found_one, lift,
  load_or_process, look, require_step, sanitize_id, saved, step_key, update,
}
use jitgen.Orchestrator.Process.{RankedTarget, TargetOutcome}
use jitgen.Prelude.{
  List, [], ap, append-nil, append_assoc, refl, some, true, ℕ, ◌++◌, ◌+◌, ◌∙◌, ◌∷◌, ◌≡◌,
}
use jitgen.Prelude.Effect.{Exec, pure, ◌>>=◌}
use jitgen.Prelude.Int.{pos}
use jitgen.Prelude.Result.{ok}
use jitgen.Prelude.Str.{Text, codes}
use jitgen.State.Model.{StepRow, is_done}
use jitgen.State.Store.{RunDb, find_file, find_step, same_inputs, step}
use jitgen.State.Store.Changes.{record_step-same}

module _ {F : Type 0} (codec : Codec F) (config_fp : Text) where
  -- The step of the target is done with these inputs, and its artifact decodes as the outcome.
  pub record Checkpointed (db : RunDb) (i : ℕ) (rt : RankedTarget F) (o : TargetOutcome F)
      : Type 0 where
    pub hash : Text
    pub hashed : codec.target_hash rt config_fp ≡ ok hash
    pub row : StepRow
    pub here : find_step (step_key (sanitize_id rt.target.id)) db.step_rows ≡ some row
    pub same : same_inputs (pos i) (codes "target") hash row ≡ true
    pub done : is_done row.status ≡ true
    pub bytes : Text
    pub file : find_file (artifact_key (sanitize_id rt.target.id)) db.files ≡ some bytes
    pub decoded : codec.decode_outcome bytes ≡ ok o

  abbrev pub AllCheckpointed : RunDb → ℕ → List (RankedTarget F) → List (TargetOutcome F) → Type 0
  AllCheckpointed db i [] [] = Unit
  AllCheckpointed db i [] (o ∷ os) = ⊥
  AllCheckpointed db i (rt ∷ rts) [] = ⊥
  AllCheckpointed db i (rt ∷ rts) (o ∷ os) =
      Checkpointed db i rt o × AllCheckpointed db (i + 1) rts os

  module _ {W : Type 0} (process : RankedTarget F → Exec W RunError (TargetOutcome F)) where
    drive_target-reload :
        (db : RunDb) (i : ℕ) (rt : RankedTarget F) (o : TargetOutcome F) (w : W)
        → Checkpointed db i rt o
        → drive_target codec config_fp process i rt (db, w) ≡ (ok o, (db, w))
    unfolding drive_target ◌>>=◌ pure update lift look require_step step saved load_or_process
        found_one
    drive_target-reload db i rt o w c =
        rw
          (
            c.hashed,
            record_step-same _ (pos i) _ c.hash db c.row c.here c.same,
            c.here,
            c.done,
            c.file,
            c.decoded,
          )
          refl

    drive_from-reload :
        (db : RunDb) (w : W) (i : ℕ) (rts : List (RankedTarget F)) (os acc : List (TargetOutcome F))
        → AllCheckpointed db i rts os
        → drive_from codec config_fp process i rts acc (db, w) ≡ (ok (acc ++ os), (db, w))
    unfolding drive_from ◌>>=◌ pure
    drive_from-reload db w i [] [] acc c = rw (append-nil acc) refl
    drive_from-reload db w i [] (o ∷ os) acc c = absurd c
    drive_from-reload db w i (rt ∷ rts) [] acc c = absurd c
    drive_from-reload db w i (rt ∷ rts) (o ∷ os) acc c = rw (drive_target-reload db i rt o w c.0) (
        drive_from-reload db w (i + 1) rts os (acc ++ o ∷ []) c.1
        ∙ ap (λ l. (ok l, (db, w))) (append_assoc acc (o ∷ []) os))

    -- When every target has a done step recorded with its sequence number, kind and hash, and an
    -- artifact that decodes, the loop returns the decoded outcomes in order and changes neither
    -- the run's state nor the world that processing acts on, whatever processing would do.
    pub drive_targets-reload :
        (db : RunDb) (w : W) (ranked : List (RankedTarget F)) (os : List (TargetOutcome F))
        → AllCheckpointed db 0 ranked os
        → drive_targets codec config_fp process ranked (db, w) ≡ (ok os, (db, w))
    unfolding drive_targets
    drive_targets-reload db w ranked os c = drive_from-reload db w 0 ranked os [] c
