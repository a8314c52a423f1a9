-- ===== src/Orchestrator/Drive/Rerun.antt =====
-- A run that has succeeded leaves every target checkpointed, so that it can be repeated for nothing.
use jitgen.Orchestrator.Drive.{
  Codec, RunError, drive_from, drive_target, drive_targets, sanitize_id, step_key,
}
use jitgen.Orchestrator.Drive.Framed.{Checkpointed-Undisturbed, Undisturbed}
use jitgen.Orchestrator.Drive.Reload.{AllCheckpointed, Checkpointed, drive_targets-reload}
use jitgen.Orchestrator.Drive.Staged.{
  AnyEnd, On, Saved, Staged, lift-On, load_or_process-On, look-On, record_On, require_On, saved-On,
}
use jitgen.Orchestrator.Drive.Stored.{AllFinite, SameOutcome, SameOutcomes, StoresOutcomes}
use jitgen.Orchestrator.Process.{RankedTarget, TargetOutcome}
use jitgen.Prelude.{
  List, [], append-nil, append_assoc, false, subst, sym, ℕ, ◌++◌, ◌+◌, ◌∙◌, ◌∷◌, ◌≡◌,
}
use jitgen.Prelude.Effect.{
  Exec, Post, Returns, Triple, Triple-bind, Triple-fact, Triple-pure, Triple-weaken,
}
use jitgen.Prelude.Result.{ok}
use jitgen.Prelude.Str.{Text, text_eq}
use jitgen.State.Model.{StepRow}
use jitgen.State.Store.{RunDb, step}

module _ {F : Type 0} where
  -- The targets work on other steps and artifacts than `rt`.
  abbrev pub Apart : RankedTarget F → List (RankedTarget F) → Type 0
  Apart rt [] = Unit
  Apart rt (r ∷ rs) =
      (text_eq (sanitize_id r.target.id) (sanitize_id rt.target.id) ≡ false) × Apart rt rs

  abbrev pub Distinct : List (RankedTarget F) → Type 0
  Distinct [] = Unit
  Distinct (rt ∷ rts) = Apart rt rts × Distinct rts

  -- What the work on each of the targets leaves alone.
  abbrev AllUndisturbed : (RunDb → Type 0) → List (RankedTarget F) → Type 0
  AllUndisturbed D [] = Unit
  AllUndisturbed D (rt ∷ rts) = Undisturbed D (sanitize_id rt.target.id) × AllUndisturbed D rts

  AllUndisturbed-any : (rts : List (RankedTarget F)) → AllUndisturbed (λ db. Unit {0}) rts
  AllUndisturbed-any [] = tt
  AllUndisturbed-any (rt ∷ rts) = ((λ before after f p. tt), AllUndisturbed-any rts)

  -- The step of the target is done, and its artifact decodes as the outcome but for the probabilities.
  abbrev Stored : Codec F → Text → RunDb → ℕ → RankedTarget F → TargetOutcome F → Type 0
  Stored codec config_fp db i rt o =
      (p : TargetOutcome F) × SameOutcome o p × Checkpointed codec config_fp db i rt p

  abbrev AllStored :
      Codec F → Text → RunDb → ℕ → List (RankedTarget F) → List (TargetOutcome F) → Type 0
  AllStored codec config_fp db i [] [] = Unit
  AllStored codec config_fp db i [] (o ∷ os) = ⊥
  AllStored codec config_fp db i (rt ∷ rts) [] = ⊥
  AllStored codec config_fp db i (rt ∷ rts) (o ∷ os) =
      Stored codec config_fp db i rt o × AllStored codec config_fp db (i + 1) rts os

  AllStored-AllCheckpointed :
      (codec : Codec F) (config_fp : Text) (db : RunDb) (i : ℕ) (rts : List (RankedTarget F))
      (os : List (TargetOutcome F))
      → AllStored codec config_fp db i rts os
      → (ps : List (TargetOutcome F)) × SameOutcomes os ps
        × AllCheckpointed codec config_fp db i rts ps
  AllStored-AllCheckpointed codec config_fp db i [] [] a = ([], tt, tt)
  AllStored-AllCheckpointed codec config_fp db i [] (o ∷ os) a = absurd a
  AllStored-AllCheckpointed codec config_fp db i (rt ∷ rts) [] a = absurd a
  AllStored-AllCheckpointed codec config_fp db i (rt ∷ rts) (o ∷ os) ((p, same, c), a) =
      let (ps, sames, cs) = AllStored-AllCheckpointed codec config_fp db (i + 1) rts os a in
      (p ∷ ps, (same, sames), (c, cs))

  AllUndisturbed-Checkpointed :
      (codec : Codec F) (config_fp : Text) (D : RunDb → Type 0) (i : ℕ) (rt : RankedTarget F)
      (o : TargetOutcome F) (rts : List (RankedTarget F))
      → Apart rt rts
      → AllUndisturbed D rts
      → AllUndisturbed (λ db. D db × Stored codec config_fp db i rt o) rts
  AllUndisturbed-Checkpointed codec config_fp D i rt o [] a k = tt
  AllUndisturbed-Checkpointed codec config_fp D i rt o (r ∷ rs) a k = (
    λ before after f p. (
      k.0 before after f p.0,
      let (q, same, c) = p.1 in
          (
            q,
            same,
            Checkpointed-Undisturbed codec config_fp i rt q (sanitize_id r.target.id) a.0 before
                after f c,
          ),
    ),
    AllUndisturbed-Checkpointed codec config_fp D i rt o rs a.1 k.1,
  )

module _ {W F : Type 0} (codec : Codec F) (config_fp : Text)
    (process : RankedTarget F → Exec W RunError (TargetOutcome F)) (finite : F → Type 0)
    (storing : StoresOutcomes codec finite)
    (finishes : (rt : RankedTarget F) → Returns (process rt) (AllFinite finite)) where
  Saved-Checkpointed :
      (D : RunDb → Type 0) (i : ℕ) (rt : RankedTarget F) (hash : Text)
      (keeps : Undisturbed D (sanitize_id rt.target.id)) (o : TargetOutcome F) (db : RunDb)
      → codec.target_hash rt config_fp ≡ ok hash
      → Saved codec config_fp process finite storing finishes D i hash
          (sanitize_id rt.target.id)
          keeps
          o
          db
      → D db × Stored codec config_fp db i rt o
  Saved-Checkpointed D i rt hash keeps o db e (row, a, done, (bytes, file, (p, kept, decoded))) = (
    a.rest,
    (
      p,
      kept,
      record {
        hash = hash;
        hashed = e;
        row = row;
        here = a.here;
        same = a.same;
        done = done;
        bytes = bytes;
        file = file;
        decoded = decoded;
      },
    ),
  )

  drive_target-On :
      (D : RunDb → Type 0) (i : ℕ) (rt : RankedTarget F)
      → Undisturbed D (sanitize_id rt.target.id)
      → Triple
          (On D)
          (drive_target codec config_fp process i rt)
          (λ o s. On (λ db. D db × Stored codec config_fp db i rt o) s)
          AnyEnd
  unfolding drive_target
  drive_target-On D i rt keeps =
      let id = sanitize_id rt.target.id in
      Triple-bind _ _
        (lift-On codec config_fp process finite storing finishes D (codec.target_hash rt config_fp))
        λ hash. Triple-fact λ e.
          Triple-bind _ _
            (record_On codec config_fp process finite storing finishes D i hash id keeps)
            λ u.
              Triple-bind _ _
                (look-On codec config_fp process finite storing finishes
                  (λ db.
                    (row : StepRow) × Staged codec config_fp process finite storing finishes D i
                      hash id keeps row db)
                  (step (step_key id)))
                λ found.
                  Triple-bind _ _
                    (require_On codec config_fp process finite storing finishes D i hash id keeps
                      found)
                    λ row.
                      Triple-bind _ _
                        (saved-On codec config_fp process finite storing finishes D i hash id keeps
                          row)
                        λ o.
                          Triple-weaken
                            (load_or_process-On codec config_fp process finite storing finishes D i
                              hash id keeps rt row o)
                            λ x s p. Saved-Checkpointed D i rt hash keeps x s.0 e p

  drive_from-On :
      (D : RunDb → Type 0) (i : ℕ) (rts : List (RankedTarget F)) (acc : List (TargetOutcome F))
      → AllUndisturbed D rts
      → Distinct rts
      → Triple
          (On D)
          (drive_from codec config_fp process i rts acc)
          (λ os s.
            On
              (λ db.
                D db
                × ((new : List (TargetOutcome F)) × (os ≡ acc ++ new)
                    × AllStored codec config_fp db i rts new))
              s)
          AnyEnd
  unfolding drive_from
  drive_from-On D i [] acc k d = Triple-pure acc λ s p. (p, ([], sym (append-nil acc), tt))
  drive_from-On D i (rt ∷ rts) acc k d = Triple-bind _ _ (drive_target-On D i rt k.0) λ o.
      Triple-weaken
        (drive_from-On (λ db. D db × Stored codec config_fp db i rt o) (i + 1) rts (acc ++ o ∷ [])
          (AllUndisturbed-Checkpointed codec config_fp D i rt o rts d.0 k.1) d.1)
        λ os s p. (p.0.0, (o ∷ p.1.0, p.1.1 ∙ append_assoc acc (o ∷ []) p.1.0, (p.0.1, p.1.2)))

  pub drive_targets-AllCheckpointed :
      (ranked : List (RankedTarget F)) (os : List (TargetOutcome F)) (db after : RunDb) (w w' : W)
      → Distinct ranked
      → drive_targets codec config_fp process ranked (db, w) ≡ (ok os, (after, w'))
      → (ps : List (TargetOutcome F)) × SameOutcomes os ps
        × AllCheckpointed codec config_fp after 0 ranked ps
  unfolding drive_targets
  drive_targets-AllCheckpointed ranked os db after w w' d e =
      let p =
        subst
          (Post
            (λ os s.
              On
                (λ db.
                  Unit {0}
                  × ((new : List (TargetOutcome F)) × (os ≡ [] ++ new)
                      × AllStored codec config_fp db 0 ranked new))
                s)
            AnyEnd)
          e
          ((drive_from-On (λ db. Unit {0}) 0 ranked [] (AllUndisturbed-any ranked) d).run (db, w)
            tt) in
      AllStored-AllCheckpointed codec config_fp after 0 ranked os
        (subst (AllStored codec config_fp after 0 ranked) (sym p.1.1) p.1.2)

  -- If the targets have distinct sanitized ids, an outcome with finite probabilities that was stored reads
  -- back as the same but for these, and processing gives finite probabilities, then a loop that has
  -- succeeded can be repeated, with whatever processing and in whatever world: it returns outcomes that
  -- are the same each time and equal to the first ones but for the probabilities of catches, processes
  -- nothing, and leaves the run's state as it is.
  pub drive_targets-rerun :
      (ranked : List (RankedTarget F)) (os : List (TargetOutcome F)) (db after : RunDb) (w w' : W)
      → Distinct ranked
      → drive_targets codec config_fp process ranked (db, w) ≡ (ok os, (after, w'))
      → (ps : List (TargetOutcome F)) × SameOutcomes os ps
        × ((other : RankedTarget F → Exec W RunError (TargetOutcome F)) (v : W)
            → drive_targets codec config_fp other ranked (after, v) ≡ (ok ps, (after, v)))
  drive_targets-rerun ranked os db after w w' d e =
      let (ps, same, c) = drive_targets-AllCheckpointed ranked os db after w w' d e in
      (ps, same, λ other v. drive_targets-reload codec config_fp other after v ranked ps c)
