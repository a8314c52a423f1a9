-- ===== src/Orchestrator/Drive/Completes.antt =====
-- A run whose collaborators do not fail comes to its end, and every target of it is done.
-- A computation that cannot fail ends with a value.
use jitgen.Orchestrator.Drive.{
  Codec, RunError, drive_from, drive_target, drive_targets, load_or_process, process_step,
  sanitize_id, step_key,
}
use jitgen.Orchestrator.Drive.Ops.{Both}
use jitgen.Orchestrator.Drive.Reload.{AllCheckpointed}
use jitgen.Orchestrator.Drive.Rerun.{Distinct, drive_targets-AllCheckpointed}
use jitgen.Orchestrator.Drive.Total.{
  Changed-Ready, Decodable, Never, Ready, Storable, after_process-total, lift-total, look-total,
  require_step-total, saved-total, update-total,
}
use jitgen.Orchestrator.Drive.Stored.{AllFinite, SameOutcomes, StoresOutcomes}
use jitgen.Orchestrator.Process.{RankedTarget, TargetOutcome}
use jitgen.Prelude.{List, Option, [], none, refl, some, ℕ, ◌++◌, ◌+◌, ◌∷◌, ◌≡◌}
use jitgen.Prelude.Effect.{Exec, Post, Returns, Triple, Triple-bind, Triple-fact, Triple-pure}
use jitgen.Prelude.Int.{pos}
use jitgen.Prelude.Result.{Result, err, ok}
use jitgen.Prelude.Str.{Text, codes}
use jitgen.State.Model.{StepRow}
use jitgen.State.Store.{RunDb, begin_row, record_step, step}
use jitgen.State.Store.Changes.{begin_step_lem, record_step_lem}

ends_ok :
    {W E A : Type 0} (Q : A → W → Type 0) (r : Result E A × W)
    → Post Q (λ e w. ⊥) r
    → (a : A) × (w : W) × (r ≡ (ok a, w)) × Q a w
ends_ok Q (ok a, w) p = (a, w, refl, p)
ends_ok Q (err e, w) p = absurd p

both_ends :
    {W E A : Type 0} (Q : A → W → Type 0) (G : A → Type 0) (r : Result E A × W)
    → Post Q (λ e w. ⊥) r
    → Post (λ a w. G a) (λ e w. Unit {0}) r
    → Post (λ a w. Q a w × G a) (λ e w. ⊥) r
both_ends Q G (ok a, w) p q = (p, q)
both_ends Q G (err e, w) p q = p

module _ {W F : Type 0} (codec : Codec F) (config_fp : Text)
    (process : RankedTarget F → Exec W RunError (TargetOutcome F)) (I : W → Type 0)
    (hashes : (rt : RankedTarget F) → (hash : Text) × (codec.target_hash rt config_fp ≡ ok hash))
    (finite : F → Type 0) (storing : StoresOutcomes codec finite)
    (processes : (rt : RankedTarget F)
      → Triple I (process rt) (λ o w. I w × Storable codec o) (λ e w. ⊥))
    (finishes : (rt : RankedTarget F) → Returns (process rt) (AllFinite finite)) where
  load_or_process-total :
      (rt : RankedTarget F) (row : StepRow) (o : Option (TargetOutcome F))
      → Triple
          (Both I (Ready codec (sanitize_id rt.target.id) row))
          (load_or_process codec config_fp process (sanitize_id rt.target.id) rt o)
          (λ x s. Both I (Decodable codec) s)
          Never
  unfolding load_or_process process_step
  load_or_process-total rt row (some x) = Triple-pure x λ s p. (p.0.0, p.1)
  load_or_process-total rt row none =
      let id = sanitize_id rt.target.id in
      Triple-bind _ _
        (update-total codec config_fp process I (Ready codec id row)
          (Ready codec id (begin_row row)) _
          λ db ready.
            let (after, e, c) = begin_step_lem (step_key id) db row ready.1 in
            (after, e, Changed-Ready codec id db after (begin_row row) ready.0 c))
        λ u. record {
          run = λ (db, w) p.
              after_process-total codec config_fp process I storing rt.target.id (begin_row row) db
                (process rt w) p.0
                (both_ends _ (AllFinite finite) (process rt w) ((processes rt).run w p.1)
                  ((finishes rt).run w tt));
        }

  drive_target-total :
      (i : ℕ) (rt : RankedTarget F)
      → Triple
          (Both I (Decodable codec))
          (drive_target codec config_fp process i rt)
          (λ o s. Both I (Decodable codec) s)
          Never
  unfolding drive_target
  drive_target-total i rt =
      let id = sanitize_id rt.target.id in
      let (h, hashed) = hashes rt in
      Triple-bind _ _
        (lift-total codec config_fp process I (Decodable codec) (codec.target_hash rt config_fp) h
          hashed)
        λ hash. Triple-fact λ same.
          Triple-bind _ _
            (update-total codec config_fp process I (Decodable codec)
              (λ db. (row : StepRow) × Ready codec id row db)
              (λ db. ok (record_step (step_key id) (pos i) (codes "target") hash db))
              λ db d.
                let r = record_step_lem (step_key id) (pos i) (codes "target") hash db in
                (
                  record_step (step_key id) (pos i) (codes "target") hash db,
                  refl,
                  (r.row, Changed-Ready codec id db _ r.row d r.changed),
                ))
            λ u.
              Triple-bind _ _
                (look-total codec config_fp process I
                  (λ db. (row : StepRow) × Ready codec id row db) (step (step_key id)))
                λ found.
                  Triple-bind _ _ (require_step-total codec config_fp process I id found) λ row.
                    Triple-bind _ _ (saved-total codec config_fp process I id row)
                      λ o. load_or_process-total rt row o

  drive_from-total :
      (i : ℕ) (rts : List (RankedTarget F)) (acc : List (TargetOutcome F))
      → Triple
          (Both I (Decodable codec))
          (drive_from codec config_fp process i rts acc)
          (λ os s. Both I (Decodable codec) s)
          Never
  unfolding drive_from
  drive_from-total i [] acc = Triple-pure acc λ s p. p
  drive_from-total i (rt ∷ rts) acc =
      Triple-bind _ _ (drive_target-total i rt) λ o. drive_from-total (i + 1) rts (acc ++ o ∷ [])

  -- If inputs can be hashed, an outcome with finite probabilities that was stored reads back as the same
  -- but for these, and processing ends, from any world, with finite probabilities if it ends with an
  -- outcome, and from a world with `I` ends with `I` and with an outcome that can be stored, then the loop over targets with
  -- distinct sanitized ids, from a state whose artifacts decode, ends without an error: every target
  -- has its done step and an artifact that decodes as its outcome but for the probabilities, the state's artifacts
  -- decode again, and the world has `I`.
  pub drive_targets-completes :
      (ranked : List (RankedTarget F)) (db : RunDb) (w : W)
      → Distinct ranked
      → Decodable codec db
      → I w
      → (os : List (TargetOutcome F)) × (s : RunDb × W) × (drive_targets codec config_fp process
            ranked
            (db, w)
          ≡ (ok os, s))
        × ((ps : List (TargetOutcome F)) × SameOutcomes os ps
            × AllCheckpointed codec config_fp s.0 0 ranked ps)
        × Both I (Decodable codec) s
  unfolding drive_targets
  drive_targets-completes ranked db w d decodable i =
      let (os, s, e, p) =
        ends_ok (λ os s. Both I (Decodable codec) s) _
          ((drive_from-total 0 ranked []).run (db, w) (decodable, i)) in
      (
        os,
        s,
        e,
        drive_targets-AllCheckpointed codec config_fp process finite storing finishes ranked os db
            s.0 w s.1 d e,
        p,
      )
