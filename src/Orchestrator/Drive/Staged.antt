-- ===== src/Orchestrator/Drive/Staged.antt =====
-- The operations of one round, and that the step has its inputs and then its artifact.
use jitgen.Orchestrator.Drive.{
  Codec, RunError, after_process, artifact_key, decode_saved, found_one, lift, load_or_process,
  look, process_step, require_step, saved, step_key, update, update_by,
}
use jitgen.Orchestrator.Drive.Framed.{Changed-Framed, Undisturbed, published-Framed}
use jitgen.Orchestrator.Drive.Stored.{AllFinite, SameOutcome, SameOutcome-refl, StoresOutcomes}
use jitgen.Orchestrator.Process.{RankedTarget, TargetOutcome}
use jitgen.Prelude.{Option, ap, arith, none, refl, some, some_inj, subst, sym, true, ℕ, ◌∙◌, ◌≡◌}
use jitgen.Prelude.Effect.{
  Exec, Post, Returns, Triple, Triple-bind, Triple-fact, Triple-if, Triple-pure,
}
use jitgen.Prelude.Int.{pos}
use jitgen.Prelude.Result.{Result, err, ok, ok_inj}
use jitgen.Prelude.Str.{Text, codes}
use jitgen.State.Model.{StateError, StepRow, is_done, succeeded}
use jitgen.State.Store.{
  RunDb, begin_row, begin_step, find_file, find_step, finish_row, finish_step, publish_artifact,
  record_step, same_inputs, step,
}
use jitgen.State.Store.Changes.{
  Changed, begin_step_lem, finish_step_lem, publish_artifact_lem, record_step_lem,
}
use jitgen.State.Store.Lookup.{find_file-put_same}

-- A property of the run's state, whatever the world; an error may leave anything.
abbrev pub On : {W : Type 0} → (RunDb → Type 0) → RunDb × W → Type 0
On P s = P s.0

abbrev pub AnyEnd : {W : Type 0} → RunError → RunDb × W → Type 0
AnyEnd e s = Unit {0}

module _ {W F : Type 0} (codec : Codec F) (config_fp : Text)
    (process : RankedTarget F → Exec W RunError (TargetOutcome F)) (finite : F → Type 0)
    (storing : StoresOutcomes codec finite)
    (finishes : (rt : RankedTarget F) → Returns (process rt) (AllFinite finite)) where
  update_end :
      (Q : RunDb → Type 0) (r : Result StateError RunDb) (db : RunDb) (w : W)
      → ((after : RunDb) → r ≡ ok after → Q after)
      → Post (λ _ s. On Q s) AnyEnd (update_by codec config_fp process r (db, w))
  unfolding update_by
  update_end Q (ok after) db w k = k after refl
  update_end Q (err e) db w k = tt

  update-On :
      (P Q : RunDb → Type 0) (change : RunDb → Result StateError RunDb)
      → ((db after : RunDb) → P db → change db ≡ ok after → Q after)
      → Triple (On P) (update codec config_fp process change) (λ _ s. On Q s) AnyEnd
  unfolding update
  update-On P Q change k = record {
    run = λ (db, w) p. update_end Q (change db) db w λ after e. k db after p e;
  }

  pub lift-On :
      {A : Type 0} (P : RunDb → Type 0) (r : Result RunError A)
      → Triple (On P) (lift codec config_fp process r) (λ a s. On P s × (r ≡ ok a)) AnyEnd
  unfolding lift
  lift-On P (ok a) = record { run = λ s p. (p, refl) }
  lift-On P (err e) = record { run = λ s p. tt }

  pub look-On :
      {A : Type 0} (P : RunDb → Type 0) (get : RunDb → A)
      → Triple
          (On P)
          (look codec config_fp process get)
          (λ a s. On (λ db. P db × (get db ≡ a)) s)
          AnyEnd
  unfolding look
  look-On P get = record { run = λ (db, w) p. (p, refl) }

  module _ (D : RunDb → Type 0) (i : ℕ) (hash id : Text) (keeps : Undisturbed D id) where
    -- The step of the target is there with its inputs, and nothing else was disturbed.
    pub record Staged (row : StepRow) (db : RunDb) : Type 0 where
      pub rest : D db
      pub here : find_step (step_key id) db.step_rows ≡ some row
      pub same : same_inputs (pos i) (codes "target") hash row ≡ true

    Staged-Changed :
        (db after : RunDb) (row : StepRow)
        → D db
        → Changed (step_key id) db after row
        → same_inputs (pos i) (codes "target") hash row ≡ true
        → Staged row after
    Staged-Changed db after row rest c same = record {
      rest = keeps db after (Changed-Framed id db after row c) rest;
      here = c.here;
      same = same;
    }

    pub record_On :
        Triple
          (On D)
          (update codec config_fp process
            (λ db. ok (record_step (step_key id) (pos i) (codes "target") hash db)))
          (λ _ s. On (λ db. (row : StepRow) × Staged row db) s)
          AnyEnd
    record_On = update-On D _ _ λ db after rest e.
        subst (λ d. (row : StepRow) × Staged row d) (ok_inj _ after e)
          (let r = record_step_lem (step_key id) (pos i) (codes "target") hash db in
            (r.row, Staged-Changed db _ r.row rest r.changed r.inputs))

    begin_On :
        (row : StepRow)
        → Triple
            (On (Staged row))
            (update codec config_fp process (begin_step (step_key id)))
            (λ _ s. On (Staged (begin_row row)) s)
            AnyEnd
    unfolding begin_row same_inputs
    begin_On row = update-On (Staged row) _ _ λ db after a e.
        let (db', e', c) = begin_step_lem (step_key id) db row a.here in
        subst (Staged (begin_row row)) (ok_inj db' after (sym e' ∙ e))
          (Staged-Changed db db' (begin_row row) a.rest c a.same)

    publish_On :
        (row : StepRow) (bytes : Text)
        → Triple
            (On (Staged row))
            (update codec config_fp process (
              publish_artifact codec.sha256_hex
                (artifact_key id)
                bytes
                (codes "target")
                (step_key id)))
            (λ _ s.
              On (λ db. Staged row db × (find_file (artifact_key id) db.files ≡ some bytes)) s)
            AnyEnd
    publish_On row bytes = update-On (Staged row) _ _ λ db after a e.
        let (rows, fs) =
          publish_artifact_lem codec.sha256_hex (artifact_key id) bytes (codes "target")
            (step_key id) db after e in
        (
          record {
            rest =
                keeps db after
                  (published-Framed codec.sha256_hex id bytes (codes "target") db after e) a.rest;
            here = ap (find_step (step_key id)) rows ∙ a.here;
            same = a.same;
          },
          ap (find_file (artifact_key id)) fs ∙ find_file-put_same (artifact_key id) bytes db.files,
        )

    -- The step is done and has an artifact that decodes as the outcome.
    abbrev pub Saved : TargetOutcome F → RunDb → Type 0
    Saved o db =
        (row : StepRow) × Staged row db
        × (is_done row.status ≡ true)
        × ((bytes : Text) × (find_file (artifact_key id) db.files ≡ some bytes)
            × ((p : TargetOutcome F) × SameOutcome o p × (codec.decode_outcome bytes ≡ ok p)))

    finish_On :
        (row : StepRow) (bytes : Text) (o : TargetOutcome F)
        → ((p : TargetOutcome F) × SameOutcome o p × (codec.decode_outcome bytes ≡ ok p))
        → Triple
            (On (λ db. Staged row db × (find_file (artifact_key id) db.files ≡ some bytes)))
            (update codec config_fp process (finish_step (step_key id) succeeded none))
            (λ _ s. On (Saved o) s)
            AnyEnd
    unfolding finish_row same_inputs is_done
    finish_On row bytes o decoded = update-On _ (Saved o) _ λ db after (a, file) e.
        let (db', e', c) = finish_step_lem (step_key id) succeeded none db row a.here in
        subst (Saved o) (ok_inj db' after (sym e' ∙ e)) (
          finish_row succeeded none row,
          Staged-Changed db db' (finish_row succeeded none row) a.rest c a.same,
          refl,
          (bytes, ap (find_file (artifact_key id)) c.same_files ∙ file, decoded),
        )

    after_process-On :
        (row : StepRow) (r : Result RunError (TargetOutcome F) × W) (db : RunDb)
        → Staged row db
        → Post (λ o w. AllFinite finite o) (λ e w. Unit {0}) r
        → Post (λ o s. On (Saved o) s) AnyEnd (after_process codec config_fp process id db r)
    unfolding after_process
    after_process-On row (err e, w) db a fin = tt
    after_process-On row (ok o, w) db a fin =
        (Triple-bind _ _ (lift-On (Staged row) (codec.encode_outcome o)) λ bytes.
            Triple-fact λ encoded. Triple-bind _ _ (publish_On row bytes) λ u.
              Triple-bind _ _
                (finish_On row bytes o
                  (let (p, e, same) = storing.reads_back o bytes fin encoded in (p, same, e)))
                λ v. Triple-pure o λ s p. p).run
          (db, w) a

    -- What is loaded of a step.
    abbrev pub Recovered : StepRow → Option (TargetOutcome F) → RunDb → Type 0
    Recovered row o db = Staged row db × ((x : TargetOutcome F) → o ≡ some x → Saved x db)

    pub load_or_process-On :
        (rt : RankedTarget F) (row : StepRow) (o : Option (TargetOutcome F))
        → Triple
            (On (Recovered row o))
            (load_or_process codec config_fp process id rt o)
            (λ x s. On (Saved x) s)
            AnyEnd
    unfolding load_or_process process_step
    load_or_process-On rt row (some x) = Triple-pure x λ s p. p.1 x refl
    load_or_process-On rt row none =
        Triple-bind _ _ (record { run = λ s p. (begin_On row).run s p.0 })
          λ u. record {
            run = λ (db, w) p.
                after_process-On (begin_row row) (process rt w) db p ((finishes rt).run w tt);
          }

    found_On :
        (row : StepRow) (bytes : Text) (r : Result RunError (TargetOutcome F)) (s : RunDb × W)
        → codec.decode_outcome bytes ≡ r
        → is_done row.status ≡ true
        → find_file (artifact_key id) (s.0).files ≡ some bytes
        → Staged row s.0
        → Post (λ o s. On (Recovered row o) s) AnyEnd (found_one codec config_fp process r, s)
    unfolding found_one
    found_On row bytes (ok o) s e done file a = (
      a,
      λ x q. (row, a, done, (bytes, file, (x, SameOutcome-refl x, e ∙ ap ok (some_inj o x q)))),
    )
    found_On row bytes (err e) s q done file a = tt

    decoded_On :
        (row : StepRow) (bytes : Option Text) (s : RunDb × W)
        → is_done row.status ≡ true
        → find_file (artifact_key id) (s.0).files ≡ bytes
        → Staged row s.0
        → Post
            (λ o s. On (Recovered row o) s)
            AnyEnd
            (decode_saved codec config_fp process bytes, s)
    unfolding decode_saved
    decoded_On row none s done file a = (a, λ x q. absurd (ground (arith, q)))
    decoded_On row (some b) s done file a =
        found_On row b (codec.decode_outcome b) s refl done file a

    pub saved-On :
        (row : StepRow)
        → Triple
            (On (Staged row))
            (saved codec config_fp process row id)
            (λ o s. On (Recovered row o) s)
            AnyEnd
    unfolding saved lift
    saved-On row =
        Triple-if (is_done row.status) _ _
          (λ done.
            Triple-bind _ _ (look-On (Staged row) (λ db. find_file (artifact_key id) db.files))
              λ bytes. record { run = λ s p. decoded_On row bytes s done p.1 p.0 })
          (λ fresh. Triple-pure none λ s p. (p, λ x e. absurd (ground (arith, e))))

    pub require_On :
        (found : Option StepRow)
        → Triple
            (On (λ db. ((row : StepRow) × Staged row db) × (step (step_key id) db ≡ found)))
            (lift codec config_fp process (require_step codec config_fp process found))
            (λ row s. On (Staged row) s)
            AnyEnd
    unfolding lift require_step step
    require_On none = record { run = λ s p. tt }
    require_On (some r) = record {
      run = λ s p. subst (λ q. Staged q s.0) (some_inj p.0.0 r (sym p.0.1.here ∙ p.1)) p.0.1;
    }
