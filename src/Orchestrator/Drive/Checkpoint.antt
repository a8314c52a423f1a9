-- ===== src/Orchestrator/Drive/Checkpoint.antt =====
-- The state of a run stays loadable: what a done step left behind is what processing gave.
use jitgen.Orchestrator.Drive.{Codec, artifact_key, step_key}
use jitgen.Orchestrator.Drive.Keys.{artifact_key-distinct, step_key-distinct}
use jitgen.Orchestrator.Process.{TargetOutcome}
use jitgen.Prelude.{Option, ap, arith, false, inl, inr, some, some_inj, subst, sym, true, ◌∙◌, ◌≡◌}
use jitgen.Prelude.Int.{ℤ}
use jitgen.Prelude.Result.{ok}
use jitgen.Prelude.Str.{Text}
use jitgen.State.Model.{StepRow, StepStatus, is_done}
use jitgen.State.Store.{
  RunDb, begin_row, begin_step, find_file, find_step, finish_row, finish_step, publish_artifact,
  record_step,
}
use jitgen.State.Store.Changes.{
  Changed, begin_step_lem, finish_step_lem, publish_artifact_lem, record_step_lem,
}
use jitgen.State.Store.Lookup.{find_file-put_other, find_file-put_same, key_cases}

module _ {F : Type 0} (codec : Codec F) (Good : Text → Text → TargetOutcome F → Type 0) where
  -- An artifact that holds a good outcome for the inputs with the hash `h`.
  abbrev pub Loads : Text → Text → Text → Type 0
  Loads id h bytes = (o : TargetOutcome F) × (codec.decode_outcome bytes ≡ ok o) × Good id h o

  -- Whenever a step is done and its artifact is there, the artifact loads.
  abbrev pub Loadable : RunDb → Type 0
  Loadable db =
      (id : Text) (row : StepRow)
      → find_step (step_key id) db.step_rows ≡ some row
      → is_done row.status ≡ true
      → (bytes : Text) → find_file (artifact_key id) db.files ≡ some bytes
      → Loads id row.input_hash bytes

  -- The step of `id` is there, with the hash `h`, and the state is loadable.
  pub record At (id h : Text) (row : StepRow) (db : RunDb) : Type 0 where
    pub loadable : Loadable db
    pub here : find_step (step_key id) db.step_rows ≡ some row
    pub hashed : row.input_hash ≡ h

  -- A change of one step, which is done only if its artifact loads, keeps the state loadable.
  pub Changed-Loadable :
      (id : Text) (db after : RunDb) (row : StepRow)
      → Loadable db
      → Changed (step_key id) db after row
      → (is_done row.status ≡ true
          → (bytes : Text) → find_file (artifact_key id) db.files ≡ some bytes
          → Loads id row.input_hash bytes)
      → Loadable after
  Changed-Loadable id db after row l c mine other r found done bytes file =
      elim (key_cases id other) [
        | inl same ↦
            subst (λ x. Loads x r.input_hash bytes) same
              (let e =
                  some_inj row r (
                    sym c.here ∙ (ap (λ x. find_step (step_key x) after.step_rows) same ∙ found)) in
                subst (λ q. Loads id q.input_hash bytes) e
                  (mine (ap (λ q. is_done q.status) e ∙ done) bytes (
                    ap (λ x. find_file (artifact_key x) db.files) same
                    ∙ (ap (find_file (artifact_key other)) (sym c.same_files) ∙ file))))
        | inr d ↦
            l other r (sym (c.others (step_key other) (step_key-distinct id other d)) ∙ found) done
              bytes (ap (find_file (artifact_key other)) (sym c.same_files) ∙ file)
      ]

  pub recorded_At :
      (id h : Text) (seq : ℤ) (kind : Text) (db : RunDb)
      → Loadable db
      → (row : StepRow) × At id h row (record_step (step_key id) seq kind h db)
  recorded_At id h seq kind db l =
      let r = record_step_lem (step_key id) seq kind h db in
      (
        r.row,
        record {
          loadable =
              Changed-Loadable id db _ r.row l r.changed
                (λ done bytes file. l id r.row (r.done_before done) done bytes file);
          here = r.changed.here;
          hashed = r.hashed;
        },
      )

  pub begun_At :
      (id h : Text) (db : RunDb) (row : StepRow)
      → At id h row db
      → (after : RunDb) × (begin_step (step_key id) db ≡ ok after) × At id h (begin_row row) after
  unfolding begin_row is_done
  begun_At id h db row a =
      let (after, e, c) = begin_step_lem (step_key id) db row a.here in
      (
        after,
        e,
        record {
          loadable =
              Changed-Loadable id db after (begin_row row) a.loadable c
                (λ done bytes file. absurd (ground (arith, done)));
          here = c.here;
          hashed = a.hashed;
        },
      )

  pub finish_step-Loadable :
      (id h : Text) (status : StepStatus) (error : Option Text) (db : RunDb) (row : StepRow)
      → At id h row db
      → (is_done status ≡ true
          → (bytes : Text) → find_file (artifact_key id) db.files ≡ some bytes
          → Loads id h bytes)
      → (after : RunDb) × (finish_step (step_key id) status error db ≡ ok after) × Loadable after
  unfolding finish_row
  finish_step-Loadable id h status error db row a mine =
      let (after, e, c) = finish_step_lem (step_key id) status error db row a.here in
      (
        after,
        e,
        Changed-Loadable id db after (finish_row status error row) a.loadable c (λ done bytes file.
            subst (λ x. Loads id x bytes) (sym a.hashed) (mine done bytes file)),
      )

  -- A new artifact of a step that is not done keeps the state loadable, and is then there.
  pub published_At :
      (id h bytes kind : Text) (db after : RunDb) (row : StepRow)
      → At id h row db
      → is_done row.status ≡ false
      → publish_artifact codec.sha256_hex (artifact_key id) bytes kind (step_key id) db ≡ ok after
      → At id h row after × (find_file (artifact_key id) after.files ≡ some bytes)
  published_At id h bytes kind db after row a open_step e =
      let (rows, fs) =
        publish_artifact_lem codec.sha256_hex (artifact_key id) bytes kind (step_key id) db after
          e in
      (
        record {
          loadable = λ other r found done b file. elim (key_cases id other) [
            | inl same ↦ absurd (
                let q = some_inj row r (
                  sym a.here
                  ∙ (ap (λ x. find_step (step_key x) db.step_rows) same
                      ∙ (ap (find_step (step_key other)) (sym rows) ∙ found))) in
                ground (arith, open_step, ap (λ x. is_done x.status) q, done))
            | inr d ↦
                a.loadable other r (ap (find_step (step_key other)) (sym rows) ∙ found) done b (
                  sym (
                    find_file-put_other (artifact_key id) (artifact_key other) bytes db.files
                      (artifact_key-distinct id other d))
                  ∙ (ap (find_file (artifact_key other)) (sym fs) ∙ file))
          ];
          here = ap (find_step (step_key id)) rows ∙ a.here;
          hashed = a.hashed;
        },
        ap (find_file (artifact_key id)) fs ∙ find_file-put_same (artifact_key id) bytes db.files,
      )
