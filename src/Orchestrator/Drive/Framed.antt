-- ===== src/Orchestrator/Drive/Framed.antt =====
-- Work on one target leaves the steps and the artifacts of the others alone.
use jitgen.Orchestrator.Drive.{Codec, artifact_key, sanitize_id, step_key}
use jitgen.Orchestrator.Drive.Keys.{artifact_key-distinct, step_key-distinct}
use jitgen.Orchestrator.Drive.Reload.{Checkpointed}
use jitgen.Orchestrator.Process.{RankedTarget, TargetOutcome}
use jitgen.Prelude.{ap, false, ℕ, ◌∙◌, ◌≡◌}
use jitgen.Prelude.Result.{ok}
use jitgen.Prelude.Str.{Text, text_eq}
use jitgen.State.Model.{StepRow}
use jitgen.State.Store.{RunDb, find_file, find_step, publish_artifact}
use jitgen.State.Store.Changes.{Changed, publish_artifact_lem}
use jitgen.State.Store.Lookup.{find_file-put_other}

-- Two states that agree but for the step and the artifact of one id.
pub record Framed (id : Text) (before after : RunDb) : Type 0 where
  pub rows :
      (other : Text)
      → text_eq id other ≡ false
      → find_step (step_key other) after.step_rows ≡ find_step (step_key other) before.step_rows
  pub kept :
      (other : Text)
      → text_eq id other ≡ false
      → find_file (artifact_key other) after.files ≡ find_file (artifact_key other) before.files

pub Changed-Framed :
    (id : Text) (db after : RunDb) (row : StepRow)
    → Changed (step_key id) db after row
    → Framed id db after
Changed-Framed id db after row c = record {
  rows = λ other d. c.others (step_key other) (step_key-distinct id other d);
  kept = λ other d. ap (find_file (artifact_key other)) c.same_files;
}

pub published-Framed :
    (sha256_hex : Text → Text) (id bytes kind : Text) (db after : RunDb)
    → publish_artifact sha256_hex (artifact_key id) bytes kind (step_key id) db ≡ ok after
    → Framed id db after
published-Framed sha256_hex id bytes kind db after e =
    let (rows, fs) =
      publish_artifact_lem sha256_hex (artifact_key id) bytes kind (step_key id) db after e in
    record {
      rows = λ other d. ap (find_step (step_key other)) rows;
      kept = λ other d.
          ap (find_file (artifact_key other)) fs
          ∙ find_file-put_other (artifact_key id) (artifact_key other) bytes db.files
              (artifact_key-distinct id other d);
    }

-- What the work on another id leaves alone.
abbrev pub Undisturbed : (RunDb → Type 0) → Text → Type 0
Undisturbed D id = (before after : RunDb) → Framed id before after → D before → D after

pub Checkpointed-Undisturbed :
    {F : Type 0} (codec : Codec F) (config_fp : Text) (i : ℕ) (rt : RankedTarget F)
    (o : TargetOutcome F) (id : Text)
    → text_eq id (sanitize_id rt.target.id) ≡ false
    → Undisturbed (λ db. Checkpointed codec config_fp db i rt o) id
Checkpointed-Undisturbed codec config_fp i rt o id d before after f c = record {
  hash = c.hash;
  hashed = c.hashed;
  row = c.row;
  here = f.rows (sanitize_id rt.target.id) d ∙ c.here;
  same = c.same;
  done = c.done;
  bytes = c.bytes;
  file = f.kept (sanitize_id rt.target.id) d ∙ c.file;
  decoded = c.decoded;
}
