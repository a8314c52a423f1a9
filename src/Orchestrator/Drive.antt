-- ===== src/Orchestrator/Drive.antt =====
-- crates/jitgen-orchestrator/src/run.rs: the checkpointed loop over targets, and the report of a run.
-- The world of the loop is the run's state beside the world that `process` acts on.
pub mod Tally
pub mod Keys
pub mod Stored
pub mod Checkpoint
pub mod Ops
pub mod Steps
pub mod Rounds
pub mod Reload
pub mod Framed
pub mod Staged
pub mod Rerun
pub mod Total
pub mod Completes
pub mod SafeKeys
use jitgen.Core.Model.{Mode, Strategy}
use jitgen.Feedback.Host.{FeedbackError}
use jitgen.Feedback.Repair.{accepted, rejected}
use jitgen.Orchestrator.Process.{RankedTarget, TargetOutcome}
use jitgen.Prelude.{
  List, Option, [], if◌then◌else◌, length, map, none, some, take, ℕ, ◌++◌, ◌+◌, ◌==◌, ◌||◌, ◌∷◌,
}
use jitgen.Prelude.Effect.{Exec, pure, ◌>>=◌}
use jitgen.Prelude.Int.{pos}
use jitgen.Prelude.Result.{Result, err, ok}
use jitgen.Prelude.Str.{Text, codes, is_ascii_alphanumeric, lower_char}
use jitgen.Report.Model.{RunReport}
use jitgen.State.Model.{StateError, StepRow, failed_step, is_done, succeeded}
use jitgen.State.Store.{
  RunDb, begin_step, find_file, finish_step, publish_artifact, record_step, step,
}

pub data RunError : Type 0 where
  state_error : StateError → RunError
  feedback_error : FeedbackError → RunError
  config_error invalid_error : Text → RunError

unfoldable pub sanitize_char : ℕ → ℕ
unfolding lower_char is_ascii_alphanumeric
sanitize_char c =
    let l = lower_char c in if is_ascii_alphanumeric l || l == b'_' || l == b'-' then l else b'-'

unfoldable pub sanitize_id : Text → Text
unfolding sanitize_char
sanitize_id s = take 64 (map sanitize_char s)

abbrev pub step_key : Text → Text
step_key id = codes "target-" ++ id

abbrev pub artifact_key : Text → Text
artifact_key id = codes "targets/" ++ id ++ codes ".json"

-- The calls of `serde_json` and `sha2`, and the `Display` of an error.
pub record Codec (F : Type 0) : Type 0 where
  pub target_hash : RankedTarget F → Text → Result RunError Text
  pub encode_outcome : TargetOutcome F → Result RunError Text
  pub decode_outcome : Text → Result RunError (TargetOutcome F)
  pub sha256_hex : Text → Text
  pub describe : RunError → Text

module _ {W F : Type 0} (codec : Codec F) (config_fp : Text)
    (process : RankedTarget F → Exec W RunError (TargetOutcome F)) where
  -- A fallible call that leaves the world alone.
  unfoldable pub lift : {A : Type 0} → Result RunError A → Exec (RunDb × W) RunError A
  lift r w = (r, w)

  unfoldable pub update_by :
      Result StateError RunDb → RunDb × W → Result RunError (Unit {0}) × (RunDb × W)
  update_by (ok db') (db, w) = (ok tt, (db', w))
  update_by (err e) (db, w) = (err (state_error e), (db, w))

  -- An operation on the run's state; one that fails leaves it as it was.
  unfoldable pub update : (RunDb → Result StateError RunDb) → Exec (RunDb × W) RunError (Unit {0})
  unfolding update_by
  update change (db, w) = update_by (change db) (db, w)

  unfoldable pub look : {A : Type 0} → (RunDb → A) → Exec (RunDb × W) RunError A
  look get (db, w) = (ok (get db), (db, w))

  unfoldable pub require_step : Option StepRow → Result RunError StepRow
  require_step none = err (invalid_error (codes "step vanished after record"))
  require_step (some r) = ok r

  unfoldable pub found_one :
      Result RunError (TargetOutcome F) → Result RunError (Option (TargetOutcome F))
  found_one (ok o) = ok (some o)
  found_one (err e) = err e

  unfoldable pub decode_saved : Option Text → Result RunError (Option (TargetOutcome F))
  unfolding found_one
  decode_saved none = ok none
  decode_saved (some bytes) = found_one (codec.decode_outcome bytes)

  -- The outcome of a step that is done, from its artifact; `none` where there is none to load.
  unfoldable pub saved : StepRow → Text → Exec (RunDb × W) RunError (Option (TargetOutcome F))
  unfolding look lift decode_saved is_done find_file
  saved row id =
      if is_done row.status
      then (look (λ db. find_file (artifact_key id) db.files) >>= λ bytes.
          lift (decode_saved bytes))
      else pure none

  -- The `match process(rt)`, whose error is recorded on the step, if it can be.
  unfoldable pub after_process :
      Text
      → RunDb
      → Result RunError (TargetOutcome F) × W
      → Result RunError (TargetOutcome F) × (RunDb × W)
  unfolding lift update publish_artifact finish_step
  after_process id db (ok outcome, w) =
      (lift (codec.encode_outcome outcome) >>= λ bytes.
      update
        (publish_artifact codec.sha256_hex (artifact_key id) bytes (codes "target") (step_key id))
      >>= λ u. update (finish_step (step_key id) succeeded none) >>= λ v. pure outcome)
        (db, w)
  after_process id db (err e, w) = (
    err e,
    ((update (finish_step (step_key id) failed_step (some (codec.describe e))) (db, w)).1),
  )

  unfoldable pub process_step : Text → RankedTarget F → Exec (RunDb × W) RunError (TargetOutcome F)
  unfolding after_process
  process_step id rt (db, w) = after_process id db (process rt w)

  unfoldable pub load_or_process :
      Text → RankedTarget F → Option (TargetOutcome F) → Exec (RunDb × W) RunError (TargetOutcome F)
  unfolding update begin_step process_step
  load_or_process id rt (some outcome) = pure outcome
  load_or_process id rt none = update (begin_step (step_key id)) >>= λ u. process_step id rt

  -- One round of the loop.
  unfoldable pub drive_target : ℕ → RankedTarget F → Exec (RunDb × W) RunError (TargetOutcome F)
  unfolding lift update look require_step saved load_or_process record_step step sanitize_id
  drive_target i rt =
      let id = sanitize_id rt.target.id in
      lift (codec.target_hash rt config_fp) >>= λ hash.
      update (λ db. ok (record_step (step_key id) (pos i) (codes "target") hash db)) >>= λ u.
      look (step (step_key id)) >>= λ found.
      lift (require_step found) >>= λ row. saved row id >>= load_or_process id rt

  unfoldable pub drive_from :
      ℕ
      → List (RankedTarget F)
      → List (TargetOutcome F)
      → Exec (RunDb × W) RunError (List (TargetOutcome F))
  unfolding drive_target
  drive_from i [] outcomes = pure outcomes
  drive_from i (rt ∷ ranked) outcomes =
      drive_target i rt >>= λ outcome. drive_from (i + 1) ranked (outcomes ++ outcome ∷ [])

  unfoldable pub drive_targets :
      List (RankedTarget F) → Exec (RunDb × W) RunError (List (TargetOutcome F))
  unfolding drive_from
  drive_targets ranked = drive_from 0 ranked []

-- What the report gathers from the outcomes.
gather : {F A : Type 0} → (TargetOutcome F → List A) → List (TargetOutcome F) → List A
gather part [] = []
gather part (o ∷ os) = part o ++ gather part os

total : {F : Type 0} → List (TargetOutcome F) → ℕ
total [] = 0
total (o ∷ os) = o.candidates_generated + total os

unfoldable pub assemble_report :
    {F : Type 0}
    → (jitgen_version run_id repo base_oid head_oid : Text) → Mode
    → Strategy
    → List (RankedTarget F)
    → List (TargetOutcome F)
    → List Text
    → RunReport F
unfolding gather total
assemble_report jitgen_version run_id repo base_oid head_oid mode strategy ranked outcomes
      warnings =
    let accepted = gather (λ o. o.accepted_list) outcomes in
    let catches = gather (λ o. o.catches_list) outcomes in
    let rejected = gather (λ o. o.rejected_list) outcomes in
    record {
      schema_version = 1;
      jitgen_version = jitgen_version;
      run_id = run_id;
      repo = repo;
      base_revision = base_oid;
      head_revision = head_oid;
      mode = mode;
      strategy = strategy;
      summary = record {
        targets_selected = length ranked;
        candidates_generated = total outcomes;
        accepted_count = length accepted;
        catches_count = length catches;
        rejected_count = length rejected;
      };
      accepted_list = accepted;
      catches_list = catches;
      rejected_list = rejected;
      warnings = warnings;
    }
