-- ===== src/State/Store.antt =====
-- crates/jitgen-state/src/store.rs: the tables and files of a run, and the index of runs.
-- A table is a list of rows with unique keys, and a file is kept under its relative path as the caller
-- spells it. Failures of SQLite and of the file system are not modelled.
pub mod Index
pub mod Lookup
pub mod Changes
pub mod Resume
use jitgen.Prelude.{
  Bool, List, Option, [], all, any, false, filter, if◌then◌else◌, is_empty, leb, none, not, some,
  true, ℕ, ◌&&◌, ◌++◌, ◌+◌, ◌==◌, ◌||◌, ◌∷◌,
}
use jitgen.Prelude.Int.{int_eq, int_lt, ℤ}
use jitgen.Prelude.Paths.{components}
use jitgen.Prelude.Result.{Result, err, ok, ◌>>=◌}
use jitgen.Prelude.Str.{
  Text, boundary_before, codes, is_ascii_alphanumeric, len, slice_to, starts_with, text_eq,
}
use jitgen.Report.Escape.{truncation_marker}
use jitgen.State.Model.{
  ArtifactRecord, RunMeta, StateError, StepRow, StepStatus, failed_step, invalid_state, is_done,
  pending, run_not_found, running,
}

abbrev max_error_len : ℕ
max_error_len = 8192

unfoldable pub ensure_safe_run_id : Text → Result StateError (Unit {0})
unfolding text_eq len is_ascii_alphanumeric
ensure_safe_run_id run_id =
    if not (is_empty run_id)
      && not (text_eq run_id (codes "."))
      && not (text_eq run_id (codes ".."))
      && leb (len run_id) 128
      && all (λ c. is_ascii_alphanumeric c || c == b'.' || c == b'_' || c == b'-') run_id
    then ok tt
    else err (invalid_state (codes "unsafe run id"))

unfoldable pub cap_str : Text → ℕ → Text
unfolding len boundary_before slice_to
cap_str s max =
    if leb (len s) max then s else slice_to s (boundary_before s max) ++ truncation_marker

-- `RunHandle`: the tables `steps` and `artifacts`, and the files below the run's directory.
pub record RunDb : Type 0 where
  pub step_rows : List StepRow
  pub artifact_rows : List ArtifactRecord
  pub files : List (Text × Text)

-- `WHERE step_id = ?1`.
unfoldable pub find_step : Text → List StepRow → Option StepRow
find_step key [] = none
find_step key (r ∷ rs) =
    let rest = find_step key rs in if text_eq r.step_id key then some r else rest

unfoldable pub update_steps : Text → (StepRow → StepRow) → List StepRow → List StepRow
update_steps key change [] = []
update_steps key change (r ∷ rs) =
    (if text_eq r.step_id key then change r else r) ∷ update_steps key change rs

unfoldable pub has_step : Text → List StepRow → Bool
has_step key [] = false
has_step key (r ∷ rs) = text_eq r.step_id key || has_step key rs

unfoldable pub new_step : Text → ℤ → Text → Text → StepRow
new_step key seq kind hash = record {
  step_id = key;
  seq = seq;
  step_kind = kind;
  input_hash = hash;
  status = pending;
  error = none;
  retry_count = 0;
}

-- `eseq != seq || ekind != kind || ehash != input_hash`, negated.
unfoldable pub same_inputs : ℤ → Text → Text → StepRow → Bool
same_inputs seq kind hash r =
    int_eq r.seq seq && text_eq r.step_kind kind && text_eq r.input_hash hash

-- `RunHandle::record_step`, by the row that is there.
unfoldable pub record_over : Text → ℤ → Text → Text → Option StepRow → RunDb → RunDb
unfolding new_step same_inputs update_steps
record_over key seq kind hash none db = record db {
  step_rows = db.step_rows ++ new_step key seq kind hash ∷ [];
}
record_over key seq kind hash (some r) db = if same_inputs seq kind hash r then db else record db {
  step_rows = update_steps key (λ old. new_step old.step_id seq kind hash) db.step_rows;
  artifact_rows = filter (λ a. not (text_eq a.step_id key)) db.artifact_rows;
}

unfoldable pub record_step : Text → ℤ → Text → Text → RunDb → RunDb
unfolding record_over find_step
record_step key seq kind hash db = record_over key seq kind hash (find_step key db.step_rows) db

-- `status IN ('running','failed')`.
unfoldable pub interrupted : StepStatus → ℕ
interrupted running = 1
interrupted failed_step = 1
interrupted s = 0

unfoldable pub begin_row : StepRow → StepRow
unfolding interrupted
begin_row r = record r { retry_count = r.retry_count + interrupted r.status; status = running }

-- `if n == 0` after an update of one step.
unfoldable pub update_one : Text → (StepRow → StepRow) → RunDb → Result StateError RunDb
unfolding has_step update_steps
update_one key change db =
    if has_step key db.step_rows
    then ok (record db { step_rows = update_steps key change db.step_rows })
    else err (invalid_state (codes "unknown step"))

unfoldable pub begin_step : Text → RunDb → Result StateError RunDb
unfolding update_one begin_row
begin_step key db = update_one key begin_row db

unfoldable pub cap_error : Option Text → Option Text
unfolding cap_str
cap_error none = none
cap_error (some e) = some (cap_str e max_error_len)

unfoldable pub finish_row : StepStatus → Option Text → StepRow → StepRow
unfolding cap_error
finish_row status error r = record r { status = status; error = cap_error error }

unfoldable pub finish_step : Text → StepStatus → Option Text → RunDb → Result StateError RunDb
unfolding update_one finish_row
finish_step key status error db = update_one key (finish_row status error) db

-- `RunHandle::step`.
unfoldable pub step : Text → RunDb → Option StepRow
unfolding find_step
step key db = find_step key db.step_rows

-- `ORDER BY seq ASC LIMIT 1`.
lowest : Option StepRow → List StepRow → Option StepRow
lowest best [] = best
lowest none (r ∷ rs) = lowest (some r) rs
lowest (some b) (r ∷ rs) = lowest (some (if int_lt r.seq b.seq then r else b)) rs

unfoldable pub resume_point : RunDb → Option StepRow
unfolding lowest is_done
resume_point db = lowest none (filter (λ r. not (is_done r.status)) db.step_rows)

unfoldable pub find_file : Text → List (Text × Text) → Option Text
find_file key [] = none
find_file key ((k, v) ∷ fs) = let rest = find_file key fs in if text_eq k key then some v else rest

unfoldable pub put_file : Text → Text → List (Text × Text) → List (Text × Text)
put_file key v [] = (key, v) ∷ []
put_file key v ((k, u) ∷ fs) =
    let rest = put_file key v fs in if text_eq k key then (key, v) ∷ fs else (k, u) ∷ rest

-- `safe_join` of crates/jitgen-state/src/fsutil.rs, which rejects `..` and absolute paths.
unfoldable pub safe_join : Text → Result StateError Text
unfolding components text_eq starts_with
safe_join rel =
    if any (λ c. text_eq c (codes "..")) (components rel) || starts_with rel (b'/' ∷ [])
    then err (invalid_state (codes "artifact path not allowed"))
    else ok rel

-- `RunHandle::publish_artifact`; `sha256_hex` is a parameter.
module _ (sha256_hex : Text → Text) where
  unfoldable pub publish_artifact :
      (rel_path bytes kind key : Text) → RunDb → Result StateError RunDb
  unfolding safe_join put_file
  publish_artifact rel_path bytes kind key db = safe_join rel_path >>= λ path. ok (record db {
    files = put_file path bytes db.files;
    artifact_rows =
        filter (λ a. not (text_eq a.step_id key && text_eq a.rel_path rel_path)) db.artifact_rows
        ++ record {
          step_id = key;
          rel_path = rel_path;
          artifact_kind = kind;
          sha256 = sha256_hex bytes;
        }
          ∷ [];
  })

-- `RunStore`: the table `runs` of the index.
pub record RunIndex : Type 0 where
  pub runs : List RunMeta

unfoldable pub get_run : Text → List RunMeta → Option RunMeta
get_run key [] = none
get_run key (r ∷ rs) = let rest = get_run key rs in if text_eq r.run_id key then some r else rest

insert_if_absent : RunMeta → List RunMeta → Option RunMeta → List RunMeta
insert_if_absent m runs none = runs ++ m ∷ []
insert_if_absent m runs (some r) = runs

-- `INSERT OR IGNORE`.
insert_run : RunMeta → List RunMeta → List RunMeta
unfolding insert_if_absent get_run
insert_run m runs = insert_if_absent m runs (get_run m.run_id runs)

-- The immutable inputs of two runs agree.
unfoldable pub same_run : RunMeta → RunMeta → Bool
unfolding text_eq
same_run a b =
    text_eq a.repo_path b.repo_path
    && text_eq a.base_ref b.base_ref
    && text_eq a.head_ref b.head_ref
    && text_eq a.mode_name b.mode_name
    && (a.schema_version == b.schema_version)

-- `RunStore::open_run`: the handle is the run's id.
unfoldable pub open_run : Text → RunIndex → Result StateError Text
unfolding ensure_safe_run_id get_run
open_run run_id idx = ensure_safe_run_id run_id >>= λ u. elim (get_run run_id idx.runs) [
  | none ↦ err (run_not_found run_id)
  | some r ↦ ok run_id
]

-- Whether the row that is there agrees with `m`.
agrees : RunMeta → Option RunMeta → Bool
unfolding same_run
agrees m none = true
agrees m (some existing) = same_run existing m

finish_create : RunMeta → RunIndex → Bool → Result StateError Text × RunIndex
unfolding open_run
finish_create m idx true = (open_run m.run_id idx, idx)
finish_create m idx false =
    (err (invalid_state (codes "run id already exists with different metadata")), idx)

create_checked :
    RunMeta → RunIndex → Result StateError (Unit {0}) → Result StateError Text × RunIndex
unfolding insert_run agrees finish_create
create_checked m idx (err e) = (err e, idx)
create_checked m idx (ok u) =
    let runs = insert_run m idx.runs in
    finish_create m (record { runs = runs }) (agrees m (get_run m.run_id runs))

-- `RunStore::create_run`, with the index that it leaves behind.
unfoldable pub create_run : RunMeta → RunIndex → Result StateError Text × RunIndex
unfolding create_checked ensure_safe_run_id
create_run m idx = create_checked m idx (ensure_safe_run_id m.run_id)

update_runs : Text → (RunMeta → RunMeta) → List RunMeta → List RunMeta
update_runs key change [] = []
update_runs key change (r ∷ rs) =
    (if text_eq r.run_id key then change r else r) ∷ update_runs key change rs

-- `RunStore::set_run_status`.
unfoldable pub set_run_status : Text → Text → RunIndex → Result StateError RunIndex
unfolding get_run update_runs
set_run_status run_id status idx = elim (get_run run_id idx.runs) [
  | none ↦ err (run_not_found run_id)
  | some r ↦
      ok (record { runs = update_runs run_id (λ m. record m { run_status = status }) idx.runs })
]
