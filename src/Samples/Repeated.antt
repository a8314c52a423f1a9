-- ===== src/Samples/Repeated.antt =====
-- A run over two targets that succeeds, and its repetition.
use native.Mathlib.Decide.{ℕ_discrete}
use jitgen.Orchestrator.Drive.{
  RunError, after_process, decode_saved, drive_from, drive_target, drive_targets, lift,
  load_or_process, look, process_step, require_step, sanitize_char, sanitize_id, saved, update,
  update_by,
}
use jitgen.Orchestrator.Drive.Completes.{drive_targets-completes}
use jitgen.Orchestrator.Drive.Ops.{Both}
use jitgen.Orchestrator.Drive.Reload.{AllCheckpointed}
use jitgen.Orchestrator.Drive.Rerun.{Distinct, drive_targets-rerun}
use jitgen.Orchestrator.Drive.Stored.{AllFinite, SameOutcomes}
use jitgen.Orchestrator.Drive.Total.{Decodable, Storable}
use jitgen.Orchestrator.Process.{RankedTarget, TargetOutcome}
use jitgen.Prelude.{List, [], arith, none, refl, ℕ, ◌++◌, ◌∷◌, ◌≡◌}
use jitgen.Prelude.Effect.{Exec, Returns, Triple, pure, ◌>>=◌}
use jitgen.Prelude.Int.{pos}
use jitgen.Prelude.Paths.{components}
use jitgen.Prelude.Result.{ok}
use jitgen.Prelude.Str.{Text, codes, is_ascii_alphanumeric, lower_char, split, starts_with, text_eq}
use jitgen.Samples.Scripted.{Nothing, ranked}
use jitgen.Samples.Stored.{Thousandth, caught, codec, is_plain, process_one, storing}
use jitgen.State.Model.{ArtifactRecord, StepRow, is_done, succeeded}
use jitgen.State.Store.{
  RunDb, begin_row, begin_step, cap_error, find_file, find_step, finish_row, finish_step, has_step,
  interrupted, new_step, publish_artifact, put_file, record_over, record_step, safe_join,
  same_inputs, step, update_one, update_steps,
}

abbrev second : RankedTarget ℕ
second = record ranked { target = record ranked.target { id = codes "T 2" } }

abbrev row_of : Text → ℕ → StepRow
row_of id i = record {
  step_id = codes "target-" ++ id;
  seq = pos i;
  step_kind = codes "target";
  input_hash = codes "src/a.rscfg";
  status = succeeded;
  error = none;
  retry_count = 0;
}

abbrev artifact_of : Text → ArtifactRecord
artifact_of id = record {
  step_id = codes "target-" ++ id;
  rel_path = codes "targets/" ++ id ++ codes ".json";
  artifact_kind = codes "target";
  sha256 = 1 ∷ 9 ∷ [];
}

abbrev file_of : Text → Text × Text
file_of id = (codes "targets/" ++ id ++ codes ".json", 1 ∷ 9 ∷ [])

abbrev done_db : RunDb
done_db = record {
  step_rows = row_of (codes "t1") 0 ∷ row_of (codes "t-2") 1 ∷ [];
  artifact_rows = artifact_of (codes "t1") ∷ artifact_of (codes "t-2") ∷ [];
  files = file_of (codes "t1") ∷ file_of (codes "t-2") ∷ [];
}

first_run :
    drive_targets codec
      (codes "cfg")
      process_one
      (ranked ∷ second ∷ [])
      (record { step_rows = []; artifact_rows = []; files = [] }, 0)
    ≡ (ok (caught 905 ∷ caught 905 ∷ []), (done_db, 2))
unfolding drive_targets drive_from drive_target update look lift saved ◌>>=◌ pure after_process
    process_step record_step record_over find_step new_step begin_step update_one begin_row
    finish_row finish_step publish_artifact safe_join put_file text_eq sanitize_id sanitize_char
    update_steps has_step find_file is_done interrupted components split starts_with cap_error
    load_or_process require_step decode_saved same_inputs step lower_char is_ascii_alphanumeric
    update_by is_plain ℕ_discrete
first_run = refl

distinct : Distinct (ranked ∷ second ∷ [])
unfolding sanitize_id sanitize_char text_eq lower_char is_ascii_alphanumeric
distinct = ((refl, tt), (tt, tt))

process_one-Finite : (rt : RankedTarget ℕ) → Returns (process_one rt) (AllFinite Thousandth)
process_one-Finite rt = record { run = λ w p. (omega arith, tt) }

-- What is loaded has the probability as it was stored.
reloaded :
    drive_targets codec (codes "cfg") process_one (ranked ∷ second ∷ []) (done_db, 7)
    ≡ (ok (caught 900 ∷ caught 900 ∷ []), (done_db, 7))
unfolding drive_targets drive_from drive_target update look lift saved ◌>>=◌ pure after_process
    process_step record_step record_over find_step new_step begin_step update_one begin_row
    finish_row finish_step publish_artifact safe_join put_file text_eq sanitize_id sanitize_char
    update_steps has_step find_file is_done interrupted components split starts_with cap_error
    load_or_process require_step decode_saved same_inputs step lower_char is_ascii_alphanumeric
    update_by is_plain ℕ_discrete
reloaded = refl

drive_targets-rerun_example :
    (ps : List (TargetOutcome ℕ)) × SameOutcomes (caught 905 ∷ caught 905 ∷ []) ps
    × ((other : RankedTarget ℕ → Exec ℕ RunError (TargetOutcome ℕ)) (v : ℕ)
        → drive_targets codec (codes "cfg") other (ranked ∷ second ∷ []) (done_db, v)
          ≡ (ok ps, (done_db, v)))
drive_targets-rerun_example =
    drive_targets-rerun codec (codes "cfg") process_one Thousandth storing process_one-Finite
      (ranked ∷ second ∷ []) (caught 905 ∷ caught 905 ∷ [])
      (record { step_rows = []; artifact_rows = []; files = [] }) done_db 0 2 distinct first_run

abbrev empty_db : RunDb
empty_db = record { step_rows = []; artifact_rows = []; files = [] }

process_one-Storable :
    (rt : RankedTarget ℕ)
    → Triple Nothing (process_one rt) (λ o w. Nothing w × Storable codec o) (λ e w. ⊥)
unfolding is_plain ℕ_discrete
process_one-Storable rt = record { run = λ w p. (tt, (1 ∷ 9 ∷ [], refl)) }

drive_targets-completes_example :
    (os : List (TargetOutcome ℕ)) × (s : RunDb × ℕ) × (drive_targets codec
        (codes "cfg")
        process_one
        (ranked ∷ second ∷ [])
        (empty_db, 0)
      ≡ (ok os, s))
    × ((ps : List (TargetOutcome ℕ)) × SameOutcomes os ps
        × AllCheckpointed codec (codes "cfg") s.0 0 (ranked ∷ second ∷ []) ps)
    × Both Nothing (Decodable codec) s
unfolding find_file
drive_targets-completes_example =
    drive_targets-completes codec (codes "cfg") process_one Nothing
      (λ rt. (rt.target.path ++ codes "cfg", refl)) Thousandth storing process_one-Storable
      process_one-Finite (ranked ∷ second ∷ []) empty_db 0 distinct
      (λ id bytes e. absurd (ground (arith, e))) tt
