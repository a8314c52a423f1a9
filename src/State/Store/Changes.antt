-- ===== src/State/Store/Changes.antt =====
-- What an operation on one step changes, and that it changes nothing else.
use jitgen.Prelude.{
  Bool-cases, Option, [], any, ap, arith, false, inl, inr, none, refl, some, sym, true, ◌||◌, ◌∙◌,
  ◌∷◌, ◌≡◌,
}
use jitgen.Prelude.Int.{eq_of_int_eq, int_eq_refl, ℤ}
use jitgen.Prelude.Paths.{components}
use jitgen.Prelude.Result.{ok, ok_inj}
use jitgen.Prelude.Str.{Text, codes, starts_with, text_eq, text_eq_iff, text_eq_refl}
use jitgen.State.Model.{StepRow, StepStatus, is_done}
use jitgen.State.Store.{
  RunDb, begin_row, begin_step, find_step, finish_row, finish_step, new_step, publish_artifact,
  put_file, record_over, record_step, safe_join, same_inputs, update_one, update_steps,
}
use jitgen.State.Store.Lookup.{
  find_step-append, find_step-append_other, find_step-update_other, find_step-update_same,
  has_step-found, map_row,
}

-- Every step but `key`, and every file, is as it was; the step is now `row`.
pub record Changed (key : Text) (before after : RunDb) (row : StepRow) : Type 0 where
  pub here : find_step key after.step_rows ≡ some row
  pub others :
      (other : Text)
      → text_eq key other ≡ false
      → find_step other after.step_rows ≡ find_step other before.step_rows
  pub same_files : after.files ≡ before.files

-- What is recorded of a step: its inputs, and that it is done only if it was done with them.
pub record Recorded (key : Text) (seq : ℤ) (kind hash : Text) (before after : RunDb) : Type 0 where
  pub row : StepRow
  pub changed : Changed key before after row
  pub inputs : same_inputs seq kind hash row ≡ true
  pub numbered : row.seq ≡ seq
  pub of_kind : row.step_kind ≡ kind
  pub hashed : row.input_hash ≡ hash
  pub done_before : is_done row.status ≡ true → find_step key before.step_rows ≡ some row

same_inputs_parts :
    (seq : ℤ) (kind hash : Text) (r : StepRow)
    → same_inputs seq kind hash r ≡ true
    → (r.seq ≡ seq) × (r.step_kind ≡ kind) × (r.input_hash ≡ hash)
unfolding same_inputs
same_inputs_parts seq kind hash r h = (
  eq_of_int_eq r.seq seq (ground (arith, h)),
  (text_eq_iff r.step_kind kind).0 (ground (arith, h)),
  (text_eq_iff r.input_hash hash).0 (ground (arith, h)),
)

same_inputs-new_step :
    (key : Text) (seq : ℤ) (kind hash : Text)
    → same_inputs seq kind hash (new_step key seq kind hash) ≡ true
unfolding same_inputs new_step
same_inputs-new_step key seq kind hash =
    rw (int_eq_refl seq, text_eq_refl kind, text_eq_refl hash) refl

record_over-Recorded :
    (key : Text) (seq : ℤ) (kind hash : Text) (o : Option StepRow) (db : RunDb)
    → find_step key db.step_rows ≡ o
    → Recorded key seq kind hash db (record_over key seq kind hash o db)
unfolding record_over new_step is_done map_row
record_over-Recorded key seq kind hash none db e = record {
  row = new_step key seq kind hash;
  changed = record {
    here = find_step-append key db.step_rows (new_step key seq kind hash) e (text_eq_refl key);
    others = λ other d. find_step-append_other other db.step_rows (new_step key seq kind hash) d;
    same_files = refl;
  };
  inputs = same_inputs-new_step key seq kind hash;
  numbered = refl;
  of_kind = refl;
  hashed = refl;
  done_before = λ h. absurd (ground (arith, h));
}
record_over-Recorded key seq kind hash (some r) db e =
    elim (Bool-cases (same_inputs seq kind hash r)) [
      | inl same ↦ rw same (record {
        row = r;
        changed = record { here = e; others = λ other d. refl; same_files = refl };
        inputs = same;
        numbered = (same_inputs_parts seq kind hash r same).0;
        of_kind = (same_inputs_parts seq kind hash r same).1;
        hashed = (same_inputs_parts seq kind hash r same).2;
        done_before = λ h. e;
      })
      | inr stale ↦ rw stale (record {
        row = new_step r.step_id seq kind hash;
        changed = record {
          here = find_step-update_same key _ db.step_rows (λ x. refl) ∙ ap (map_row _) e;
          others = λ other d. find_step-update_other key other _ db.step_rows (λ x. refl) d;
          same_files = refl;
        };
        inputs = same_inputs-new_step r.step_id seq kind hash;
        numbered = refl;
        of_kind = refl;
        hashed = refl;
        done_before = λ h. absurd (ground (arith, h));
      })
    ]

-- After a step is recorded it has the sequence number, the kind and the hash that were given,
-- every other step and every file is as it was, and the step is done only if the very same row
-- was there before: changed inputs are never skipped.
pub record_step_lem :
    (key : Text) (seq : ℤ) (kind hash : Text) (db : RunDb)
    → Recorded key seq kind hash db (record_step key seq kind hash db)
unfolding record_step
record_step_lem key seq kind hash db =
    record_over-Recorded key seq kind hash (find_step key db.step_rows) db refl

update_one_lem :
    (key : Text) (change : StepRow → StepRow) (db : RunDb) (r : StepRow)
    → ((q : StepRow) → (change q).step_id ≡ q.step_id)
    → find_step key db.step_rows ≡ some r
    → (db' : RunDb) × (update_one key change db ≡ ok db') × Changed key db db' (change r)
unfolding update_one map_row
update_one_lem key change db r keeps e = rw (has_step-found key db.step_rows r e) (
  record db { step_rows = update_steps key change db.step_rows },
  refl,
  record {
    here = find_step-update_same key change db.step_rows keeps ∙ ap (map_row change) e;
    others = λ other d. find_step-update_other key other change db.step_rows keeps d;
    same_files = refl;
  },
)

pub begin_step_lem :
    (key : Text) (db : RunDb) (r : StepRow)
    → find_step key db.step_rows ≡ some r
    → (db' : RunDb) × (begin_step key db ≡ ok db') × Changed key db db' (begin_row r)
unfolding begin_step begin_row
begin_step_lem key db r e = update_one_lem key begin_row db r (λ q. refl) e

pub finish_step_lem :
    (key : Text) (status : StepStatus) (error : Option Text) (db : RunDb) (r : StepRow)
    → find_step key db.step_rows ≡ some r
    → (db' : RunDb) × (finish_step key status error db ≡ ok db')
      × Changed key db db' (finish_row status error r)
unfolding finish_step finish_row
finish_step_lem key status error db r e =
    update_one_lem key (finish_row status error) db r (λ q. refl) e

-- The stored rows and files after an artifact is published.
pub publish_artifact_lem :
    (sha256_hex : Text → Text) (rel_path bytes kind key : Text) (db after : RunDb)
    → publish_artifact sha256_hex rel_path bytes kind key db ≡ ok after
    → (after.step_rows ≡ db.step_rows) × (after.files ≡ put_file rel_path bytes db.files)
unfolding publish_artifact safe_join
publish_artifact_lem sha256_hex rel_path bytes kind key db after h =
    elim (Bool-cases (
      any (λ c. text_eq c (codes "..")) (components rel_path)
      || starts_with rel_path (b'/' ∷ []))) [
        | inl bad ↦ absurd (ground (arith, rw bad at h))
        | inr good ↦
            let e = ok_inj _ after (rw good at h) in
            (ap (λ d. d.step_rows) (sym e), ap (λ d. d.files) (sym e))
      ]

-- A step with these inputs is recorded already.
pub record_step-same :
    (key : Text) (i : ℤ) (kind hash : Text) (db : RunDb) (row : StepRow)
    → find_step key db.step_rows ≡ some row
    → same_inputs i kind hash row ≡ true
    → record_step key i kind hash db ≡ db
unfolding record_step record_over
record_step-same key i kind hash db row here same = rw (here, same) refl
