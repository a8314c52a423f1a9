-- ===== src/Samples/Stored.antt =====
-- The theorems about durable state, at a small codec and a state with one finished target.
use mathlib.Core.HLevel.{Discrete}
use native.Mathlib.Decide.{ℕ_discrete}
use jitgen.Core.Classify.{high, strong_catch, weak_catch}
use jitgen.Core.Model.{catch, intent_aware}
use jitgen.Orchestrator.Drive.{
  Codec, RunError, assemble_report, drive_targets, invalid_error, sanitize_id,
}
use jitgen.Orchestrator.Drive.Checkpoint.{Loadable}
use jitgen.Orchestrator.Drive.Ops.{Both, Left}
use jitgen.Orchestrator.Drive.Rounds.{Outcomes, drive_targets_sound}
use jitgen.Orchestrator.Drive.Stored.{AllFinite, SameOutcome, SameOutcome-refl, StoresOutcomes}
use jitgen.Orchestrator.Drive.Tally.{assemble_report_lem}
use jitgen.Orchestrator.Process.{RankedTarget, TargetOutcome}
use jitgen.Prelude.{
  Bool, List, [], ap, arith, false, if◌then◌else◌, length, none, refl, suc, sym, true, ℕ, ◌*◌, ◌++◌,
  ◌+◌, ◌/◌, ◌∙◌, ◌∷◌, ◌≡◌, ◌≤◌,
}
use jitgen.Prelude.Effect.{Exec, Triple}
use jitgen.Prelude.Int.{negsuc, pos}
use jitgen.Prelude.Result.{Result, err, ok, ok_inj}
use jitgen.Prelude.Str.{Text, codes}
use jitgen.Report.Model.{AcceptedTest, CatchReport, RejectedCandidate}
use jitgen.Samples.Scripted.{Nothing, ranked}
use jitgen.State.Model.{RunMeta, StepRow, succeeded}
use jitgen.State.Store.{RunDb, create_run, record_step, resume_point}
use jitgen.State.Store.Changes.{Recorded, record_step_lem}
use jitgen.State.Store.Resume.{Resumes, resume_point_lem}

abbrev pub counted : ℕ → TargetOutcome ℕ
counted n = record {
  accepted_list = [];
  catches_list = [];
  rejected_list = [];
  candidates_generated = n;
}

-- A catch with the probability `x`, in thousandths.
abbrev pub catch_with : ℕ → CatchReport ℕ
catch_with x = record {
  target = codes "t1";
  language = codes "rust";
  path = codes "tests/a.rs";
  source = [];
  observed_class = weak_catch;
  decision = strong_catch;
  tp_probability = x;
  bucket = high;
  rationale = [];
  mutation = none;
  changed_path = none;
  changed_line = none;
  reproduction = [];
  evidence = none;
}

abbrev pub caught : ℕ → TargetOutcome ℕ
caught x = record {
  accepted_list = [];
  catches_list = catch_with x ∷ [];
  rejected_list = [];
  candidates_generated = 1;
}

CatchReport-discrete : Discrete (CatchReport ℕ)
CatchReport-discrete = hlevel ℕ_discrete

-- Whether the catch is one of `catch_with`.
unfoldable pub is_plain : CatchReport ℕ → Bool
unfolding CatchReport-discrete
is_plain c = elim (CatchReport-discrete c (catch_with c.tp_probability)) [
  | yes e ↦ true
  | no n ↦ false
]

-- The number of candidates, and the probability of one such catch to a tenth.
abbrev encode_parts :
    List AcceptedTest → List (CatchReport ℕ) → List RejectedCandidate → ℕ → Result RunError Text
encode_parts [] [] [] n = ok (n ∷ [])
encode_parts [] (c ∷ []) [] n =
    if is_plain c then ok (n ∷ (c.tp_probability / 100) ∷ []) else err (invalid_error [])
encode_parts as' cs rs n = err (invalid_error [])

abbrev decode_one : Text → Result RunError (TargetOutcome ℕ)
decode_one [] = err (invalid_error [])
decode_one (n ∷ []) = ok (counted n)
decode_one (n ∷ x ∷ s) = ok (record (caught (x * 100)) { candidates_generated = n })

abbrev pub codec : Codec ℕ
codec = record {
  target_hash = λ rt fp. ok (rt.target.path ++ fp);
  encode_outcome =
      λ o. encode_parts o.accepted_list o.catches_list o.rejected_list o.candidates_generated;
  decode_outcome = decode_one;
  sha256_hex = λ s. s;
  describe = λ e. [];
}

is_plain-eq : (c : CatchReport ℕ) → is_plain c ≡ true → c ≡ catch_with c.tp_probability
unfolding is_plain
is_plain-eq c =
    elim (CatchReport-discrete c (catch_with c.tp_probability))
      as (λ d.
        elim d as (λ d. Bool) [ yes e ↦ true | no n ↦ false ] ≡ true
        → c ≡ catch_with c.tp_probability) [
          | yes e ↦ λ h. e
          | no n ↦ λ h. absurd (ground (arith, h))
        ]

abbrev Read : List AcceptedTest → List (CatchReport ℕ) → List RejectedCandidate → ℕ → Text → Type 0
Read as' cs rs n bytes =
    (p : TargetOutcome ℕ) × (decode_one bytes ≡ ok p)
    × SameOutcome
        (record {
          accepted_list = as';
          catches_list = cs;
          rejected_list = rs;
          candidates_generated = n;
        })
        p

plain-read :
    (c : CatchReport ℕ) (n : ℕ) (bytes : Text) (t : Bool)
    → is_plain c ≡ t
    → (if t then ok (n ∷ (c.tp_probability / 100) ∷ []) else err (invalid_error [])) ≡ ok bytes
    → Read [] (c ∷ []) [] n bytes
plain-read c n bytes false plain e = absurd (ground (arith, e))
plain-read c n bytes true plain e =
    let x = c.tp_probability / 100 * 100 in
    (
      record (caught x) { candidates_generated = n },
      ap decode_one (sym (ok_inj _ bytes e)),
      record {
        same_accepted = refl;
        same_catches =
            (ap (λ (d : CatchReport ℕ). record d { tp_probability = x }) (is_plain-eq c plain), tt);
        same_rejected = refl;
        same_count = refl;
      },
    )

-- A stored outcome reads back, with the probability cut to a tenth.
parts_read :
    (as' : List AcceptedTest) (cs : List (CatchReport ℕ)) (rs : List RejectedCandidate) (n : ℕ)
    (bytes : Text)
    → encode_parts as' cs rs n ≡ ok bytes
    → Read as' cs rs n bytes
parts_read [] [] [] n bytes e =
    (counted n, ap decode_one (sym (ok_inj (n ∷ []) bytes e)), SameOutcome-refl (counted n))
parts_read [] (c ∷ []) [] n bytes e = plain-read c n bytes (is_plain c) refl e
parts_read [] [] (r ∷ rs) n bytes e = absurd (ground (arith, e))
parts_read [] (c ∷ []) (r ∷ rs) n bytes e = absurd (ground (arith, e))
parts_read [] (c ∷ d ∷ cs) rs n bytes e = absurd (ground (arith, e))
parts_read (a ∷ as') cs rs n bytes e = absurd (ground (arith, e))

-- Thousandths up to one are the finite numbers.
abbrev pub Thousandth : ℕ → Type 0
Thousandth x = x ≤ 1000

pub storing : StoresOutcomes codec Thousandth
storing = record {
  reads_back = λ o bytes fin e.
      parts_read o.accepted_list o.catches_list o.rejected_list o.candidates_generated bytes e;
}

abbrev pub process_one : RankedTarget ℕ → Exec ℕ RunError (TargetOutcome ℕ)
process_one rt w = (ok (caught 905), suc w)

abbrev OneGenerated : Text → Text → TargetOutcome ℕ → Type 0
OneGenerated id h o = o.candidates_generated ≡ 1

process_one-Triple :
    (rt : RankedTarget ℕ) (h : Text)
    → codec.target_hash rt (codes "cfg") ≡ ok h
    → Triple Nothing
        (process_one rt)
        (λ o w. Nothing w × OneGenerated (sanitize_id rt.target.id) h o × AllFinite Thousandth o)
        (λ e w. Unit {0})
process_one-Triple rt h e = record { run = λ w p. (tt, refl, (omega arith, tt)) }

drive_targets_sound_example :
    Triple
      (Both Nothing (Loadable codec OneGenerated))
      (drive_targets codec (codes "cfg") process_one (ranked ∷ []))
      (λ os s.
        Both Nothing (Loadable codec OneGenerated) s
        × Outcomes codec (codes "cfg") OneGenerated (ranked ∷ []) os)
      (Left codec OneGenerated)
drive_targets_sound_example =
    drive_targets_sound codec (codes "cfg") process_one OneGenerated Nothing Thousandth storing
      (λ id h o p same e. sym same.same_count ∙ e) process_one-Triple (ranked ∷ [])

abbrev done_row : StepRow
done_row = record {
  step_id = codes "target-t1";
  seq = pos 0;
  step_kind = codes "target";
  input_hash = codes "src/a.rscfg";
  status = succeeded;
  error = none;
  retry_count = 0;
}

abbrev finished_db : RunDb
finished_db = record {
  step_rows = done_row ∷ [];
  artifact_rows = [];
  files = (codes "targets/t1.json", 7 ∷ []) ∷ [];
}

record_step_lem_example :
    Recorded
      (codes "target-t1")
      (negsuc 0)
      (codes "target")
      (codes "h2")
      finished_db
      (record_step (codes "target-t1") (negsuc 0) (codes "target") (codes "h2") finished_db)
record_step_lem_example =
    record_step_lem (codes "target-t1") (negsuc 0) (codes "target") (codes "h2") finished_db

resume_point_lem_example : Resumes (resume_point finished_db) finished_db.step_rows
resume_point_lem_example = resume_point_lem finished_db

abbrev meta : RunMeta
meta = record {
  run_id = codes "r1";
  repo_path = codes "/repo";
  base_ref = codes "b";
  head_ref = codes "h";
  mode_name = codes "catch";
  schema_version = 1;
  run_status = codes "running";
}

meta_created : (create_run meta (record { runs = [] })).0 ≡ ok (codes "r1")
unfolding create_run
meta_created = refl

assemble_report_lem_example :
    let r = assemble_report [] [] [] [] [] catch intent_aware (ranked ∷ []) (counted 0 ∷ []) [] in
    (r.summary.accepted_count + r.summary.catches_count + r.summary.rejected_count
      ≡ r.summary.candidates_generated)
    × (r.summary.accepted_count ≡ length r.accepted_list)
    × (r.summary.catches_count ≡ length r.catches_list)
    × (r.summary.rejected_count ≡ length r.rejected_list)
assemble_report_lem_example =
    assemble_report_lem [] [] [] [] [] catch intent_aware (ranked ∷ []) (counted 0 ∷ []) []
      (refl, tt)
