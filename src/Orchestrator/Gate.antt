-- ===== src/Orchestrator/Gate.antt =====
-- crates/jitgen-orchestrator/src/gate.rs: which catches make the process exit non-zero.
-- The `HashSet` of a baseline is a list without repeats; reading the file is not modelled.
pub mod Verdict
use jitgen.Core.Classify.{CatchDecision, strong_catch}
use jitgen.Feedback.Flake.{report}
use jitgen.Prelude.{
  Bool, List, Option, [], any, false, filter, if◌then◌else◌, is_empty, leb, length, ltb, map, none,
  not, some, true, ℕ, ◌&&◌, ◌++◌, ◌+◌, ◌||◌, ◌∷◌,
}
use jitgen.Prelude.Float.{Float}
use jitgen.Prelude.Result.{Result, err, ok, ◌>>=◌}
use jitgen.Prelude.Str.{
  Text, is_control, len, lines, starts_with, text_eq, trim, trim_end, trim_start,
}
use jitgen.Report.Model.{CatchReport, MutantInfo, RunReport}

abbrev max_baseline_entries : ℕ
max_baseline_entries = 50000

abbrev max_baseline_line : ℕ
max_baseline_line = 4096

pub record GatingFinding (F : Type 0) : Type 0 where
  pub target : Text
  pub path : Option Text
  pub tp_probability : F
  pub fingerprint : Text

pub data GateVerdict (F : Type 0) : Type 0 where
  disabled pass : GateVerdict F
  advisory triggered : List (GatingFinding F) → GateVerdict F

-- `GateVerdict::is_failure` and `GateVerdict::findings`.
unfoldable pub is_failure : {F : Type 0} → GateVerdict F → Bool
is_failure (triggered fs) = true
is_failure v = false

unfoldable pub findings : {F : Type 0} → GateVerdict F → List (GatingFinding F)
findings (advisory fs) = fs
findings (triggered fs) = fs
findings v = []

-- The mutant's path, where there is a mutant with a path that is not empty.
mutant_path : Option MutantInfo → Option Text
mutant_path none = none
mutant_path (some m) = if is_empty m.path then none else some m.path

fingerprint_of : Text → Option Text → Text
fingerprint_of target none = target
fingerprint_of target (some path) = target ++ 32 ∷ path

unfoldable pub catch_fingerprint : {F : Type 0} → CatchReport F → Text
unfolding mutant_path fingerprint_of
catch_fingerprint c = fingerprint_of c.target (mutant_path c.mutation)

-- `GatingFinding::from_catch`.
unfoldable pub finding_of : {F : Type 0} → CatchReport F → GatingFinding F
unfolding mutant_path catch_fingerprint
finding_of c = record {
  target = c.target;
  path = mutant_path c.mutation;
  tp_probability = c.tp_probability;
  fingerprint = catch_fingerprint c;
}

-- `HashSet::contains`.
unfoldable pub has_entry : Text → List Text → Bool
has_entry s [] = false
has_entry s (e ∷ es) = text_eq s e || has_entry s es

-- `Baseline`: its entries.
pub record Baseline : Type 0 where
  pub entries : List Text

unfoldable pub suppresses : {F : Type 0} → Baseline → CatchReport F → Bool
unfolding has_entry catch_fingerprint
suppresses b c = has_entry (catch_fingerprint c) b.entries

is_strong : CatchDecision → Bool
is_strong strong_catch = true
is_strong d = false

module _ {F : Type 0} (f : Float F) where
  unfoldable pub qualifies : F → Baseline → CatchReport F → Bool
  unfolding is_strong suppresses
  qualifies threshold baseline c =
      is_strong c.decision && f.le threshold c.tp_probability && not (suppresses baseline c)

  -- `gating.is_empty()`, `warn_only`, and otherwise.
  verdict_on : Bool → List (GatingFinding F) → GateVerdict F
  verdict_on warn_only [] = pass
  verdict_on warn_only (g ∷ gs) = if warn_only then advisory (g ∷ gs) else triggered (g ∷ gs)

  unfoldable pub gate_exit_code :
      RunReport F → (threshold : F) → Baseline → (warn_only fail_on_catch : Bool) → GateVerdict F
  unfolding verdict_on qualifies finding_of
  gate_exit_code report threshold baseline warn_only fail_on_catch =
      if not fail_on_catch
      then disabled
      else verdict_on warn_only
          (map finding_of (filter (qualifies threshold baseline) report.catches_list))

pub data GateError : Type 0 where
  line_too_long control_character : ℕ → GateError
  too_many_entries : GateError

-- `HashSet::insert`.
insert_entry : Text → List Text → List Text
unfolding has_entry
insert_entry s es = if has_entry s es then es else s ∷ es

-- What one line does to the entries.
parse_line : ℕ → Text → List Text → Result GateError (List Text)
unfolding insert_entry trim trim_start trim_end starts_with
parse_line line_no raw entries =
    if ltb max_baseline_line (len raw)
    then err (line_too_long line_no)
    else if is_empty (trim raw) || starts_with (trim raw) (b'#' ∷ [])
    then ok entries
    else if any is_control (trim raw)
    then err (control_character line_no)
    else if leb max_baseline_entries (length entries)
    then err too_many_entries
    else ok (insert_entry (trim raw) entries)

parse_lines : ℕ → List Text → List Text → Result GateError (List Text)
parse_lines line_no [] entries = ok entries
parse_lines line_no (raw ∷ raws) entries =
    parse_line line_no raw entries >>= parse_lines (line_no + 1) raws

-- `Baseline::parse_inner`; the path in an error's text is left out.
unfoldable pub parse_inner : Text → Result GateError Baseline
unfolding parse_lines parse_line lines
parse_inner text = parse_lines 1 (lines text) [] >>= λ entries. ok (record { entries = entries })
