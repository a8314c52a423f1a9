-- ===== src/Feedback/Llmstep.antt =====
-- crates/jitgen-feedback/src/llmstep.rs: bounded readings of the model's risks and mutants.
use jitgen.Core.Model.{Mode, Mutant, Redaction, Strategy, proposed}
use jitgen.Feedback.Host.{LlmRequest, Prompt}
use jitgen.Llm.Parse.{is_fence, max_raw_bytes}
use jitgen.Llm.Prefix.{char_prefix}
use jitgen.Prelude.{
  List, Option, [], filter, if◌then◌else◌, is_empty, length, map, none, not, some, take, ℕ, ◌*◌,
  ◌++◌, ◌||◌, ◌∷◌,
}
use jitgen.Prelude.Str.{Text, codes, join, lines, show_nat, strip_prefix, trim, trim_end}

abbrev pub max_risks : ℕ
max_risks = 24

abbrev pub max_risk_chars : ℕ
max_risk_chars = 200

abbrev pub max_mutant_blocks : ℕ
max_mutant_blocks = 16

abbrev pub max_mutant_diff_chars : ℕ
max_mutant_diff_chars = 8 * 1024

abbrev pub max_path_chars : ℕ
max_path_chars = 512

unfoldable pub request : Prompt → Mode → Strategy → Text → Option Text → LlmRequest
request prompt mode strategy language symbol = record {
  prompt = prompt;
  mode = mode;
  strategy = strategy;
  language = language;
  symbol = symbol;
  attempt = 0;
  repair_feedback = none;
}

close_block : List Text → Text
unfolding join trim_end
close_block body = trim_end (join (codes "\n") body)

-- The lines outside a block (`none`), or inside one with the lines that it has so far.
scan_blocks : List Text → Option (List Text) → List Text
scan_blocks [] none = []
scan_blocks [] (some body) = close_block body ∷ []
scan_blocks (l ∷ ls) none = scan_blocks ls (if is_fence l then some [] else none)
scan_blocks (l ∷ ls) (some body) =
    let closed = close_block body ∷ scan_blocks ls none in
    let more = scan_blocks ls (some (body ++ l ∷ [])) in if is_fence l then closed else more

unfoldable pub fenced_blocks : Text → List Text
unfolding scan_blocks close_block char_prefix lines
fenced_blocks raw = scan_blocks (lines (char_prefix raw max_raw_bytes)) none

risk_of : (Text → Redaction) → Text → Text
risk_of redact l = take max_risk_chars (redact l).text

risks_of : (Text → Redaction) → List Text → List Text
unfolding risk_of lines trim
risks_of redact [] = []
risks_of redact (block ∷ blocks) =
    map (risk_of redact) (take max_risks (filter (λ l. not (is_empty l)) (map trim (lines block))))

unfoldable pub parse_risks : (Text → Redaction) → Text → List Text
unfolding risks_of
parse_risks redact raw = risks_of redact (fenced_blocks raw)

-- `header.strip_prefix("path:").or_else(|| header.strip_prefix("path ="))`.
path_header : Text → Option Text
unfolding strip_prefix
path_header header = elim (strip_prefix header (codes "path:")) [
  | some p ↦ some p
  | none ↦ strip_prefix header (codes "path =")
]

mutant_with : (Text → Redaction) → Text → ℕ → Option Text → Text → Option Mutant
unfolding trim show_nat
mutant_with redact id_prefix n none diff = none
mutant_with redact id_prefix n (some p) diff =
    if is_empty (trim p) || is_empty (trim diff)
    then none
    else some (record {
      id = id_prefix ++ codes "-m" ++ show_nat n;
      risk_description = (redact (codes "mutant " ++ show_nat n)).text;
      path = take max_path_chars (trim p);
      diff = take max_mutant_diff_chars diff;
      status = proposed;
    })

mutant_of : (Text → Redaction) → Text → ℕ → List Text → Option Mutant
unfolding path_header mutant_with trim join
mutant_of redact id_prefix n [] = none
mutant_of redact id_prefix n (header ∷ rest) =
    mutant_with redact id_prefix n (path_header (trim header)) (join (codes "\n") rest)

push_mutant : Option Mutant → List Mutant → List Mutant
push_mutant none mutants = mutants
push_mutant (some m) mutants = mutants ++ m ∷ []

mutants_of : (Text → Redaction) → Text → List Text → List Mutant → List Mutant
unfolding mutant_of push_mutant lines
mutants_of redact id_prefix [] mutants = mutants
mutants_of redact id_prefix (block ∷ blocks) mutants =
    mutants_of redact id_prefix blocks
      (push_mutant (mutant_of redact id_prefix (length mutants) (lines block)) mutants)

unfoldable pub parse_mutants : (Text → Redaction) → Text → Text → List Mutant
unfolding mutants_of
parse_mutants redact raw id_prefix =
    mutants_of redact id_prefix (take max_mutant_blocks (fenced_blocks raw)) []
