-- ===== src/Sandbox/Capture.antt =====
-- crates/jitgen-sandbox/src/run.rs: the captured streams and what is read off them.
-- A stream is a list of bytes; `lossy` is `String::from_utf8_lossy`.
use jitgen.Core.Model.{Redaction}
use jitgen.Prelude.{
  Bool, Bool-cases, List, Option, [], any, ap, arith, false, if_cases, if◌then◌else◌, inl, inr,
  length, length-append, length-take-le, ltb, min, none, not, refl, some, some_inj, subst, suc, sym,
  take, true, zero, ℕ, ◌*◌, ◌++◌, ◌+◌, ◌-◌, ◌<◌, ◌==◌, ◌||◌, ◌∙◌, ◌∷◌, ◌≡◌, ◌≤◌,
}
use jitgen.Prelude.Str.{Text, contains, glue, split, text_eq}
use jitgen.Report.Escape.{cap}
use jitgen.Sandbox.Os.{Read, chunk, read_error}
use jitgen.Sandbox.Policy.{BuildSignal}

abbrev pub redact_tail_guard : ℕ
redact_tail_guard = 8 * 1024

-- The loop of a reader thread over what its reads give: the buffer and the truncation flag.
unfoldable pub capture : ℕ → List ℕ → Bool → List Read → List ℕ × Bool
capture cap buf truncated [] = (buf, truncated)
capture cap buf truncated (read_error ∷ rs) = (buf, true)
capture cap buf truncated (chunk bytes ∷ rs) =
    let room = min (cap - length buf) (length bytes) in
    let grown = capture cap (buf ++ take room bytes) (truncated || ltb room (length bytes)) rs in
    let full = capture cap buf true rs in if ltb (length buf) cap then grown else full

-- `collect` of a stream, from the reads so far and whether the reader has finished.
unfoldable pub collected : ℕ → List Read → Bool → List ℕ × Bool
unfolding capture
collected cap rs finished =
    let (buf, truncated) = capture cap [] false rs in (buf, truncated || not finished)

-- The first line, and what follows its newline.
break_line : List ℕ → List ℕ × Option (List ℕ)
break_line [] = ([], none)
break_line (b ∷ bs) =
    let (line, rest) = break_line bs in if b == 10 then ([], some bs) else (b ∷ line, rest)

is_some : Option (List ℕ) → Bool
is_some none = false
is_some (some bs) = true

or_empty : Option (List ℕ) → List ℕ
or_empty none = []
or_empty (some bs) = bs

-- The lines behind the first.
rest_lines : Option (List ℕ) → List (List ℕ)
unfolding split
rest_lines none = []
rest_lines (some bs) = split 10 bs

-- The loop of `strip_marker_line`; a round passes a newline, so the length bounds the rounds.
strip_lines : ℕ → List ℕ → List ℕ → List ℕ → List ℕ × Bool
unfolding break_line is_some or_empty text_eq
strip_lines zero before bytes marker = (before ++ bytes, false)
strip_lines (suc fuel) before bytes marker =
    let (line, rest) = break_line bytes in
    let later = strip_lines fuel (before ++ line ++ 10 ∷ []) (or_empty rest) marker in
    if text_eq line marker
    then (before ++ or_empty rest, true)
    else if is_some rest
    then later
    else (before ++ bytes, false)

unfoldable pub strip_marker_line : List ℕ → List ℕ → List ℕ × Bool
unfolding strip_lines
strip_marker_line stderr marker = strip_lines (length stderr + 1) [] stderr marker

module _ (lossy : List ℕ → Text) where
  unfoldable pub detect_build_failure : BuildSignal → Option ℕ → List ℕ → List ℕ → Bool
  unfolding contains
  detect_build_failure signal none stdout stderr = false
  detect_build_failure signal (some c) stdout stderr =
      if c == 0
      then false
      else if any (λ d. d == c) signal.exit_codes
      then true
      else any (λ m. contains (lossy stdout) m || contains (lossy stderr) m) signal.markers

  unfoldable pub redact_capped : (Text → Redaction) → List ℕ → Bool → Text
  redact_capped redact bytes truncated =
      let kept = take (length bytes - redact_tail_guard) bytes in
      (redact (lossy (if truncated then kept else bytes))).text

-- The buffer never outgrows the cap.
pub capture-le :
    (rs : List Read) (cap : ℕ) (buf : List ℕ) (truncated : Bool)
    → length buf ≤ cap
    → length (capture cap buf truncated rs).0 ≤ cap
unfolding capture
capture-le [] cap buf truncated h = h
capture-le (read_error ∷ rs) cap buf truncated h = h
capture-le (chunk bytes ∷ rs) cap buf truncated h =
    let room = min (cap - length buf) (length bytes) in
    let fits : length (buf ++ take room bytes) ≤ cap =
      ground (arith, length-append {0} buf (take room bytes), length-take-le {0} room bytes) in
    if_cases (λ (r : List ℕ × Bool). length r.0 ≤ cap) (ltb (length buf) cap) _ _
      (λ e. capture-le rs cap (buf ++ take room bytes) _ fits) λ e. capture-le rs cap buf true h

-- Looking for the marker line is looking for it among the lines.
break_line-split :
    (bytes : List ℕ) → split 10 bytes ≡ (break_line bytes).0 ∷ rest_lines (break_line bytes).1
unfolding break_line rest_lines split glue
break_line-split [] = refl
break_line-split (b ∷ bs) = elim (Bool-cases (b == 10)) [
  | inl e ↦ rw e refl
  | inr e ↦ rw (e, break_line-split bs)
]

break_line-shorter : (bytes bs : List ℕ) → (break_line bytes).1 ≡ some bs → length bs < length bytes
unfolding break_line
break_line-shorter [] bs h = ground arith
break_line-shorter (b ∷ rest) bs h =
    if_cases (λ (r : List ℕ × Option (List ℕ)). r.1 ≡ some bs → length bs < suc (length rest))
      (b == 10) _ _ (λ e k. let same = ap length (some_inj rest bs k) in omega (arith, same))
      (λ e k. let less = break_line-shorter rest bs k in omega (arith, less)) h

marker_step :
    (f : List ℕ → Bool) (line : List ℕ) (rest : Option (List ℕ)) (x y : List ℕ)
    (later : List ℕ × Bool)
    → ((bs : List ℕ) → rest ≡ some bs → later.1 ≡ any f (split 10 bs))
    → (if f line then (x, true) else if is_some rest then later else (y, false)).1
      ≡ any f (line ∷ rest_lines rest)
unfolding is_some rest_lines
marker_step f line none x y later h = ground arith
marker_step f line (some bs) x y later h = let found = h bs refl in ground arith

strip_lines-found :
    (fuel : ℕ) (before bytes marker : List ℕ)
    → length bytes < fuel
    → (strip_lines fuel before bytes marker).1 ≡ any (λ l. text_eq l marker) (split 10 bytes)
unfolding strip_lines or_empty
strip_lines-found zero before bytes marker h = ground arith
strip_lines-found (suc fuel) before bytes marker h = rw (break_line-split bytes) (
    marker_step (λ l. text_eq l marker) (break_line bytes).0 (break_line bytes).1 _ _ _
      λ bs e.
        let shorter = break_line-shorter bytes bs e in
        let same = ap or_empty e in
        let small : length (or_empty (break_line bytes).1) < fuel =
          subst (λ r. length r < fuel) (sym same) (omega (arith, shorter, h)) in
        strip_lines-found fuel _ (or_empty (break_line bytes).1) marker small
        ∙ ap (λ r. any (λ l. text_eq l marker) (split 10 r)) same)

-- The start sentinel counts as found exactly when one whole line of the captured bytes is the
-- marker; the rounds of the search are enough for every input.
pub strip_marker_line-found :
    (stderr marker : List ℕ)
    → (strip_marker_line stderr marker).1 ≡ any (λ l. text_eq l marker) (split 10 stderr)
unfolding strip_marker_line
strip_marker_line-found stderr marker =
    strip_lines-found (length stderr + 1) [] stderr marker (omega arith)
