-- ===== src/Orchestrator/Patch.antt =====
-- crates/jitgen-orchestrator/src/patchapply.rs: applying a mutant's unified diff.
-- A refusal is the detail of `OrchestratorError::Invalid`.
pub mod Edits
pub mod Rounds
use jitgen.Prelude.{
  Bool, List, Option, [], false, get_elem?, if◌then◌else◌, is_empty, length, ltb, none, not, some,
  suc, true, zero, ℕ, ◌&&◌, ◌++◌, ◌-◌, ◌==◌, ◌||◌, ◌∷◌,
}
use jitgen.Prelude.Numbers.{parse_usize}
use jitgen.Prelude.Result.{Result, err, ok, ◌>>=◌}
use jitgen.Prelude.Str.{
  Text, codes, ends_with, is_whitespace, join, lines, split, starts_with, strip_prefix, text_eq,
}

-- `split_lines`.
strip_last_newline : Text → Text
strip_last_newline [] = []
strip_last_newline (c ∷ []) = if c == 10 then [] else c ∷ []
strip_last_newline (c ∷ d ∷ s) = c ∷ strip_last_newline (d ∷ s)

unfoldable pub split_lines : Text → List Text
unfolding strip_last_newline split
split_lines [] = []
split_lines (c ∷ s) = split 10 (strip_last_newline (c ∷ s))

pub is_file_header : Text → Bool
unfolding starts_with
is_file_header line =
    starts_with line (codes "--- ")
    || starts_with line (codes "+++ ")
    || starts_with line (codes "diff ")
    || starts_with line (codes "index ")

pub record Hunk : Type 0 where
  pub old_start : ℕ
  pub old_count : ℕ
  pub new_count : ℕ

-- `split_whitespace`: the runs of other characters.
words_from : Text → Text → List Text
unfolding is_whitespace
words_from word [] = if is_empty word then [] else word ∷ []
words_from word (c ∷ s) =
    let next = words_from [] s in
    let longer = words_from (word ++ c ∷ []) s in
    if is_whitespace c then (if is_empty word then next else word ∷ next) else longer

required : {A : Type 0} → Text → Option A → Result Text A
required detail none = err detail
required detail (some a) = ok a

unfoldable pub parse_range : Text → Result Text (ℕ × ℕ)
unfolding split parse_usize required
parse_range s = elim (split b',' s) [
  | [] ↦ err (codes "bad range start")
  | first ∷ others ↦ do
    start ← required (codes "bad range start") (parse_usize first)
    count ← elim others [
      | [] ↦ ok 1
      | c ∷ later ↦ required (codes "bad range count") (parse_usize c)
    ]
    ok (start, count)
]

prefixed : Text → Option Text → Option Text
unfolding strip_prefix
prefixed sign none = none
prefixed sign (some p) = strip_prefix p sign

unfoldable pub parse_hunk_header : Text → Result Text Hunk
unfolding words_from prefixed required parse_range
parse_hunk_header rest = do
  let parts = words_from [] rest
  old ← required (codes "missing old range") (prefixed (codes "-") (get_elem? parts 0))
  new ← required (codes "missing new range") (prefixed (codes "+") (get_elem? parts 1))
  (old_start, old_count) ← parse_range old
  (new_start, new_count) ← parse_range new
  ok (record { old_start = old_start; old_count = old_count; new_count = new_count })

-- The lines put out so far, and the index of the next original line.
abbrev pub Cursor : Type 0
Cursor = List Text × ℕ

-- `while cursor < target { out.push(orig_lines[cursor]); cursor += 1 }`, for `n` lines.
copy_lines : List Text → ℕ → Cursor → Cursor
copy_lines orig zero c = c
copy_lines orig (suc n) (out, cursor) = elim (get_elem? orig cursor) [
  | none ↦ (out, cursor)
  | some line ↦ copy_lines orig n (out ++ line ∷ [], suc cursor)
]

-- `expect_match`.
expect_match : List Text → ℕ → Text → Bool
unfolding text_eq
expect_match orig idx content = elim (get_elem? orig idx) [
  | none ↦ false
  | some line ↦ text_eq line content
]

-- The operation of a body line and its content.
abbrev op_of : Text → ℕ × Text
op_of [] = (b' ', [])
op_of (c ∷ content) = (c, content)

pub data BodyLine : Type 0 where
  context_line removed_line added_line note_line bad_line : BodyLine

kind_of : ℕ → BodyLine
kind_of op =
    if op == b' '
    then context_line
    else if op == b'-'
    then removed_line
    else if op == b'+'
    then added_line
    else if op == 92
    then note_line
    else bad_line

mismatch : Text
mismatch = codes "context/removed line does not match original"

-- `apply_hunk`: the cursor behind the hunk and the lines of the diff that it leaves.
apply_hunk :
    List Text
    → Hunk
    → List Text
    → (old_seen new_seen : ℕ) → Cursor
    → Result Text (Cursor × List Text)
unfolding expect_match kind_of mismatch
apply_hunk orig h [] old_seen new_seen c =
    if ltb old_seen h.old_count || ltb new_seen h.new_count
    then err (codes "hunk truncated")
    else ok (c, [])
apply_hunk orig h (body ∷ lines) old_seen new_seen (out, cursor) =
    let content = (op_of body).1 in
    elim (ltb old_seen h.old_count || ltb new_seen h.new_count) [
      | false ↦ ok ((out, cursor), body ∷ lines)
      | true ↦ elim (kind_of (op_of body).0) [
        | context_line ↦ elim (expect_match orig cursor content) [
          | true ↦
              apply_hunk orig h lines (suc old_seen) (suc new_seen)
                (out ++ content ∷ [], suc cursor)
          | false ↦ err mismatch
        ]
        | removed_line ↦ elim (expect_match orig cursor content) [
          | true ↦ apply_hunk orig h lines (suc old_seen) new_seen (out, suc cursor)
          | false ↦ err mismatch
        ]
        | added_line ↦ apply_hunk orig h lines old_seen (suc new_seen) (out ++ content ∷ [], cursor)
        | note_line ↦ apply_hunk orig h lines old_seen new_seen (out, cursor)
        | bad_line ↦ err (codes "bad hunk body line")
      ]
    ]

-- The checks of a hunk's position, and the lines in front of it copied.
start_hunk : List Text → Hunk → Cursor → Result Text Cursor
unfolding copy_lines
start_hunk orig h (out, cursor) =
    let target = h.old_start - 1 in
    if (h.old_start == 0) && ltb 0 h.old_count
    then err (codes "old_start 0 with a non-empty old range")
    else if ltb (length orig) target
    then err (codes "hunk start past end of file")
    else if ltb target cursor
    then err (codes "hunk out of order / overlapping a prior hunk")
    else ok (copy_lines orig (target - cursor) (out, cursor))

-- A hunk behind its `@@`, with the loop that goes on.
apply_at :
    List Text
    → List Text
    → (List Text → Cursor → Result Text Cursor)
    → Text
    → Cursor
    → Result Text Cursor
unfolding parse_hunk_header start_hunk apply_hunk
apply_at orig lines onward rest c = do
  h ← parse_hunk_header rest
  c ← start_hunk orig h c
  (c, left) ← apply_hunk orig h lines 0 0 c
  onward left c

-- The outer loop; every round takes a line, so the number of lines is enough fuel.
apply_from : ℕ → List Text → List Text → Cursor → Result Text Cursor
unfolding is_file_header strip_prefix apply_at
apply_from fuel orig [] c = ok c
apply_from zero orig (line ∷ lines) c = err (codes "out of fuel")
apply_from (suc fuel) orig (line ∷ lines) c = elim (strip_prefix line (codes "@@")) [
  | some rest ↦ apply_at orig lines (apply_from fuel orig) rest c
  | none ↦ elim (is_file_header line || is_empty line) [
    | true ↦ apply_from fuel orig lines c
    | false ↦ err (codes "unexpected content outside a hunk")
  ]
]

unfoldable pub rejoined : Text → List Text → Text
unfolding join ends_with
rejoined original out =
    let result = join (10 ∷ []) out in
    if ends_with original (10 ∷ []) && not (is_empty result) then result ++ 10 ∷ [] else result

-- The lines of the patched text.
unfoldable pub patched_lines : Text → Text → Result Text (List Text)
unfolding split_lines apply_from copy_lines lines
patched_lines original diff = do
  let orig = split_lines original
  c ← apply_from (length (lines diff)) orig (lines diff) ([], 0)
  ok (copy_lines orig (length orig - c.1) c).0

unfoldable pub apply_unified_diff : Text → Text → Result Text Text
unfolding patched_lines rejoined
apply_unified_diff original diff = do out ← patched_lines original diff; ok (rejoined original out)
