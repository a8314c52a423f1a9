-- ===== src/Orchestrator/Patch/Edits/Whole.antt =====
-- The whole application, and the fuel of its loop.
use jitgen.Orchestrator.Patch.{Cursor, Hunk, is_file_header, parse_hunk_header}
use jitgen.Orchestrator.Patch.Edits.{Body, Edit, Edited, Good}
use jitgen.Prelude.{List, [], is_empty, none, some, true, ◌++◌, ◌||◌, ◌∷◌, ◌≡◌}
use jitgen.Prelude.Result.{Result, err, ok}
use jitgen.Prelude.Str.{Text, codes, lines, strip_prefix}

-- What the lines of a diff ask for: the edits of its hunks, one after the other; every other line is
-- a file header or empty.
pub data Asked : List Text → List Edit → Type 0 where
  finished : Asked [] []
  between :
      {lines : List Text} {es : List Edit} (line : Text)
      → strip_prefix line (codes "@@") ≡ none
      → (is_file_header line || is_empty line) ≡ true
      → Asked lines es
      → Asked (line ∷ lines) es
  hunk :
      {lines left : List Text} {es later : List Edit} (line rest : Text) (h : Hunk)
      → strip_prefix line (codes "@@") ≡ some rest
      → parse_hunk_header rest ≡ ok h
      → Body h 0 0 lines left es
      → Asked left later
      → Asked (line ∷ lines) (es ++ later)

module _ (orig : List Text) where
  abbrev CursorGood : List Edit → Result Text Cursor → Type 0
  CursorGood es (err e) = Unit
  CursorGood es (ok c) = Good orig es c

  -- The edits that the lines ask for are made behind `es`.
  abbrev Finished : List Edit → List Text → Cursor → Type 0
  Finished es lines done = (new : List Edit) × Asked lines new × Good orig (es ++ new) done

-- The lines put out are the original's, edited as the diff asks.
abbrev pub EditedBy : List Text → List Text → List Text → Type 0
EditedBy diff orig out = (es : List Edit) × Asked diff es × Edited es orig out
