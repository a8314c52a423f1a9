-- ===== src/Orchestrator/Patch/Edits.antt =====
-- What a diff that applies does to the lines.
pub mod Whole
use jitgen.Context.Packager.{add}
use jitgen.Orchestrator.Patch.{Cursor, Hunk}
use jitgen.Prelude.{List, [], suc, take, ℕ, ◌++◌, ◌∷◌, ◌≡◌, ◌≤◌}
use jitgen.Prelude.Result.{Result, err, ok}
use jitgen.Prelude.Str.{Text, lines}

-- What a diff asks for: a line to leave out, or one to put in.
pub data Edit : Type 0 where
  removal addition : Text → Edit

-- The first lines become the second by the edits, in order; every other line is kept.
pub data Edited : List Edit → List Text → List Text → Type 0 where
  untouched : Edited [] [] []
  kept :
      {es : List Edit} {old new : List Text} (l : Text)
      → Edited es old new
      → Edited es (old ++ l ∷ []) (new ++ l ∷ [])
  removed :
      {es : List Edit} {old new : List Text} (l : Text)
      → Edited es old new
      → Edited (es ++ removal l ∷ []) (old ++ l ∷ []) new
  added :
      {es : List Edit} {old new : List Text} (l : Text)
      → Edited es old new
      → Edited (es ++ addition l ∷ []) old (new ++ l ∷ [])

-- A line's first character, a space for an empty line, and what is behind it.
abbrev pub marked : Text → ℕ × Text
marked [] = (b' ', [])
marked (c ∷ content) = (c, content)

-- The body of a hunk behind `m` old and `n` new lines: the lines up to the header's counts, what is
-- left behind them, and the edits that the body asks for.
pub data Body (h : Hunk) : (m n : ℕ) → (lines left : List Text) → List Edit → Type 0 where
  filled :
      {m n : ℕ} {lines : List Text} → h.old_count ≤ m → h.new_count ≤ n → Body h m n lines lines []
  context :
      {m n : ℕ} {lines left : List Text} {es : List Edit} (line : Text)
      → (marked line).0 ≡ b' '
      → Body h (suc m) (suc n) lines left es
      → Body h m n (line ∷ lines) left es
  minus :
      {m n : ℕ} {lines left : List Text} {es : List Edit} (line : Text)
      → (marked line).0 ≡ b'-'
      → Body h (suc m) n lines left es
      → Body h m n (line ∷ lines) left (removal (marked line).1 ∷ es)
  plus :
      {m n : ℕ} {lines left : List Text} {es : List Edit} (line : Text)
      → (marked line).0 ≡ b'+'
      → Body h m (suc n) lines left es
      → Body h m n (line ∷ lines) left (addition (marked line).1 ∷ es)
  remark :
      {m n : ℕ} {lines left : List Text} {es : List Edit} (line : Text)
      → (marked line).0 ≡ 92
      → Body h m n lines left es
      → Body h m n (line ∷ lines) left es

module _ (orig : List Text) where
  -- The original lines up to the cursor have become the lines put out.
  abbrev Good : List Edit → Cursor → Type 0
  Good es c = Edited es (take c.1 orig) c.0

  module _ (h : Hunk) where
    -- Of a hunk's result: the lines taken are a body, and its edits are made behind `es`.
    abbrev HunkGood : List Edit → (m n : ℕ) → List Text → Result Text (Cursor × List Text) → Type 0
    HunkGood es m n lines (err e) = Unit
    HunkGood es m n lines (ok (c, left)) =
        (new : List Edit) × Body h m n lines left new × Good (es ++ new) c
