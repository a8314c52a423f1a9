-- ===== src/Context/Packager.antt =====
-- crates/jitgen-context/src/packager.rs: context items within a budget.
-- The redaction rules are a parameter. `usize` has 64 bits, so that the products do not overflow.
pub mod Budget
use jitgen.Core.Model.{ContextBudget, ContextBundle, ContextItem, ContextItemKind, Redaction}
use jitgen.Llm.Prefix.{char_prefix}
use jitgen.Prelude.{
  Bool, List, Option, [], false, if◌then◌else◌, is_empty, leb, length, ltb, min, not, true, ℕ, ◌&&◌,
  ◌*◌, ◌++◌, ◌+◌, ◌-◌, ◌==◌, ◌||◌, ◌∷◌,
}
use jitgen.Prelude.Str.{Text, boundary_before, is_whitespace, len, slice_to, text_eq}
use jitgen.Report.Escape.{truncation_marker}

abbrev pub chars_per_token : ℕ
chars_per_token = 4

abbrev max_redact_input_bytes : ℕ
max_redact_input_bytes = 262144

abbrev dangling_token_min : ℕ
dangling_token_min = 8

-- The text up to its last white space, that one included.
before_token : Text → Text
unfolding is_whitespace
before_token [] = []
before_token (c ∷ s) =
    let rest = before_token s in
    if not (is_empty rest) then c ∷ rest else if is_whitespace c then c ∷ [] else []

drop_trailing_token : Text → Text
unfolding before_token len
drop_trailing_token s =
    if leb dangling_token_min (len s - len (before_token s))
    then before_token s ++ truncation_marker
    else s

unfoldable pub truncate : Text → ℕ → Text
unfolding len slice_to boundary_before
truncate s max_bytes =
    if leb (len s) max_bytes
    then s
    else if ltb max_bytes (len truncation_marker)
    then slice_to truncation_marker (boundary_before truncation_marker max_bytes)
    else slice_to s (boundary_before s (max_bytes - len truncation_marker)) ++ truncation_marker

pub record ContextBuilder : Type 0 where
  pub budget : ContextBudget
  pub items : List ContextItem
  pub redacted : Bool
  pub used_chars : ℕ

-- `ContextBuilder::new`.
unfoldable pub new_builder : ContextBudget → ContextBuilder
new_builder budget = record { budget = budget; items = []; redacted = false; used_chars = 0 }

-- What is left of the token budget.
remaining : ContextBuilder → ℕ
remaining b = b.budget.max_tokens * chars_per_token - b.used_chars

-- The last part of `add`: an item that is empty, though its content is not, is dropped.
unfoldable pub push_item :
    ContextItemKind → Option Text → Text → Text → ContextBuilder → Bool × ContextBuilder
unfolding len
push_item kind path content body b =
    if is_empty body && not (is_empty content) then (false, b) else (
      true,
      record b {
        used_chars = b.used_chars + len body;
        items = b.items ++ record { kind = kind; path = path; content = body } ∷ [];
      },
    )

module _ (redact : Text → Redaction) where
  -- The redacted text of the window, with a token cut by the window's edge dropped.
  windowed : Text → Text
  unfolding char_prefix drop_trailing_token len
  windowed content =
      let window = char_prefix content max_redact_input_bytes in
      if ltb (len window) (len content)
      then drop_trailing_token (redact window).text
      else (redact window).text

  -- Whether redaction, or the drop of a token, changed what is kept.
  masked : Text → Bool
  unfolding windowed char_prefix text_eq
  masked content =
      let red = redact (char_prefix content max_redact_input_bytes) in
      red.redacted || not (text_eq (windowed content) red.text)

  -- `ContextBuilder::add`, with whether the item was added.
  unfoldable pub add : ContextItemKind → Option Text → Text → ContextBuilder → Bool × ContextBuilder
  unfolding remaining windowed masked truncate push_item
  add kind path content b =
      if leb b.budget.max_files (length b.items)
      then (false, b)
      else if remaining b == 0
      then (false, b)
      else push_item kind path content
          (truncate (windowed content) (min b.budget.max_bytes_per_file (remaining b)))
          (record b { redacted = b.redacted || masked content })

-- `ContextBuilder::build`.
unfoldable pub build : ContextBuilder → Text → ContextBundle
build b target = record {
  target = target;
  items = b.items;
  budget = b.budget;
  redacted = b.redacted;
}
