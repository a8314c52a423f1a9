-- ===== src/Report/Escape/Markup.antt =====
-- Escaped text cannot open a tag or end an attribute.
use jitgen.Prelude.{All, All-append, [], arith, false, ℕ, ◌==◌, ◌||◌, ◌∷◌, ◌≡◌}
use jitgen.Prelude.Str.{Text}
use jitgen.Report.Escape.{
  flat_map, is_markdown_special, md_inline, md_inline_char, sanitize, xml_attr, xml_attr_char,
  xml_text, xml_text_char,
}

flat_map-All :
    (P : ℕ → Type 0) (k : ℕ → Text) → ((c : ℕ) → All P (k c)) → (s : Text) → All P (flat_map k s)
unfolding flat_map
flat_map-All P k h [] = tt
flat_map-All P k h (c ∷ s) = All-append P (k c) (flat_map k s) (h c) (flat_map-All P k h s)

-- Not an angle bracket.
abbrev pub Untagged : ℕ → Type 0
Untagged c = ((c == b'<') || (c == b'>')) ≡ false

-- Neither an angle bracket, nor a quote of either kind, nor a line break or tab.
abbrev pub InAttribute : ℕ → Type 0
InAttribute c =
    ((c == b'<') || (c == b'>') || (c == 34) || (c == 39) || (c == 10) || (c == 9) || (c == 13))
    ≡ false

xml_attr_char-InAttribute : (c : ℕ) → All InAttribute (xml_attr_char c)
unfolding xml_attr_char
xml_attr_char-InAttribute c = ground arith

xml_text_char-Untagged : (c : ℕ) → All Untagged (xml_text_char c)
unfolding xml_text_char
xml_text_char-Untagged c = ground arith

md_inline_char-Untagged : (c : ℕ) → All Untagged (md_inline_char c)
unfolding md_inline_char is_markdown_special
md_inline_char-Untagged c = ground arith

-- An escaped XML attribute value has no quote of either kind, no angle bracket, no line break and
-- no tab.
pub xml_attr-InAttribute : (s : Text) (max : ℕ) → All InAttribute (xml_attr s max)
unfolding xml_attr
xml_attr-InAttribute s max =
    flat_map-All InAttribute xml_attr_char xml_attr_char-InAttribute (sanitize s max)

-- Escaped XML text and escaped inline Markdown have no angle bracket.
pub xml_text-Untagged :
    (s : Text) (max : ℕ) → All Untagged (xml_text s max) × All Untagged (md_inline s max)
unfolding xml_text md_inline
xml_text-Untagged s max = (
  flat_map-All Untagged xml_text_char xml_text_char-Untagged (sanitize s max),
  flat_map-All Untagged md_inline_char md_inline_char-Untagged (sanitize s max),
)
