-- ===== src/Report/Escape.antt =====
-- crates/jitgen-report/src/escape.rs: control stripping, byte caps, Markdown and XML escaping.
pub mod Controls
pub mod Markup
pub mod Fences
use jitgen.Prelude.{
  Bool, [], any, false, if◌then◌else◌, leb, ltb, map, suc, true, zero, ℕ, ◌&&◌, ◌++◌, ◌+◌, ◌-◌,
  ◌==◌, ◌||◌, ◌∷◌,
}
use jitgen.Prelude.Str.{Text, boundary_before, codes, len, slice_to}

-- `jitgen_core::TRUNCATION_MARKER`.
abbrev pub truncation_marker : Text
truncation_marker = codes "…[truncated]"

unfoldable pub is_strippable : ℕ → Bool
is_strippable c =
    leb c 0x8
    || c == 0xb
    || c == 0xc
    || c == 0xd
    || leb 0xe c && leb c 0x1f
    || c == 0x7f
    || leb 0x80 c && leb c 0x9f
    || c == 0x2028
    || c == 0x2029
    || leb 0x200b c && leb c 0x200f
    || leb 0x202a c && leb c 0x202e
    || leb 0x2066 c && leb c 0x2069
    || c == 0xfeff

-- Where the loops over `chars` stand: in plain text, behind an ESC, in the body of a CSI or an OSC
-- sequence, or behind the ESC that ends an OSC sequence.
pub data StripState : Type 0 where
  plain escape csi osc osc_end : StripState

-- The main loop's `match c`, with the state to go on in and whether `c` is kept.
plain_step : ℕ → StripState × Bool
unfolding is_strippable
plain_step c =
    if c == 0x1b
    then (escape, false)
    else if c == 0x9b
    then (csi, false)
    else if c == 10 || c == 9
    then (plain, true)
    else if is_strippable c
    then (plain, false)
    else (plain, true)

-- `consume_escape`, `consume_csi_body` and `consume_osc_body`, one character at a time.
strip_step : StripState → ℕ → StripState × Bool
unfolding plain_step
strip_step plain c = plain_step c
strip_step escape c = (if c == b'[' then csi else if c == b']' then osc else plain, false)
strip_step csi c = (if leb 0x40 c && leb c 0x7e then plain else csi, false)
strip_step osc c = (if c == 7 then plain else if c == 0x1b then osc_end else osc, false)
strip_step osc_end c = if c == 0x5c then (plain, false) else plain_step c

strip_from : StripState → Text → Text
strip_from st [] = []
strip_from st (c ∷ s) =
    let (st', keep) = strip_step st c in
    let rest = strip_from st' s in if keep then c ∷ rest else rest

unfoldable pub strip_controls : Text → Text
unfolding strip_from strip_step
strip_controls s = strip_from plain s

unfoldable pub cap : Text → ℕ → Text
unfolding slice_to boundary_before
cap s max =
    if leb (len s) max
    then s
    else if ltb max (len truncation_marker)
    then slice_to truncation_marker (boundary_before truncation_marker max)
    else slice_to s (boundary_before s (max - len truncation_marker)) ++ truncation_marker

unfoldable pub sanitize : Text → ℕ → Text
unfolding strip_controls cap
sanitize s max = cap (strip_controls s) max

unfoldable pub sanitize_line : Text → ℕ → Text
unfolding sanitize
sanitize_line s max = map (λ c. if c == 10 || c == 9 then 32 else c) (sanitize s max)

flat_map : (ℕ → Text) → Text → Text
flat_map f [] = []
flat_map f (c ∷ s) = f c ++ flat_map f s

is_markdown_special : ℕ → Bool
is_markdown_special c = any (λ d. c == d) (codes "\\`*_{}[]()#+-.!|~")

md_inline_char : ℕ → Text
unfolding is_markdown_special
md_inline_char c =
    if c == 10 || c == 13
    then codes " "
    else if c == b'&'
    then codes "&amp;"
    else if c == b'<'
    then codes "&lt;"
    else if c == b'>'
    then codes "&gt;"
    else if is_markdown_special c
    then 0x5c ∷ c ∷ []
    else c ∷ []

unfoldable pub md_inline : Text → ℕ → Text
unfolding flat_map md_inline_char sanitize
md_inline s max = flat_map md_inline_char (sanitize s max)

xml_attr_char : ℕ → Text
xml_attr_char c =
    if c == 10 || c == 9 || c == 13
    then codes " "
    else if c == b'&'
    then codes "&amp;"
    else if c == b'<'
    then codes "&lt;"
    else if c == b'>'
    then codes "&gt;"
    else if c == 34
    then codes "&quot;"
    else if c == 39
    then codes "&apos;"
    else c ∷ []

unfoldable pub xml_attr : Text → ℕ → Text
unfolding flat_map xml_attr_char sanitize
xml_attr s max = flat_map xml_attr_char (sanitize s max)

xml_text_char : ℕ → Text
xml_text_char c =
    if c == b'&'
    then codes "&amp;"
    else if c == b'<'
    then codes "&lt;"
    else if c == b'>'
    then codes "&gt;"
    else c ∷ []

unfoldable pub xml_text : Text → ℕ → Text
unfolding flat_map xml_text_char sanitize
xml_text s max = flat_map xml_text_char (sanitize s max)

-- `ch`, each followed by a zero-width space, or alone.
spaced : ℕ → ℕ → Text
spaced ch zero = []
spaced ch (suc n) = ch ∷ 8203 ∷ spaced ch n

repeated : ℕ → ℕ → Text
repeated ch zero = []
repeated ch (suc n) = ch ∷ repeated ch n

-- The closure `flush`, on a run of `n`.
flush : ℕ → ℕ → Text
unfolding spaced repeated
flush ch n = if leb 3 n then spaced ch n else repeated ch n

-- What is still pushed, after the pending runs of backticks and of tildes.
code_from : ℕ → ℕ → Text → Text
unfolding flush
code_from backticks tildes [] = flush b'`' backticks ++ flush b'~' tildes
code_from backticks tildes (c ∷ s) =
    let ticked = code_from (backticks + 1) 0 s in
    let waved = code_from 0 (tildes + 1) s in
    let plain = code_from 0 0 s in
    if c == b'`'
    then flush b'~' tildes ++ ticked
    else if c == b'~'
    then flush b'`' backticks ++ waved
    else flush b'`' backticks ++ flush b'~' tildes ++ c ∷ plain

unfoldable pub md_code_block : Text → ℕ → Text
unfolding sanitize code_from
md_code_block s max = code_from 0 0 (sanitize s max)
