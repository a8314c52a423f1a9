-- ===== src/Report/Escape/Controls.antt =====
-- What `strip_controls` leaves of a text, and that `cap` keeps to its bytes.
use jitgen.Prelude.{
  All, Bool-cases, [], arith, false, inl, inr, true, ℕ, ◌-◌, ◌==◌, ◌∷◌, ◌<◌, ◌≡◌, ◌≢◌, ◌≤◌,
}
use jitgen.Prelude.Bytes.{len-append, len-cut-le}
use jitgen.Prelude.Str.{Text, boundary_before, len, slice_to}
use jitgen.Report.Escape.{
  StripState, cap, csi, escape, is_strippable, osc, osc_end, plain, plain_step, strip_controls,
  strip_from, strip_step, truncation_marker,
}

-- The characters that are never shown: the controls below U+0020 but tab and line feed, those from U+007F
-- to U+009F, the line and paragraph separators, the zero-width characters and the marks U+200B to
-- U+200F, the bidirectional embeddings, overrides and isolates, and the byte order mark.
pub data Hidden (c : ℕ) : Type 0 where
  control : c < 32 → c ≢ 9 → c ≢ 10 → Hidden c
  delete_or_high : 127 ≤ c → c ≤ 159 → Hidden c
  separator : 0x2028 ≤ c → c ≤ 0x2029 → Hidden c
  zero_width : 0x200b ≤ c → c ≤ 0x200f → Hidden c
  bidi_override : 0x202a ≤ c → c ≤ 0x202e → Hidden c
  bidi_isolate : 0x2066 ≤ c → c ≤ 0x2069 → Hidden c
  byte_order_mark : c ≡ 0xfeff → Hidden c

-- A character that is none of these.
abbrev pub Printable : ℕ → Type 0
Printable c = ¬ Hidden c

Hidden-is_strippable : (c : ℕ) → Hidden c → is_strippable c ≡ true
unfolding is_strippable
Hidden-is_strippable c (control l t n) = ground arith
Hidden-is_strippable c (delete_or_high l h) = ground arith
Hidden-is_strippable c (separator l h) = ground arith
Hidden-is_strippable c (zero_width l h) = ground arith
Hidden-is_strippable c (bidi_override l h) = ground arith
Hidden-is_strippable c (bidi_isolate l h) = ground arith
Hidden-is_strippable c (byte_order_mark e) = ground arith

Printable-of : (c : ℕ) → is_strippable c ≡ false → Printable c
Printable-of c e hidden = absurd (ground (arith, Hidden-is_strippable c hidden, e))

plain_step-keeps : (c : ℕ) → (plain_step c).1 ≡ true → Printable c
unfolding plain_step
plain_step-keeps c h = Printable-of c (kept c h)
  where
    kept : (c : ℕ) → (plain_step c).1 ≡ true → is_strippable c ≡ false
    kept c h = ground arith

strip_step-keeps : (st : StripState) (c : ℕ) → (strip_step st c).1 ≡ true → Printable c
unfolding strip_step
strip_step-keeps plain c h = plain_step-keeps c h
strip_step-keeps escape c h = absurd (ground (arith, h))
strip_step-keeps csi c h = absurd (ground (arith, h))
strip_step-keeps osc c h = absurd (ground (arith, h))
strip_step-keeps osc_end c h = elim (Bool-cases (c == 0x5c)) [
  | inl e ↦ absurd (ground arith)
  | inr e ↦ plain_step-keeps c (ground arith)
]

strip_from-Printable : (st : StripState) (s : Text) → All Printable (strip_from st s)
unfolding strip_from
strip_from-Printable st [] = tt
strip_from-Printable st (c ∷ s) =
    let ih = strip_from-Printable (strip_step st c).0 s in
    elim (Bool-cases (strip_step st c).1) [
      | inl e ↦ rw e (strip_step-keeps st c e, ih)
      | inr e ↦ rw e ih
    ]

-- No character of a stripped text is a control below U+0020 other than tab and line feed, one from
-- U+007F to U+009F, a line or paragraph separator, one of U+200B to U+200F, a bidirectional embedding,
-- override or isolate, or the byte order mark; other format characters, such as U+061C and U+2060, are kept.
pub strip_controls-Printable : (s : Text) → All Printable (strip_controls s)
unfolding strip_controls
strip_controls-Printable s = strip_from-Printable plain s

-- A text capped at `max` has at most `max` bytes of UTF-8, its truncation marker included.
pub len-cap-le : (s : Text) (max : ℕ) → len (cap s max) ≤ max
unfolding cap
len-cap-le s max = ground (
  arith,
  len-cut-le truncation_marker max,
  len-cut-le s (max - len truncation_marker),
  len-append (slice_to s (boundary_before s (max - len truncation_marker))) truncation_marker,
)
