-- ===== src/Prelude/Str.antt =====
-- Rust's `str` and `String` as lists of Unicode scalar values, with the `std` operations in use.
use Prim.Native.Char.{code}
use mathlib.Core.Path.{ap₂}
use jitgen.Prelude.{
  ==_iff, Bool, List, Option, String, [], and_split, ap, arith, false, if◌then◌else◌, is_empty, leb,
  length, ltb, map, none, refl, some, suc, sym, true, zero, ℕ, ◌%◌, ◌&&◌, ◌++◌, ◌+◌, ◌-◌, ◌/◌, ◌==◌,
  ◌||◌, ◌↔◌, ◌∙◌, ◌∷◌, ◌≡◌,
}

abbrev pub Text : Type 0
Text = List ℕ

-- The scalar values of a literal.
abbrev pub codes : String → Text
codes String.[] = []
codes (String.◌∷◌ c s) = code c ∷ codes s

-- `==` on strings.
unfoldable pub text_eq : Text → Text → Bool
text_eq [] [] = true
text_eq [] (d ∷ t) = false
text_eq (c ∷ s) [] = false
text_eq (c ∷ s) (d ∷ t) = c == d && text_eq s t

text_eq→eq : (s t : Text) → text_eq s t ≡ true → s ≡ t
unfolding text_eq
text_eq→eq [] [] h = refl
text_eq→eq [] (d ∷ t) h = ground arith
text_eq→eq (c ∷ s) [] h = ground arith
text_eq→eq (c ∷ s) (d ∷ t) h =
    let (p, q) = and_split (c == d) (text_eq s t) h in ap₂ ◌∷◌ ((==_iff c d).0 p) (text_eq→eq s t q)

pub text_eq_refl : (s : Text) → text_eq s s ≡ true
unfolding text_eq
text_eq_refl [] = refl
text_eq_refl (c ∷ s) = ground (arith, text_eq_refl s)

pub text_eq_iff : (s t : Text) → (text_eq s t ≡ true) ↔ (s ≡ t)
text_eq_iff s t = (text_eq→eq s t, λ e. ap (text_eq s) (sym e) ∙ text_eq_refl s)

-- `char::len_utf8`.
abbrev pub len_utf8 : ℕ → ℕ
len_utf8 c = if ltb c 0x80 then 1 else if ltb c 0x800 then 2 else if ltb c 0x10000 then 3 else 4

-- `str::len`, in bytes.
unfoldable pub len : Text → ℕ
len [] = 0
len (c ∷ s) = len_utf8 c + len s

-- `str::is_char_boundary`.
unfoldable pub is_char_boundary : Text → ℕ → Bool
is_char_boundary s zero = true
is_char_boundary [] (suc n) = false
is_char_boundary (c ∷ s) (suc n) =
    leb (len_utf8 c) (suc n) && is_char_boundary s (suc n - len_utf8 c)

-- `&s[..end]` at a character boundary.
unfoldable pub slice_to : Text → ℕ → Text
slice_to s zero = []
slice_to [] (suc n) = []
slice_to (c ∷ s) (suc n) = c ∷ slice_to s (suc n - len_utf8 c)

-- `while end > 0 && !s.is_char_boundary(end) { end -= 1 }`.
unfoldable pub boundary_before : Text → ℕ → ℕ
unfolding is_char_boundary
boundary_before s zero = zero
boundary_before s (suc e) =
    let down = boundary_before s e in if is_char_boundary s (suc e) then suc e else down

-- `char::is_whitespace` (the Unicode property White_Space).
unfoldable pub is_whitespace : ℕ → Bool
is_whitespace c =
    leb 9 c && leb c 13
    || c == 32
    || c == 0x85
    || c == 0xa0
    || c == 0x1680
    || leb 0x2000 c && leb c 0x200a
    || c == 0x2028
    || c == 0x2029
    || c == 0x202f
    || c == 0x205f
    || c == 0x3000

-- `char::is_control` (the general category Cc).
unfoldable pub is_control : ℕ → Bool
is_control c = leb c 0x1f || leb 0x7f c && leb c 0x9f

-- `char::is_ascii_alphanumeric`, `is_ascii_digit`.
unfoldable pub is_ascii_digit : ℕ → Bool
is_ascii_digit c = leb b'0' c && leb c b'9'

unfoldable pub is_ascii_alphanumeric : ℕ → Bool
unfolding is_ascii_digit
is_ascii_alphanumeric c = is_ascii_digit c || leb b'a' c && leb c b'z' || leb b'A' c && leb c b'Z'

-- `to_ascii_lowercase`, `to_ascii_uppercase` of a character.
unfoldable pub lower_char : ℕ → ℕ
lower_char c = if leb b'A' c && leb c b'Z' then c + 32 else c

unfoldable pub upper_char : ℕ → ℕ
upper_char c = if leb b'a' c && leb c b'z' then c - 32 else c

abbrev pub to_ascii_lowercase : Text → Text
to_ascii_lowercase = map lower_char

-- `str::starts_with`, `strip_prefix`, `contains`, `ends_with`.
unfoldable pub starts_with : Text → Text → Bool
starts_with s [] = true
starts_with [] (p ∷ ps) = false
starts_with (c ∷ s) (p ∷ ps) = c == p && starts_with s ps

unfoldable pub strip_prefix : Text → Text → Option Text
strip_prefix s [] = some s
strip_prefix [] (p ∷ ps) = none
strip_prefix (c ∷ s) (p ∷ ps) = let rest = strip_prefix s ps in if c == p then rest else none

unfoldable pub contains : Text → Text → Bool
unfolding starts_with
contains [] p = starts_with [] p
contains (c ∷ s) p = starts_with (c ∷ s) p || contains s p

unfoldable pub ends_with : Text → Text → Bool
unfolding starts_with
ends_with [] p = starts_with [] p && is_empty p
ends_with (c ∷ s) p = text_eq (c ∷ s) p || ends_with s p

-- `trim_start`, `trim_end`, `trim`.
unfoldable pub trim_start : Text → Text
unfolding is_whitespace
trim_start [] = []
trim_start (c ∷ s) = let rest = trim_start s in if is_whitespace c then rest else c ∷ s

unfoldable pub trim_end : Text → Text
unfolding is_whitespace
trim_end [] = []
trim_end (c ∷ s) =
    let rest = trim_end s in if is_empty rest && is_whitespace c then [] else c ∷ rest

unfoldable pub trim : Text → Text
unfolding trim_start trim_end
trim s = trim_start (trim_end s)

-- A character in front of the first piece.
unfoldable pub glue : ℕ → List Text → List Text
glue c [] = (c ∷ []) ∷ []
glue c (p ∷ ps) = (c ∷ p) ∷ ps

-- `str::split(sep)`: the pieces between the separators, at least one.
unfoldable pub split : ℕ → Text → List Text
unfolding glue
split sep [] = [] ∷ []
split sep (c ∷ s) = let rest = split sep s in if c == sep then [] ∷ rest else glue c rest

-- `join` with a separator text.
unfoldable pub join : Text → List Text → Text
join sep [] = []
join sep (p ∷ []) = p
join sep (p ∷ q ∷ ps) = p ++ sep ++ join sep (q ∷ ps)

-- A line without one final carriage return.
strip_cr : Text → Text
strip_cr [] = []
strip_cr (c ∷ []) = if c == 13 then [] else c ∷ []
strip_cr (c ∷ d ∷ l) = c ∷ strip_cr (d ∷ l)

-- The lines of the pieces of `split('\n')`. A piece in front of a line feed loses one carriage return; the
-- last piece is a line only if it is not empty, and is kept as it is.
lines_of : List Text → List Text
unfolding strip_cr
lines_of [] = []
lines_of ([] ∷ []) = []
lines_of ((c ∷ l) ∷ []) = (c ∷ l) ∷ []
lines_of (l ∷ m ∷ ls) = strip_cr l ∷ lines_of (m ∷ ls)

-- `str::lines`.
unfoldable pub lines : Text → List Text
unfolding split lines_of
lines s = lines_of (split 10 s)

-- A bare carriage return at the end of the text stays.
lines_cr : lines (codes "a\r\nb\r") ≡ codes "a" ∷ codes "b\r" ∷ []
unfolding lines
lines_cr = refl

-- `str::replace`: the matches of a pattern from left to right, none overlapping the one before.
replace_from : Text → Text → ℕ → Text → Text
replace_from p r skip [] = []
replace_from p r (suc skip) (c ∷ s) = replace_from p r skip s
replace_from p r zero (c ∷ s) =
    let matched = replace_from p r (length p - 1) s in
    let passed_over = replace_from p r zero s in
    if starts_with (c ∷ s) p then r ++ matched else c ∷ passed_over

unfoldable pub replace : Text → Text → Text → Text
unfolding replace_from starts_with
replace s p r = replace_from p r zero s

-- The decimal digits of a number, as `{}` prints it; a number has fewer digits than its fuel.
show_digits : ℕ → ℕ → Text
show_digits zero n = []
show_digits (suc fuel) n =
    let front = show_digits fuel (n / 10) in
    if ltb n 10 then (b'0' + n) ∷ [] else front ++ (b'0' + n % 10) ∷ []

unfoldable pub show_nat : ℕ → Text
unfolding show_digits
show_nat n = show_digits (n + 1) n
