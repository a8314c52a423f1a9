-- ===== src/Prelude/Numbers.antt =====
-- Rust's parsing of unsigned integers, on a 64-bit machine. A sign `+` may stand in front of the digits.
use jitgen.Prelude.{Option, [], if◌then◌else◌, ltb, none, some, ℕ, ◌*◌, ◌+◌, ◌-◌, ◌==◌, ◌^◌, ◌∷◌}
use jitgen.Prelude.Str.{Text, is_ascii_digit}

digits_value : ℕ → Text → Option ℕ
unfolding is_ascii_digit
digits_value acc [] = some acc
digits_value acc (c ∷ s) =
    let later = digits_value (acc * 10 + (c - b'0')) s in if is_ascii_digit c then later else none

unsigned : Text → Option ℕ
unfolding digits_value
unsigned [] = none
unsigned (c ∷ s) = digits_value 0 (c ∷ s)

in_range : ℕ → Option ℕ → Option ℕ
in_range width none = none
in_range width (some n) = if ltb n (2 ^ width) then some n else none

-- `str::parse` to an unsigned integer of that width.
unfoldable pub parse_unsigned : ℕ → Text → Option ℕ
unfolding unsigned in_range
parse_unsigned width [] = none
parse_unsigned width (c ∷ s) = in_range width (if c == b'+' then unsigned s else unsigned (c ∷ s))

unfoldable pub parse_usize : Text → Option ℕ
unfolding parse_unsigned
parse_usize s = parse_unsigned 64 s

unfoldable pub parse_u32 : Text → Option ℕ
unfolding parse_unsigned
parse_u32 s = parse_unsigned 32 s
