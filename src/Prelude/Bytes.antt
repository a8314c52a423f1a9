-- ===== src/Prelude/Bytes.antt =====
-- Byte lengths of prefixes that are cut at character boundaries.
use jitgen.Prelude.{
  [], and_split, arith, leb, leb→le, refl, suc, true, zero, ℕ, ◌++◌, ◌+◌, ◌-◌, ◌∷◌, ◌≡◌, ◌≤◌,
}
use jitgen.Prelude.Str.{Text, boundary_before, is_char_boundary, len, len_utf8, slice_to}

pub len-append : (s t : Text) → len (s ++ t) ≡ len s + len t
unfolding len
len-append [] t = omega arith
len-append (c ∷ s) t = omega (arith, len-append s t)

len_utf8_bounds : (c : ℕ) → (1 ≤ len_utf8 c) × (len_utf8 c ≤ 4)
len_utf8_bounds c = ground arith

pub len-slice_to : (s : Text) (e : ℕ) → is_char_boundary s e ≡ true → len (slice_to s e) ≡ e
unfolding len is_char_boundary slice_to
len-slice_to s zero h = refl
len-slice_to [] (suc e) h = cc
len-slice_to (c ∷ s) (suc e) h =
    let (p, q) = and_split (leb (len_utf8 c) (suc e)) (is_char_boundary s (suc e - len_utf8 c)) h in
    omega (arith, len-slice_to s (suc e - len_utf8 c) q, leb→le (len_utf8 c) (suc e) p)

pub boundary_before_lem :
    (s : Text) (e : ℕ)
    → (boundary_before s e ≤ e) × (is_char_boundary s (boundary_before s e) ≡ true)
unfolding boundary_before
boundary_before_lem [] zero = (omega arith, refl)
boundary_before_lem (c ∷ s) zero = (omega arith, refl)
boundary_before_lem s (suc e) = ground (arith, boundary_before_lem s e)

-- A cut at the last boundary within `e` bytes has at most `e` bytes.
pub len-cut-le : (s : Text) (e : ℕ) → len (slice_to s (boundary_before s e)) ≤ e
len-cut-le s e =
    let (le, boundary) = boundary_before_lem s e in
    omega (arith, len-slice_to s (boundary_before s e) boundary)
