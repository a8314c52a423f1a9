-- ===== src/Samples/Numbers.antt =====
-- Tenths in place of floats.
use jitgen.Prelude.{
  arith, if◌then◌else◌, leb, leb→le, le→leb, ltb, min, refl, true, ℕ, ◌*◌, ◌/◌, ◌≤◌,
}
use jitgen.Prelude.Float.{Float, FloatLaws}
use jitgen.Prelude.Str.{show_nat}

abbrev pub tenths : Float ℕ
tenths = record {
  le = leb;
  lt = ltb;
  min = min;
  mul = λ x y. x * y / 10;
  clamp = λ x lo hi. if ltb x lo then lo else if ltb hi x then hi else x;
  is_finite = λ x. true;
  zero = 0;
  point_two = 2;
  point_four = 4;
  point_five = 5;
  point_six = 6;
  point_eight = 8;
  one = 10;
  fixed2 = show_nat;
}

clamped : (x : ℕ) → (if ltb x 0 then 0 else if ltb 10 x then 10 else x) ≤ 10
clamped x = ground arith

pub tenths-laws : FloatLaws tenths
tenths-laws = record {
  le_refl = λ x u. ground arith;
  le_trans = λ x y z p q. ground arith;
  min-le_left = λ x y u v. le→leb _ _ (omega arith);
  min-le_right = λ x y u v. le→leb _ _ (omega arith);
  le-min = λ x y z p q. le→leb _ _ (omega (arith, leb→le _ _ p, leb→le _ _ q));
  clamp_unit = λ x u. ground arith;
  clamp_in_unit = λ x e. (ground arith, ground arith);
  zero_unit = (refl, refl);
  point_two_unit = (refl, refl);
  point_five_unit = (refl, refl);
  one_unit = (refl, refl);
  one-not_le-point_two = refl;
  one-not_le-point_five = refl;
  one_mul = λ x u. omega arith;
  zero-mul-one = refl;
  zero-mul-zero = refl;
  zero-mul-point_two = refl;
  zero-mul-point_five = refl;
}
