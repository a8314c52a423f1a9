-- ===== src/Prelude/Float.antt =====
-- `f64` as a parameter: the operations and literals that the sources use, and IEEE 754 facts of them.
use jitgen.Prelude.{Bool, false, true, ◌≡◌}
use jitgen.Prelude.Str.{Text}

-- `le` and `lt` are false on NaN, as Rust's `<=` and `<` are; `fixed2` is the format `{:.2}`.
pub record Float (F : Type 0) : Type 0 where
  pub le : F → F → Bool
  pub lt : F → F → Bool
  pub min : F → F → F
  pub mul : F → F → F
  pub clamp : F → F → F → F
  pub is_finite : F → Bool
  pub zero : F
  pub point_two : F
  pub point_four : F
  pub point_five : F
  pub point_six : F
  pub point_eight : F
  pub one : F
  pub fixed2 : F → Text

-- `x` lies in [0, 1]; in particular it is no NaN.
abbrev pub InUnit : {F : Type 0} → Float F → F → Type 0
InUnit f x = (f.le f.zero x ≡ true) × (f.le x f.one ≡ true)

-- What the proofs use of the order, of `min` and `clamp` on [0, 1], and of products with 0 and 1.
pub record FloatLaws {F : Type 0} (f : Float F) : Type 0 where
  pub le_refl : (x : F) → InUnit f x → f.le x x ≡ true
  pub le_trans : (x y z : F) → f.le x y ≡ true → f.le y z ≡ true → f.le x z ≡ true
  pub min-le_left : (x y : F) → InUnit f x → InUnit f y → f.le (f.min x y) x ≡ true
  pub min-le_right : (x y : F) → InUnit f x → InUnit f y → f.le (f.min x y) y ≡ true
  pub le-min : (x y z : F) → f.le z x ≡ true → f.le z y ≡ true → f.le z (f.min x y) ≡ true
  pub clamp_unit : (x : F) → InUnit f x → f.clamp x f.zero f.one ≡ x
  pub clamp_in_unit : (x : F) → f.is_finite x ≡ true → InUnit f (f.clamp x f.zero f.one)
  pub zero_unit : InUnit f f.zero
  pub point_two_unit : InUnit f f.point_two
  pub point_five_unit : InUnit f f.point_five
  pub one_unit : InUnit f f.one
  pub one-not_le-point_two : f.le f.one f.point_two ≡ false
  pub one-not_le-point_five : f.le f.one f.point_five ≡ false
  pub one_mul : (x : F) → InUnit f x → f.mul f.one x ≡ x
  pub zero-mul-one : f.mul f.zero f.one ≡ f.zero
  pub zero-mul-zero : f.mul f.zero f.zero ≡ f.zero
  pub zero-mul-point_two : f.mul f.zero f.point_two ≡ f.zero
  pub zero-mul-point_five : f.mul f.zero f.point_five ≡ f.zero
