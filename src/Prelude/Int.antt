-- ===== src/Prelude/Int.antt =====
-- The integers that stand for an `i64`: a step's sequence number.
use mathlib.Core.Path.{◌≡◌}
use mathlib.Core.Bool.{Bool, true, ◌&&◌}
use Prim.Native.Nat.{ℕ, suc, ◌+◌, ◌≤◌}
use native.Mathlib.Omega.{arith}
use jitgen.Prelude.Tests.{ltb, ◌==◌}

-- `negsuc n` is -(n + 1).
pub data ℤ : Type 0 where
  pos : ℕ → ℤ
  negsuc : ℕ → ℤ

abbrev pub pos_part : ℤ → ℕ
pos_part (pos n) = n
pos_part (negsuc n) = 0

abbrev pub neg_part : ℤ → ℕ
neg_part (pos n) = 0
neg_part (negsuc n) = suc n

infix 50 ◌≤ℤ◌
abbrev pub ◌≤ℤ◌ : ℤ → ℤ → Type 0
a ≤ℤ b = pos_part a + neg_part b ≤ pos_part b + neg_part a

abbrev pub int_lt : ℤ → ℤ → Bool
int_lt a b = ltb (pos_part a + neg_part b) (pos_part b + neg_part a)

abbrev pub int_eq : ℤ → ℤ → Bool
int_eq a b = pos_part a == pos_part b && neg_part a == neg_part b

pub eq_of_parts : (a b : ℤ) → pos_part a ≡ pos_part b → neg_part a ≡ neg_part b → a ≡ b
eq_of_parts (pos m) (pos n) p q = ground (arith, p)
eq_of_parts (pos m) (negsuc n) p q = absurd (ground (arith, q))
eq_of_parts (negsuc m) (pos n) p q = absurd (ground (arith, q))
eq_of_parts (negsuc m) (negsuc n) p q = ground (arith, q)

pub eq_of_int_eq : (a b : ℤ) → int_eq a b ≡ true → a ≡ b
eq_of_int_eq a b h = eq_of_parts a b (ground (arith, h)) (ground (arith, h))

pub int_eq_refl : (a : ℤ) → int_eq a a ≡ true
int_eq_refl a = ground arith
