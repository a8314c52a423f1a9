-- ===== src/Prelude/Result.antt =====
-- Rust's `Result`: a value or an error, with `?` as bind.
use jitgen.Prelude.{Bool, ap, arith, false, refl, true, ◌≡◌}

pub data Result {ℓ κ} (E : Type ℓ) (A : Type κ) : Type (ℓ ⊔ κ) where
  ok : A → Result E A
  err : E → Result E A

module _ {ℓ κ} {E : Type ℓ} {A B : Type κ} where
  infixl 5 ◌>>=◌
  abbrev pub ◌>>=◌ : Result E A → (A → Result E B) → Result E B
  ok a >>= f = f a
  err e >>= f = err e

-- A test that returns early with an error.
abbrev pub guard {ℓ} : {E : Type ℓ} → Bool → E → Result E (Unit {0})
guard true e = ok tt
guard false e = err e

value_or : {E A : Type 0} → A → Result E A → A
value_or d (ok a) = a
value_or d (err e) = d

pub ok_inj : {E A : Type 0} (a b : A) → Path (Result E A) (ok a) (ok b) → a ≡ b
unfolding value_or
ok_inj a b h = ap (value_or a) h

-- What a bind that ends with a value says of its two parts.
pub bind_ok :
    {E A B : Type 0} (m : Result E A) (f : A → Result E B) (b : B)
    → Path (Result E B) (m >>= f) (ok b)
    → (a : A) × Path (Result E A) m (ok a) × Path (Result E B) (f a) (ok b)
bind_ok (ok a) f b h = (a, refl, h)
bind_ok (err e) f b h = ground arith

pub guard_ok :
    {E : Type 0} (t : Bool) (e : E) (u : Unit {0})
    → Path (Result E Unit) (guard t e) (ok u)
    → t ≡ true
guard_ok true e u h = refl
guard_ok false e u h = ground arith
