-- ===== src/Prelude/Effect.antt =====
-- Calls of a stateful outside world that may fail, with total-correctness triples about them.
-- A call returns the world it leaves behind beside its value and beside its error.
use jitgen.Prelude.{Bool, false, if◌then◌else◌, refl, true, ◌≡◌}
use jitgen.Prelude.Result.{Result, err, ok}

-- `?` is bind: an error ends the block, and what was done to the world before it stays done.
abbrev pub Exec : Type 0 → Type 0 → Type 0 → Type 0
Exec W E A = W → Result E A × W

module _ {W E A : Type 0} where
  unfoldable pub pure : A → Exec W E A
  pure a w = (ok a, w)

  unfoldable pub raise : E → Exec W E A
  raise e w = (err e, w)

module _ {W E A B : Type 0} where
  abbrev pub continue : (A → Exec W E B) → Result E A × W → Result E B × W
  continue f (ok a, w) = f a w
  continue f (err e, w) = (err e, w)

  infixl 5 ◌>>=◌
  unfoldable pub ◌>>=◌ : Exec W E A → (A → Exec W E B) → Exec W E B
  ◌>>=◌ m f w = continue f (m w)

-- `map_err`, which `?` applies to an error of another type.
abbrev pub map_end : {W D E A : Type 0} → (D → E) → Result D A × W → Result E A × W
map_end f (ok a, w) = (ok a, w)
map_end f (err d, w) = (err (f d), w)

unfoldable pub map_err : {W D E A : Type 0} → (D → E) → Exec W D A → Exec W E A
map_err f m w = map_end f (m w)

-- A postcondition for either ending.
abbrev pub Post : {W E A : Type 0} → (A → W → Type 0) → (E → W → Type 0) → Result E A × W → Type 0
Post Q R (ok a, w) = Q a w
Post Q R (err e, w) = R e w

-- From a world with `P`, `m` ends with a value and `Q`, or with an error and `R`.
pub record Triple {W E A : Type 0} (P : W → Type 0) (m : Exec W E A) (Q : A → W → Type 0)
    (R : E → W → Type 0) : Type 0 where
  pub run : (w : W) → P w → Post Q R (m w)

module _ {W E A : Type 0} {P : W → Type 0} {Q : A → W → Type 0} {R : E → W → Type 0} where
  pub Triple-pure : (a : A) → ((w : W) → P w → Q a w) → Triple P (pure a) Q R
  unfolding pure
  Triple-pure a h = record { run = h }

  pub Triple-raise : (e : E) → ((w : W) → P w → R e w) → Triple P (raise {A = A} e) Q R
  unfolding raise
  Triple-raise e h = record { run = h }

  pub Triple-if :
      (b : Bool) (m n : Exec W E A)
      → (b ≡ true → Triple P m Q R)
      → (b ≡ false → Triple P n Q R)
      → Triple P (if b then m else n) Q R
  Triple-if true m n hm hn = hm refl
  Triple-if false m n hm hn = hn refl

Post-weaken :
    {W E A : Type 0} (Q S : A → W → Type 0) (R : E → W → Type 0) (r : Result E A × W)
    → ((a : A) (w : W) → S a w → Q a w)
    → Post S R r
    → Post Q R r
Post-weaken Q S R (ok a, w) h p = h a w p
Post-weaken Q S R (err e, w) h p = p

pub Triple-weaken :
    {W E A : Type 0} {P : W → Type 0} {Q S : A → W → Type 0} {R : E → W → Type 0} {m : Exec W E A}
    → Triple P m S R
    → ((a : A) (w : W) → S a w → Q a w)
    → Triple P m Q R
Triple-weaken {Q} {S} {R} {m} t h = record { run = λ w p. Post-weaken Q S R (m w) h (t.run w p) }

Post-continue :
    {W E A B : Type 0} (Q : B → W → Type 0) (R : E → W → Type 0) (S : A → W → Type 0)
    (f : A → Exec W E B) (r : Result E A × W)
    → Post S R r
    → ((a : A) → Triple (S a) (f a) Q R)
    → Post Q R (continue f r)
Post-continue Q R S f (ok a, w) p k = (k a).run w p
Post-continue Q R S f (err e, w) p k = p

pub Triple-bind :
    {W E A B : Type 0} {P : W → Type 0} {Q : B → W → Type 0} {R : E → W → Type 0}
    {S : A → W → Type 0} (m : Exec W E A) (f : A → Exec W E B)
    → Triple P m S R
    → ((a : A) → Triple (S a) (f a) Q R)
    → Triple P (m >>= f) Q R
unfolding ◌>>=◌
Triple-bind {Q} {R} {S} m f t k = record { run = λ w p. Post-continue Q R S f (m w) (t.run w p) k }

Post-map_end :
    {W D E A : Type 0} (Q : A → W → Type 0) (R : E → W → Type 0) (f : D → E) (r : Result D A × W)
    → Post Q (λ d w. R (f d) w) r
    → Post Q R (map_end f r)
Post-map_end Q R f (ok a, w) p = p
Post-map_end Q R f (err d, w) p = p

pub Triple-map_err :
    {W D E A : Type 0} {P : W → Type 0} {Q : A → W → Type 0} {R : E → W → Type 0} (f : D → E)
    (m : Exec W D A)
    → Triple P m Q (λ d w. R (f d) w)
    → Triple P (map_err f m) Q R
unfolding map_err
Triple-map_err {Q} {R} f m t = record { run = λ w p. Post-map_end Q R f (m w) (t.run w p) }

-- A fact of the precondition that does not depend on the world.
pub Triple-fact :
    {W E A F : Type 0} {P : W → Type 0} {Q : A → W → Type 0} {R : E → W → Type 0} {m : Exec W E A}
    → (F → Triple P m Q R)
    → Triple (λ w. P w × F) m Q R
Triple-fact t = record { run = λ w p. (t p.1).run w p.0 }

-- Triples that start anywhere and ask nothing of an error: what a value that comes back satisfies.
abbrev pub Returns : {W E A : Type 0} → Exec W E A → (A → Type 0) → Type 0
Returns m F = Triple (λ w. Unit {0}) m (λ a w. F a) (λ e w. Unit {0})

Post-any : {W E A : Type 0} (r : Result E A × W) → Post (λ a w. Unit {0}) (λ e w. Unit {0}) r
Post-any (ok a, w) = tt
Post-any (err e, w) = tt

pub Returns-any : {W E A : Type 0} (m : Exec W E A) → Returns m (λ a. Unit {0})
Returns-any m = record { run = λ w p. Post-any (m w) }

pub Returns-bind :
    {W E A B : Type 0} {G : B → Type 0} (F : A → Type 0) (m : Exec W E A) (f : A → Exec W E B)
    → Returns m F
    → ((a : A) → F a → Returns (f a) G)
    → Returns (m >>= f) G
Returns-bind F m f t k = Triple-bind m f t λ a. record { run = λ w p. (k a p).run w tt }

-- A call whose value does not matter.
pub Returns-after :
    {W E A B : Type 0} {G : B → Type 0} (m : Exec W E A) (f : A → Exec W E B)
    → ((a : A) → Returns (f a) G)
    → Returns (m >>= f) G
Returns-after m f k = Returns-bind (λ a. Unit) m f (Returns-any m) λ a p. k a

pub Returns-pure :
    {W E A : Type 0} {F : A → Type 0} (a : A) → F a → Returns {W = W} {E = E} (pure a) F
Returns-pure a h = Triple-pure a λ w p. h
