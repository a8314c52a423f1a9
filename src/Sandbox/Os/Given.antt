-- ===== src/Sandbox/Os/Given.antt =====
-- What the value of a call tells of the call.
use jitgen.Prelude.{Option, ap, none, refl, some, ◌≡◌}
use jitgen.Prelude.Effect.{Exec, Post, Returns, Triple-map_err, map_err}
use jitgen.Prelude.Result.{Result, err, ok}
use jitgen.Sandbox.Os.{of_option, of_result, read_off}

module _ {W : Type 0} where
  -- A value is one that the call gave at some world.
  pub given : {E A : Type 0} (m : Exec W E A) → Returns m (λ a. (w : W) × ((m w).0 ≡ ok a))
  given {E} {A} m = record { run = λ w p. of_call w (m w) refl }
    where
      of_call :
          (w : W) (r : Result E A × W)
          → m w ≡ r
          → Post (λ a v. (w : W) × ((m w).0 ≡ ok a)) (λ e v. Unit {0}) r
      of_call w (ok a, v) e = (w, ap (λ q. q.0) e)
      of_call w (err x, v) e = tt

  pub given-map_err :
      {D E A : Type 0} (f : D → E) (m : Exec W D A)
      → Returns (map_err f m) (λ a. (w : W) × ((m w).0 ≡ ok a))
  given-map_err f m = Triple-map_err f m (given m)

  pub given-read_off :
      {E A : Type 0} (f : W → A) → Returns {W = W} {E = E} (read_off f) (λ a. (w : W) × (f w ≡ a))
  unfolding read_off
  given-read_off f = record { run = λ w p. (w, refl) }

  pub given-option :
      {E A : Type 0} (e : E) (o : Option A) → Returns {W = W} (of_option e o) (λ a. o ≡ some a)
  unfolding of_option
  given-option e none = record { run = λ w p. tt }
  given-option e (some a) = record { run = λ w p. refl }

  pub given-result : {E A : Type 0} (r : Result E A) → Returns {W = W} (of_result r) (λ a. r ≡ ok a)
  unfolding of_result
  given-result (ok a) = record { run = λ w p. refl }
  given-result (err e) = record { run = λ w p. tt }
