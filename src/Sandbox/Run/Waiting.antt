-- ===== src/Sandbox/Run/Waiting.antt =====
-- The watchdog loop stops in time.
use jitgen.Prelude.{
  Bool, Bool-cases, Option, arith, inl, inr, leb, none, refl, some, suc, zero, ℕ, ◌<◌, ◌≡◌, ◌≤◌,
}
use jitgen.Prelude.Effect.{Exec, continue, map_end, map_err, pure, ◌>>=◌}
use jitgen.Prelude.Result.{Result, err, ok}
use jitgen.Prelude.Str.{Text}
use jitgen.Sandbox.Command.{SandboxPlan}
use jitgen.Sandbox.Os.{ExitStatus, Os, act, read_off}
use jitgen.Sandbox.Policy.{SandboxError, io_error}
use jitgen.Sandbox.Run.{poll, rounds_until, wait_loop, wait_next}

-- The clock does not run back while a child is looked at, and a sleep takes time.
pub record Ticking {W : Type 0} (os : Os W) : Type 0 where
  pub looks : (child : ℕ) (w : W) → os.now w ≤ os.now (os.try_wait child w).1
  pub sleeps : (w : W) → os.now w < os.now (os.sleep poll w)

module _ {W : Type 0} (os : Os W) (ticking : Ticking os) (child : ℕ) (plan : SandboxPlan)
    (deadline : ℕ) where
  -- Two ways to go on agree after a round, if they agree once the clock has moved.
  round-same :
      (m n : Exec W SandboxError (ExitStatus × Bool)) (r : Result Text (Option ExitStatus) × W)
      → ((w : W) → os.now r.1 < os.now w → os.now r.1 < deadline → m w ≡ n w)
      → continue (wait_next os m child plan deadline) (map_end io_error r)
        ≡ continue (wait_next os n child plan deadline) (map_end io_error r)
  unfolding wait_next ◌>>=◌ read_off act pure
  round-same m n (err e, w) h = refl
  round-same m n (ok (some status), w) h = refl
  round-same m n (ok none, w) h = elim (Bool-cases (leb deadline (os.now w))) [
    | inl e ↦ rw e refl
    | inr e ↦ rw e (h (os.sleep poll w) (ticking.sleeps w) (ground arith))
  ]

  -- Enough rounds: more of them change nothing.
  pub wait_loop-fuel :
      (m n : ℕ) (w : W)
      → rounds_until os deadline w ≤ m
      → rounds_until os deadline w ≤ n
      → wait_loop os m child plan deadline w ≡ wait_loop os n child plan deadline w
  unfolding wait_loop ◌>>=◌ map_err
  wait_loop-fuel zero n w hm hn = absurd (omega arith)
  wait_loop-fuel (suc m) zero w hm hn = absurd (omega arith)
  wait_loop-fuel (suc m) (suc n) w hm hn = round-same _ _ (os.try_wait child w) λ later moved early.
      let looked = ticking.looks child w in
      wait_loop-fuel m n later (omega (arith, looked)) (omega (arith, looked))
