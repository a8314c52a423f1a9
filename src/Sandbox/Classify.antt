-- ===== src/Sandbox/Classify.antt =====
-- crates/jitgen-sandbox/src/classify.rs: the coarse outcome of a finished process.
use jitgen.Core.Model.{ExecOutcome, build_error, errored, failed, passed, timeout}
use jitgen.Prelude.{
  Bool, Option, Option-cases, arith, false, if◌then◌else◌, inl, inr, none, some, true, ℕ, ◌==◌,
  ◌||◌, ◌↔◌, ◌≡◌, ◌≢◌,
}

-- `exit_code` and `signal` are two's complement patterns of an `i32`.
pub record Disposition : Type 0 where
  pub exit_code : Option ℕ
  pub signal : Option ℕ
  pub timed_out : Bool
  pub build_failed : Bool
  pub inner_never_started : Bool

is_some : Option ℕ → Bool
is_some none = false
is_some (some n) = true

classify_exit : Option ℕ → ExecOutcome
classify_exit none = errored
classify_exit (some n) = if n == 0 then passed else if n == 126 || n == 127 then errored else failed

unfoldable pub classify : Disposition → ExecOutcome
unfolding is_some classify_exit
classify d =
    if d.timed_out
    then timeout
    else if d.inner_never_started
    then errored
    else if is_some d.signal
    then errored
    else if d.build_failed
    then build_error
    else classify_exit d.exit_code

-- The process ran to an exit of its own: no watchdog, no wrapper failure, no signal, no build failure.
pub record RanToExit (d : Disposition) : Type 0 where
  pub in_time : d.timed_out ≡ false
  pub started : d.inner_never_started ≡ false
  pub unsignalled : d.signal ≡ none
  pub built : d.build_failed ≡ false

-- An exit code that a test runner leaves when a test failed.
abbrev pub FailureCode : Option ℕ → Type 0
FailureCode code = (n : ℕ) × (code ≡ some n) × (n ≢ 0) × (n ≢ 126) × (n ≢ 127)

failed→code : (d : Disposition) → classify d ≡ failed → FailureCode d.exit_code
unfolding classify
failed→code d h = elim (Option-cases d.exit_code) [
  | inl e ↦ ground arith
  | inr (n, e) ↦ (n, e, ground arith, ground arith, ground arith)
]

-- A test counts as failed exactly when it ran to an exit code other than 0, 126 and 127.
pub classify-failed_iff :
    (d : Disposition) → (classify d ≡ failed) ↔ (RanToExit d × FailureCode d.exit_code)
unfolding classify
classify-failed_iff d = (λ h. (ground arith, failed→code d h), λ h. ground arith)

-- And as passed exactly when it ran to exit code 0.
pub classify-passed_iff :
    (d : Disposition) → (classify d ≡ passed) ↔ (RanToExit d × (d.exit_code ≡ some 0))
unfolding classify
classify-passed_iff d = ground arith
