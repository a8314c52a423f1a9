-- ===== src/Sandbox/Os.antt =====
-- The operations of `std::fs`, `std::process` and `std::time` that jitgen-sandbox calls.
-- They are a parameter; bytes and paths are lists of numbers, an `io::Error` is its text.
pub mod Given
use jitgen.Prelude.{Bool, List, Option, none, some, ℕ}
use jitgen.Prelude.Effect.{Exec}
use jitgen.Prelude.Result.{Result, err, ok}
use jitgen.Prelude.Str.{Text}
use jitgen.Prelude.TextMap.{TextMap}

pub record ExitStatus : Type 0 where
  pub code : Option ℕ
  pub signal : Option ℕ

-- What a `Command` is built with; without `env` the child inherits the environment.
pub record Launch : Type 0 where
  pub program : Text
  pub args : List Text
  pub cwd : Option Text
  pub env : Option TextMap
  pub own_group : Bool
  pub captured : Bool

pub data Stream : Type 0 where
  out_stream err_stream : Stream

-- What one `read` of a reader thread gave: bytes, or an error. The end of the stream is the end of
-- the list of reads.
pub data Read : Type 0 where
  chunk : List ℕ → Read
  read_error : Read

-- `reads` is what the reader thread of a stream has read when `collect` stops waiting for it, and
-- whether it has finished; `now` is in milliseconds.
pub record Os (W : Type 0) : Type 0 where
  pub is_executable : Text → W → Bool
  pub spawn : Launch → Exec W Text ℕ
  pub try_wait : ℕ → Exec W Text (Option ExitStatus)
  pub wait : ℕ → Exec W Text ExitStatus
  pub kill : ℕ → W → W
  pub status : Launch → W → W
  pub now : W → ℕ
  pub sleep : ℕ → W → W
  pub reads : ℕ → Stream → W → (List Read × Bool) × W

-- A reading of the world, and a change of it that cannot fail.
unfoldable pub read_off : {W E A : Type 0} → (W → A) → Exec W E A
read_off f w = (ok (f w), w)

unfoldable pub act : {W E : Type 0} → (W → W) → Exec W E (Unit {0})
act f w = (ok tt, f w)

-- A call whose result is looked at later.
unfoldable pub settle : {W D E A : Type 0} → Exec W D A → Exec W E (Result D A)
settle m w = (ok (m w).0, (m w).1)

unfoldable pub of_result : {W E A : Type 0} → Result E A → Exec W E A
of_result r w = (r, w)

unfoldable pub of_option : {W E A : Type 0} → E → Option A → Exec W E A
of_option e none w = (err e, w)
of_option e (some a) w = (ok a, w)
