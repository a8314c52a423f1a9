-- ===== src/Sandbox/Run.antt =====
-- crates/jitgen-sandbox/src/run.rs: running a plan. Times are in milliseconds.
-- A waiting loop is given one round for each millisecond up to its deadline and one more: a round
-- that finds the deadline passed does not go on, and every other round sleeps.
pub mod Reported
pub mod Waiting
use jitgen.Core.Model.{ExecutionResult, Redaction}
use jitgen.Prelude.{
  Bool, List, Option, [], false, if◌then◌else◌, leb, length, ltb, min, none, not, some, suc, take,
  true, zero, ℕ, ◌%◌, ◌*◌, ◌++◌, ◌+◌, ◌-◌, ◌^◌, ◌||◌, ◌∷◌,
}
use jitgen.Prelude.Effect.{Exec, map_err, pure, ◌>>=◌}
use jitgen.Prelude.Result.{Result, err, guard, ok}
use jitgen.Prelude.Str.{Text, codes, show_nat}
use jitgen.Report.Escape.{cap}
use jitgen.Sandbox.Backend.{
  backend_id, has_silent_degradation_mode, stderr_shows_silent_degradation,
}
use jitgen.Sandbox.Capture.{collected, detect_build_failure, redact_capped, strip_marker_line}
use jitgen.Sandbox.Classify.{Disposition, classify}
use jitgen.Sandbox.Command.{SandboxPlan, start_sentinel}
use jitgen.Sandbox.Os.{
  ExitStatus, Launch, Os, Stream, act, err_stream, of_option, of_result, out_stream, read_off,
  settle,
}
use jitgen.Sandbox.Policy.{
  ExecPolicy, SandboxError, argv, io_error, sandbox_degraded, spawn_failed, untrusted_launcher,
}
use jitgen.Sandbox.Which.{resolve_trusted}

abbrev poll : ℕ
poll = 20

abbrev redact_window : ℕ
redact_window = 256 * 1024

abbrev cleanup_timeout : ℕ
cleanup_timeout = 10000

abbrev stderr_marker_scan_floor : ℕ
stderr_marker_scan_floor = 4096

-- The rounds that a deadline allows, from the current time on.
abbrev pub rounds_until : {W : Type 0} → Os W → ℕ → W → ℕ
rounds_until os deadline w = deadline - os.now w + 1

-- The capture caps of the two streams.
unfoldable pub out_cap : ExecPolicy → ℕ
out_cap policy = min redact_window policy.output_cap_bytes

unfoldable pub err_cap : SandboxPlan → ExecPolicy → ℕ
unfolding out_cap has_silent_degradation_mode
err_cap plan policy =
    let cap = out_cap policy in
    let scans = has_silent_degradation_mode plan.backend || plan.expects_start_sentinel in
    let floored =
      if scans
      then (if ltb cap stderr_marker_scan_floor then stderr_marker_scan_floor else cap)
      else cap in
    if plan.expects_start_sentinel then floored + (length start_sentinel + 1) else floored

-- What a finished child has left: its captured streams with their truncation flags, how it ended,
-- whether the watchdog ended it, and the time it took.
pub record Finished : Type 0 where
  pub stdout : List ℕ
  pub out_truncated : Bool
  pub stderr : List ℕ
  pub err_truncated : Bool
  pub status : ExitStatus
  pub timed_out : Bool
  pub elapsed : ℕ

-- The sentinel is taken out of the captured stderr where the plan expects it.
unfoldable pub strip_sentinel : SandboxPlan → List ℕ → List ℕ × Bool
unfolding strip_marker_line
strip_sentinel plan stderr =
    let (cleaned, found) = strip_marker_line stderr start_sentinel in
    if plan.expects_start_sentinel then (cleaned, not found) else (stderr, false)

-- The stderr that is scanned and returned, cut back to the user's cap.
capped_stderr : SandboxPlan → ExecPolicy → Finished → List ℕ × Bool
unfolding strip_sentinel out_cap
capped_stderr plan policy f =
    let cleaned = (strip_sentinel plan f.stderr).0 in
    let cap = out_cap policy in
    if ltb cap (length cleaned) then (take cap cleaned, true) else (cleaned, f.err_truncated)

disposition_of : (List ℕ → Text) → SandboxPlan → ExecPolicy → Finished → Disposition
unfolding strip_sentinel capped_stderr detect_build_failure
disposition_of lossy plan policy f = record {
  exit_code = f.status.code;
  signal = f.status.signal;
  timed_out = f.timed_out;
  build_failed =
      detect_build_failure lossy plan.build_signal f.status.code f.stdout
        (capped_stderr plan policy f).0;
  inner_never_started = (strip_sentinel plan f.stderr).1;
}

-- `duration_ms` is cut to a `u64`.
module _ (lossy : List ℕ → Text) (redact : Text → Redaction) where
  -- `run_reporting` from the captured streams on.
  unfoldable pub report_run : SandboxPlan → ExecPolicy → Finished → ExecutionResult × Bool
  unfolding strip_sentinel capped_stderr disposition_of classify redact_capped
  report_run plan policy f =
      let (capped, capped_truncated) = capped_stderr plan policy f in
      (
        record {
          outcome = classify (disposition_of lossy plan policy f);
          exit_code = f.status.code;
          duration_ms = f.elapsed % 2 ^ 64;
          truncated = f.out_truncated || capped_truncated;
          stdout = redact_capped lossy redact f.stdout f.out_truncated;
          stderr = redact_capped lossy redact capped capped_truncated;
        },
        (strip_sentinel plan f.stderr).1,
      )

module _ {W : Type 0} (os : Os W) where
  -- A launcher or tool in a trusted directory, as the file system stands.
  unfoldable pub resolve_now : Text → W → Option Text
  unfolding resolve_trusted
  resolve_now program w = resolve_trusted (λ p. os.is_executable p w) program

  give_up : ℕ → Exec W Text (Unit {0})
  give_up child = do _ ← act (os.kill child); _ ← os.wait child; pure tt

  -- The loop of `run_cleanup`.
  cleanup_loop : ℕ → ℕ → ℕ → Exec W Text (Unit {0})
  unfolding give_up
  cleanup_loop zero child deadline = give_up child
  cleanup_loop (suc fuel) child deadline = do
    ended ← os.try_wait child
    now ← read_off os.now
    let rest = cleanup_loop fuel child deadline
    elim ended [
      | some status ↦ pure tt
      | none ↦ if leb deadline now then give_up child else (do _ ← act (os.sleep poll); rest)
    ]

  -- `run_cleanup`: its errors only end it.
  run_cleanup : List Text → W → W
  run_cleanup [] w = w
  run_cleanup (program ∷ rest) w = spawn_with (resolve_now program w)
    where
      waited : Result Text ℕ × W → W
      waited (err e, w1) = w1
      waited (ok child, w1) =
          let deadline = os.now w1 + cleanup_timeout in
          (cleanup_loop (rounds_until os deadline w1) child deadline w1).1

      spawn_with : Option Text → W
      spawn_with none = w
      spawn_with (some absolute) = waited (
          os.spawn
            (record {
              program = absolute;
              args = rest;
              cwd = none;
              env = some [];
              own_group = false;
              captured = false;
            })
            w)

  -- The kill, teardown and reaping once the deadline has passed.
  expire : ℕ → SandboxPlan → Exec W SandboxError (ExitStatus × Bool)
  unfolding run_cleanup
  expire child plan = do
    _ ← act (os.kill child)
    _ ← act (λ w. elim plan.cleanup [ none ↦ w | some argv ↦ run_cleanup argv w ])
    status ← map_err io_error (os.wait child)
    pure (status, true)

  -- One round of `wait_with_timeout`, behind `try_wait`, with the rounds that follow.
  wait_next :
      Exec W SandboxError (ExitStatus × Bool)
      → ℕ
      → SandboxPlan
      → ℕ
      → Option ExitStatus
      → Exec W SandboxError (ExitStatus × Bool)
  unfolding expire
  wait_next rest child plan deadline (some status) = pure (status, false)
  wait_next rest child plan deadline none = do
    now ← read_off os.now
    if leb deadline now then expire child plan else (do _ ← act (os.sleep poll); rest)

  -- `wait_with_timeout`.
  pub wait_loop : ℕ → ℕ → SandboxPlan → ℕ → Exec W SandboxError (ExitStatus × Bool)
  unfolding expire wait_next
  wait_loop zero child plan deadline = expire child plan
  wait_loop (suc fuel) child plan deadline = do
    let rest = wait_loop fuel child plan deadline
    ended ← map_err io_error (os.try_wait child)
    wait_next rest child plan deadline ended

  unfoldable pub kill_process_group : ℕ → W → W
  unfolding resolve_now show_nat
  kill_process_group pid w = elim (resolve_now (codes "kill") w) [
    | none ↦ w
    | some kill ↦
        os.status
          (record {
            program = kill;
            args = codes "-KILL" ∷ (codes "-" ++ show_nat pid) ∷ [];
            cwd = none;
            env = none;
            own_group = false;
            captured = false;
          })
          w
  ]

  -- `collect` of a stream.
  collect : ℕ → Stream → ℕ → Exec W SandboxError (List ℕ × Bool)
  unfolding collected
  collect child stream cap w =
      let ((rs, finished), later) = os.reads child stream w in
      (ok (collected cap rs finished), later)

  was_error : {A : Type 0} → Result SandboxError A → Bool
  was_error (ok a) = false
  was_error (err e) = true

  -- How the untrusted command is launched: from a trusted directory, in a cleared environment.
  abbrev pub launch_of : SandboxPlan → Text → Launch
  launch_of plan program = record {
    program = program;
    args = plan.args;
    cwd = some plan.cwd;
    env = some plan.env;
    own_group = plan.new_process_group;
    captured = true;
  }

  -- `run_reporting` up to the reaped child with its streams.
  finish_child : (List ℕ → Text) → SandboxPlan → ExecPolicy → ℕ → ℕ → Exec W SandboxError Finished
  unfolding wait_loop kill_process_group collect was_error err_cap out_cap
      stderr_shows_silent_degradation backend_id
  finish_child lossy plan policy start child = do
    let deadline = start + policy.timeout_secs * 1000
    fuel ← read_off (rounds_until os deadline)
    waited ← settle (wait_loop fuel child plan deadline)
    _ ← act (λ w. if was_error waited then os.kill child w else w)
    _ ← act (λ w. if plan.new_process_group then kill_process_group child w else w)
    (stdout, out_truncated) ← collect child out_stream (out_cap policy)
    (stderr, err_truncated) ← collect child err_stream (err_cap plan policy)
    _ ← of_result (
        guard (not (stderr_shows_silent_degradation plan.backend (lossy stderr)))
          (sandbox_degraded (backend_id plan.backend)))
    (status, timed_out) ← of_result waited
    elapsed ← read_off (λ w. os.now w - start)
    pure (record {
      stdout = stdout;
      out_truncated = out_truncated;
      stderr = stderr;
      err_truncated = err_truncated;
      status = status;
      timed_out = timed_out;
      elapsed = elapsed;
    })

  pub run_reporting :
      (List ℕ → Text)
      → (Text → Redaction)
      → SandboxPlan
      → ExecPolicy
      → Exec W SandboxError (ExecutionResult × Bool)
  unfolding finish_child resolve_now report_run
  run_reporting lossy redact plan policy = do
    start ← read_off os.now
    resolved ← read_off (resolve_now plan.program)
    program ← of_option (untrusted_launcher plan.program) resolved
    child ← map_err (spawn_failed plan.program) (os.spawn (launch_of plan program))
    finished ← finish_child lossy plan policy start child
    pure (report_run lossy redact plan policy finished)
