-- ===== src/Sandbox/Run/Reported.antt =====
-- What a reported run says.
use jitgen.Core.Model.{ExecutionResult, Redaction, failed, passed}
use jitgen.Prelude.{Bool, List, any, false, length, none, some, true, ℕ, ◌≡◌, ◌≤◌, ◌⊎◌}
use jitgen.Prelude.Result.{Result, ok}
use jitgen.Prelude.Str.{Text, split, text_eq}
use jitgen.Report.Escape.{cap}
use jitgen.Sandbox.Backend.{stderr_shows_silent_degradation}
use jitgen.Sandbox.Capture.{collected}
use jitgen.Sandbox.Command.{SandboxPlan, start_sentinel}
use jitgen.Sandbox.Os.{ExitStatus, Launch, Os, Stream, err_stream, out_stream}
use jitgen.Sandbox.Policy.{ExecPolicy}
use jitgen.Sandbox.Run.{Finished, err_cap, out_cap, report_run, resolve_now}

-- A result that counts as a test outcome: the command ran to an exit of its own, and where the plan
-- expects the sentinel, it stands on a line of the captured stderr.
pub record Counted (plan : SandboxPlan) (f : Finished) : Type 0 where
  pub in_time : f.timed_out ≡ false
  pub unsignalled : f.status.signal ≡ none
  pub reached :
      plan.expects_start_sentinel ≡ true
      → any (λ l. text_eq l start_sentinel) (split 10 f.stderr) ≡ true

module _ {W : Type 0} (os : Os W) (lossy : List ℕ → Text) (redact : Text → Redaction) where
  -- How the child ended: by itself, as a poll told, or by the watchdog, which reaped it.
  abbrev pub EndedBy : ℕ → ExitStatus → Bool → Type 0
  EndedBy child status timed_out =
      ((w : W) × ((os.try_wait child w).0 ≡ ok (some status)) × (timed_out ≡ false))
      ⊎ ((w : W) × ((os.wait child w).0 ≡ ok status) × (timed_out ≡ true))

  -- What was collected of a stream of the child.
  abbrev pub CollectedOf : ℕ → Stream → ℕ → List ℕ → Bool → Type 0
  CollectedOf child stream cap bytes truncated =
      (w : W) × ((bytes, truncated)
        ≡ collected cap (os.reads child stream w).0.0 (os.reads child stream w).0.1)

  -- The child was launched as the plan says, by a launcher from a trusted directory.
  pub record LaunchedAs (plan : SandboxPlan) (child : ℕ) : Type 0 where
    pub launch : Launch
    pub resolved : (w : W) × (resolve_now os plan.program w ≡ some launch.program)
    pub spawned : (w : W) × ((os.spawn launch w).0 ≡ ok child)
    pub arguments : launch.args ≡ plan.args
    pub directory : launch.cwd ≡ some plan.cwd
    pub environment : launch.env ≡ some plan.env

  -- The result is that of a child of the plan: its end, and its captured streams, which kept within
  -- their caps and showed no silent degradation.
  pub record ReportedRun (plan : SandboxPlan) (policy : ExecPolicy) (r : ExecutionResult × Bool)
      : Type 0 where
    pub finished : Finished
    pub child : ℕ
    pub launched : LaunchedAs plan child
    pub ended : EndedBy child finished.status finished.timed_out
    pub out_of :
        CollectedOf child out_stream (out_cap policy) finished.stdout finished.out_truncated
    pub err_of :
        CollectedOf child err_stream (err_cap plan policy) finished.stderr finished.err_truncated
    pub reported : r ≡ report_run lossy redact plan policy finished
    pub out_capped : length finished.stdout ≤ out_cap policy
    pub err_capped : length finished.stderr ≤ err_cap plan policy
    pub counted : (r.0.outcome ≡ failed) ⊎ (r.0.outcome ≡ passed) → Counted plan finished
    pub undegraded : stderr_shows_silent_degradation plan.backend (lossy finished.stderr) ≡ false

  EndedPair : ℕ → ExitStatus × Bool → Type 0
  EndedPair child p = EndedBy child p.0 p.1

  -- What `finish_child` gives back.
  record Captured (plan : SandboxPlan) (policy : ExecPolicy) (child : ℕ) (f : Finished)
      : Type 0 where
    ended : EndedBy child f.status f.timed_out
    out_of : CollectedOf child out_stream (out_cap policy) f.stdout f.out_truncated
    err_of : CollectedOf child err_stream (err_cap plan policy) f.stderr f.err_truncated
    out_capped : length f.stdout ≤ out_cap policy
    err_capped : length f.stderr ≤ err_cap plan policy
    undegraded : stderr_shows_silent_degradation plan.backend (lossy f.stderr) ≡ false
