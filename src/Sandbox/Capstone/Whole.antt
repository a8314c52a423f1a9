-- ===== src/Sandbox/Capstone/Whole.antt =====
-- What a sandboxed run that returns a result has gone through.
use jitgen.Core.Model.{ExecutionResult, Redaction}
use jitgen.Prelude.{Bool, List, Option, ℕ, ◌≡◌}
use jitgen.Prelude.Paths.{push}
use jitgen.Prelude.Result.{Result, ok}
use jitgen.Prelude.Str.{Text, codes}
use jitgen.Sandbox.Capstone.{Files, RunRequest, Sandbox}
use jitgen.Sandbox.Command.{PlanInput, SandboxPlan}
use jitgen.Sandbox.Env.Entries.{EnvInput, env_of}
use jitgen.Sandbox.Os.{Os}
use jitgen.Sandbox.Plans.Sound.Whole.{PlanSound}
use jitgen.Sandbox.Run.Reported.{ReportedRun}

module _ {W : Type 0} (os : Os W) (files : Files W) (lossy : List ℕ → Text)
    (redact : Text → Redaction) (listen : W → Option ℕ × W) (debug : Text → Text) where
  -- The directories of a run: the real roots of the request, and the synthetic ones below the overlay.
  pub record Prepared (s : Sandbox) (req : RunRequest) (i : EnvInput) : Type 0 where
    pub under_policy : i.policy ≡ s.policy
    pub overlay : (w : W) × (files.canonicalize req.overlay_root w ≡ ok i.overlay_root)
    pub state : (w : W) × (files.canonicalize req.state_root w ≡ ok i.state_root)
    pub own_home : i.home ≡ push i.overlay_root (codes ".jitgen-home")
    pub own_tmp : i.tmp ≡ push i.overlay_root (codes ".jitgen-tmp")
    pub parent_read : (w : W) × (files.process_env w ≡ i.parent)

  -- The run's plan is sound for the request, its environment is the one built, and its result is
  -- reported.
  pub record Sandboxed (s : Sandbox) (req : RunRequest) (result : ExecutionResult) : Type 0 where
    pub input : EnvInput
    pub asked : PlanInput
    pub plan : SandboxPlan
    pub never_started : Bool
    pub prepared : Prepared s req input
    pub own_backend : asked.backend ≡ s.backend
    pub own_command : asked.req ≡ req.command
    pub own_policy : asked.policy ≡ s.policy
    pub own_overlay : asked.overlay_root ≡ input.overlay_root
    pub own_env : asked.env ≡ (env_of debug input).0
    pub sound : PlanSound asked plan
    pub reported : ReportedRun os lossy redact plan s.policy (result, never_started)
