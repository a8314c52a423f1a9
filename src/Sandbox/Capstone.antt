-- ===== src/Sandbox/Capstone.antt =====
-- crates/jitgen-sandbox/src/sandbox.rs: selecting a backend and running a request.
pub mod Whole
use jitgen.Core.Model.{ExecutionResult, Redaction}
use jitgen.Prelude.{
  Bool, List, Option, [], false, if◌then◌else◌, not, true, ℕ, ◌&&◌, ◌++◌, ◌||◌, ◌∷◌,
}
use jitgen.Prelude.Effect.{Exec, map_err, pure, raise, ◌>>=◌}
use jitgen.Prelude.Paths.{push}
use jitgen.Prelude.Result.{Result, err, guard, ok}
use jitgen.Prelude.Str.{Text, codes}
use jitgen.Prelude.TextMap.{TextMap}
use jitgen.Sandbox.Backend.{
  Backend, TargetOs, backend_id, has_silent_degradation_mode, netns_helper,
  reprobes_on_inner_never_started, select,
}
use jitgen.Sandbox.Command.{PlanInput}
use jitgen.Sandbox.Detect.{available, backend_silently_degrades, detect, netns_helper_available}
use jitgen.Sandbox.Env.{extra_refusal_warnings}
use jitgen.Sandbox.Env.Entries.{EnvInput, env_of}
use jitgen.Sandbox.Os.{Os, of_result, read_off}
use jitgen.Sandbox.Plans.{build_plan}
use jitgen.Sandbox.Policy.{
  ExecPolicy, SandboxBackend, SandboxError, SpawnRequest, backend_unavailable_mid_run, io_error,
  sandbox_degraded, unsafe_synthetic_dir, use_netns_helper,
}
use jitgen.Sandbox.Run.{run_reporting}

pub record RunRequest : Type 0 where
  pub command : SpawnRequest
  pub overlay_root : Text
  pub state_root : Text
  pub instance_id : Text
  pub run_as : Option Text

pub record Sandbox : Type 0 where
  pub backend : Backend
  pub policy : ExecPolicy
  pub warnings : List Text

with_backend : List Text → ExecPolicy → Result SandboxError Backend → Result SandboxError Sandbox
with_backend warnings policy (ok b) =
    ok (record { backend = b; policy = policy; warnings = warnings })
with_backend warnings policy (err e) = err e

-- `Sandbox::new`.
unfoldable pub new_sandbox : (Text → Text) → List Backend → ExecPolicy → Result SandboxError Sandbox
unfolding select extra_refusal_warnings with_backend
new_sandbox debug available policy =
    with_backend (extra_refusal_warnings debug policy) policy (select available policy)

-- What `symlink_metadata` finds.
pub data Entry : Type 0 where
  present absent : Entry
  unreadable : Text → Entry

-- `std::fs` and `std::env`.
pub record Files (W : Type 0) : Type 0 where
  pub canonicalize : Text → W → Result Text Text
  pub symlink_metadata : Text → W → Entry
  pub create_dir : Text → W → Result Text (Unit {0}) × W
  pub process_env : W → TextMap

wants_netns : ExecPolicy → Bool
wants_netns policy = policy.allow_unsafe_local || is_netns policy.backend
  where
    is_netns : SandboxBackend → Bool
    is_netns use_netns_helper = true
    is_netns other = false

module _ {W : Type 0} (os : Os W) (files : Files W) (lossy : List ℕ → Text)
    (redact : Text → Redaction) (listen : W → Option ℕ × W) (debug : Text → Text) where
  -- `Sandbox::detect_and_select`, on the operating system of the build.
  unfoldable pub detect_and_select : TargetOs → ExecPolicy → W → Result SandboxError Sandbox × W
  unfolding detect netns_helper_available wants_netns new_sandbox
  detect_and_select target policy w =
      let (found, w1) = detect os lossy listen target w in
      let (helper, w2) = netns_helper_available os lossy listen target w1 in
      if wants_netns policy
      then (new_sandbox debug (if helper then found ++ netns_helper ∷ [] else found) policy, w2)
      else (new_sandbox debug found policy, w1)

  -- `is_persistent_wrapper_failure`, which probes only when the other conditions hold.
  is_persistent_wrapper_failure : Backend → Bool → Exec W SandboxError Bool
  unfolding reprobes_on_inner_never_started available
  is_persistent_wrapper_failure b inner_never_started w =
      let (available_now, w1) = available os lossy listen b w in
      if inner_never_started && reprobes_on_inner_never_started b
      then (ok (not available_now), w1)
      else (ok false, w)

  create_at : Text → Entry → Exec W SandboxError (Unit {0})
  create_at dir present = raise (unsafe_synthetic_dir dir)
  create_at dir absent = map_err io_error (files.create_dir dir)
  create_at dir (unreadable e) = raise (io_error e)

  create_fresh_dir : Text → Exec W SandboxError (Unit {0})
  unfolding create_at
  create_fresh_dir dir = do entry ← read_off (files.symlink_metadata dir); create_at dir entry

  canonical : Text → Exec W SandboxError Text
  canonical path = do found ← read_off (files.canonicalize path); map_err io_error (of_result found)

  -- The checks before a run: the launcher does not degrade, the roots are real and the synthetic
  -- directories are new.
  prepare : Sandbox → RunRequest → Exec W SandboxError EnvInput
  unfolding backend_silently_degrades has_silent_degradation_mode backend_id canonical
      create_fresh_dir push
  prepare s req = do
    degrades ←
        (λ w. let (d, w1) = backend_silently_degrades os lossy listen s.backend w in (ok d, w1))
    _ ← of_result (guard (not degrades) (sandbox_degraded (backend_id s.backend)))
    overlay_root ← canonical req.overlay_root
    state_root ← canonical req.state_root
    let home = push overlay_root (codes ".jitgen-home")
    let tmp = push overlay_root (codes ".jitgen-tmp")
    _ ← create_fresh_dir home
    _ ← create_fresh_dir tmp
    parent ← read_off files.process_env
    pure (record {
      parent = parent;
      policy = s.policy;
      home = home;
      tmp = tmp;
      overlay_root = overlay_root;
      state_root = state_root;
    })

  abbrev pub plan_input : Sandbox → RunRequest → EnvInput → PlanInput
  plan_input s req i = record {
    backend = s.backend;
    req = req.command;
    overlay_root = i.overlay_root;
    synthetic_tmp = i.tmp;
    env = (env_of debug i).0;
    policy = s.policy;
    instance_id = req.instance_id;
    run_as = req.run_as;
  }

  -- `Sandbox::run`.
  pub run : Sandbox → RunRequest → Exec W SandboxError ExecutionResult
  unfolding prepare build_plan is_persistent_wrapper_failure backend_id
  run s req = do
    i ← prepare s req
    plan ← of_result (build_plan (plan_input s req i))
    (result, inner_never_started) ← run_reporting os lossy redact plan s.policy
    gone ← is_persistent_wrapper_failure s.backend inner_never_started
    _ ← of_result (guard (not gone) (backend_unavailable_mid_run (backend_id s.backend)))
    pure result
