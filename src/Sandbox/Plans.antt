-- ===== src/Sandbox/Plans.antt =====
-- The plan of each backend.
pub mod Sound
use jitgen.Prelude.{
  Bool, List, Option, [], any, false, if◌then◌else◌, is_empty, none, not, some, true, ◌++◌, ◌==◌,
  ◌∷◌,
}
use jitgen.Prelude.Result.{Result, err, guard, ok, ◌>>=◌}
use jitgen.Prelude.Str.{Text, codes, show_nat}
use jitgen.Prelude.TextMap.{TextMap, map_insert}
use jitgen.Sandbox.Backend.{
  Backend, bwrap, constrained_local, docker, firejail, netns_helper, podman, sandbox_exec,
}
use jitgen.Sandbox.Command.{
  PlanInput, SandboxPlan, inner_argv, is_digest_pinned, is_uid_gid, validate_instance,
  validated_cwd, with_rlimit_preamble,
}
use jitgen.Sandbox.Policy.{
  ResourceLimits, SandboxError, empty_command, floating_image_tag, invalid_run_as,
  missing_container_user, missing_image, no_signal, unsafe_overlay_path,
}
use jitgen.Sandbox.Sbpl.{render_profile}

-- What the plans that are torn down by a signal to the process group have in common.
group_plan : PlanInput → Text → Text → List Text → SandboxPlan
unfolding no_signal
group_plan input cwd program args = record {
  backend = input.backend;
  program = program;
  args = args;
  cwd = cwd;
  env = input.env;
  container_name = none;
  cleanup = none;
  new_process_group = true;
  build_signal = no_signal;
  expects_start_sentinel = false;
}

plan_sandbox_exec : PlanInput → Text → List Text → Result SandboxError SandboxPlan
unfolding render_profile group_plan
plan_sandbox_exec input cwd inner = do
  profile ← render_profile input.overlay_root input.synthetic_tmp
  ok (group_plan input cwd (codes "sandbox-exec") (codes "-p" ∷ profile ∷ inner))

-- `--setenv k v` of every row.
setenv_args : TextMap → List Text
setenv_args [] = []
setenv_args ((k, v) ∷ env) = codes "--setenv" ∷ k ∷ v ∷ setenv_args env

abbrev pub bwrap_flags : List Text
bwrap_flags =
    codes "--unshare-all"
    ∷ codes "--die-with-parent"
    ∷ codes "--new-session"
    ∷ codes "--ro-bind"
    ∷ codes "/"
    ∷ codes "/"
    ∷ codes "--dev"
    ∷ codes "/dev"
    ∷ codes "--proc"
    ∷ codes "/proc"
    ∷ codes "--tmpfs"
    ∷ codes "/tmp"
    ∷ []

-- The arguments in front of the inner command.
bwrap_before : PlanInput → Text → List Text
unfolding setenv_args
bwrap_before input cwd =
    bwrap_flags
    ++ codes "--bind"
      ∷ input.overlay_root
      ∷ input.overlay_root
      ∷ codes "--chdir"
      ∷ cwd
      ∷ codes "--clearenv"
      ∷ (setenv_args input.env ++ codes "--" ∷ [])

plan_bwrap : PlanInput → Text → List Text → SandboxPlan
unfolding group_plan bwrap_before
plan_bwrap input cwd inner = group_plan input cwd (codes "bwrap") (bwrap_before input cwd ++ inner)

firejail_before : PlanInput → List Text
unfolding show_nat
firejail_before input =
    let l = input.policy.limits in
    codes "--net=none"
    ∷ codes "--read-only=/"
    ∷ (codes "--read-write=" ++ input.overlay_root)
    ∷ (codes "--whitelist=" ++ input.overlay_root)
    ∷ codes "--caps.drop=all"
    ∷ codes "--nonewprivs"
    ∷ codes "--nogroups"
    ∷ (codes "--rlimit-as=" ++ show_nat l.address_space_bytes)
    ∷ (codes "--rlimit-cpu=" ++ show_nat l.cpu_seconds)
    ∷ (codes "--rlimit-nofile=" ++ show_nat l.open_files)
    ∷ (codes "--rlimit-nproc=" ++ show_nat l.processes)
    ∷ (codes "--rlimit-fsize=" ++ show_nat l.file_size_bytes)
    ∷ codes "--"
    ∷ []

plan_firejail : PlanInput → Text → List Text → SandboxPlan
unfolding group_plan firejail_before
plan_firejail input cwd inner =
    group_plan input cwd (codes "firejail") (firejail_before input ++ inner)

-- `Option::ok_or`.
unfoldable pub ok_or : {A : Type 0} → SandboxError → Option A → Result SandboxError A
ok_or e none = err e
ok_or e (some a) = ok a

abbrev container_program : Backend → Text
container_program podman = codes "podman"
container_program other = codes "docker"

-- `-e k=v` of every row.
pub env_args : TextMap → List Text
env_args [] = []
env_args ((k, v) ∷ env) = codes "-e" ∷ (k ++ codes "=" ++ v) ∷ env_args env

pub container_env : PlanInput → TextMap
unfolding map_insert
container_env input =
    map_insert (map_insert input.env (codes "HOME") (input.overlay_root ++ codes "/.jitgen-home"))
      (codes "TMPDIR") (codes "/tmp")

container_name_of : PlanInput → Text
container_name_of input = codes "jitgen-" ++ input.instance_id

-- `split_first` of the inner command.
split_first : List Text → Result SandboxError (Text × List Text)
split_first [] = err empty_command
split_first (a ∷ rest) = ok (a, rest)

abbrev pub container_flags : List Text
container_flags = codes "run" ∷ codes "--rm" ∷ codes "--pull=never" ∷ []

container_limits : ResourceLimits → List Text
unfolding show_nat
container_limits l =
    codes "--cap-drop"
    ∷ codes "ALL"
    ∷ codes "--security-opt"
    ∷ codes "no-new-privileges"
    ∷ codes "--pids-limit"
    ∷ show_nat l.processes
    ∷ codes "--memory"
    ∷ show_nat l.memory_bytes
    ∷ codes "--memory-swap"
    ∷ show_nat l.memory_bytes
    ∷ codes "--cpus"
    ∷ show_nat l.cpus
    ∷ []

container_args : PlanInput → Text → Text → Text → Text → List Text → List Text
unfolding container_limits env_args container_env container_name_of
container_args input cwd image user entrypoint rest =
    container_flags
    ++ codes "--name"
      ∷ container_name_of input
      ∷ codes "--network=none"
      ∷ codes "--read-only"
      ∷ codes "--tmpfs"
      ∷ codes "/tmp:rw,nosuid,nodev,size=64m"
      ∷ codes "--mount"
      ∷ (codes "type=bind,src=" ++ input.overlay_root ++ codes ",dst=" ++ input.overlay_root)
      ∷ codes "--workdir"
      ∷ cwd
      ∷ (container_limits input.policy.limits
          ++ codes "--user"
            ∷ user
            ∷ (env_args (container_env input) ++ codes "--entrypoint" ∷ entrypoint ∷ image ∷ rest))

container_plan : PlanInput → Text → Text → Text → Text × List Text → SandboxPlan
unfolding no_signal container_args container_env container_name_of
container_plan input cwd image user (entrypoint, rest) = record {
  backend = input.backend;
  program = container_program input.backend;
  args = container_args input cwd image user entrypoint rest;
  cwd = cwd;
  env = container_env input;
  container_name = some (container_name_of input);
  cleanup = some (
      container_program input.backend
      ∷ codes "kill"
      ∷ codes "--signal=KILL"
      ∷ container_name_of input
      ∷ []);
  new_process_group = false;
  build_signal = no_signal;
  expects_start_sentinel = false;
}

plan_container : PlanInput → Text → List Text → Result SandboxError SandboxPlan
unfolding ok_or is_digest_pinned is_uid_gid split_first container_plan
plan_container input cwd inner = do
  image ← ok_or missing_image input.policy.docker_image
  _ ← guard (is_digest_pinned image) (floating_image_tag image)
  user ← ok_or missing_container_user input.run_as
  _ ← guard (is_uid_gid user) (invalid_run_as user)
  _ ← guard (not (any (λ c. c == b',') input.overlay_root)) (unsafe_overlay_path input.overlay_root)
  inner ← split_first inner
  ok (container_plan input cwd image user inner)

plan_netns_helper : PlanInput → Text → List Text → SandboxPlan
unfolding group_plan
plan_netns_helper input cwd inner =
    group_plan input cwd (codes "unshare")
      (codes "--user" ∷ codes "--map-root-user" ∷ codes "--net" ∷ codes "--" ∷ inner)

plan_local : PlanInput → Text → List Text → SandboxPlan
unfolding group_plan
plan_local input cwd [] = group_plan input cwd [] []
plan_local input cwd (program ∷ args) = group_plan input cwd program args

unfoldable pub uses_preamble : Backend → Bool
uses_preamble sandbox_exec = true
uses_preamble bwrap = true
uses_preamble netns_helper = true
uses_preamble constrained_local = true
uses_preamble other = false

unfoldable pub plan_for : Backend → PlanInput → Text → List Text → Result SandboxError SandboxPlan
unfolding plan_sandbox_exec plan_bwrap plan_firejail plan_container plan_netns_helper plan_local
plan_for sandbox_exec input cwd inner = plan_sandbox_exec input cwd inner
plan_for bwrap input cwd inner = ok (plan_bwrap input cwd inner)
plan_for firejail input cwd inner = ok (plan_firejail input cwd inner)
plan_for docker input cwd inner = plan_container input cwd inner
plan_for podman input cwd inner = plan_container input cwd inner
plan_for netns_helper input cwd inner = ok (plan_netns_helper input cwd inner)
plan_for constrained_local input cwd inner = ok (plan_local input cwd inner)

-- What `build_plan` sets on every plan at its end.
abbrev pub finish_plan : PlanInput → SandboxPlan → SandboxPlan
finish_plan input plan = record plan {
  build_signal = input.req.build_signal;
  expects_start_sentinel = uses_preamble input.backend;
}

-- The command as it is launched: behind the preamble where the backend has no limits of its own.
abbrev pub wrapped_by : PlanInput → List Text → List Text
wrapped_by input command =
    let wrapped = with_rlimit_preamble command input.policy.limits in
    if uses_preamble input.backend then wrapped else command

-- `build_plan` behind its checks of the request.
launch_plan : PlanInput → Text → List Text → Result SandboxError SandboxPlan
unfolding plan_for
launch_plan input cwd inner = do
  plan ← plan_for input.backend input cwd (wrapped_by input inner)
  ok (finish_plan input plan)

unfoldable pub build_plan : PlanInput → Result SandboxError SandboxPlan
unfolding validate_instance validated_cwd inner_argv launch_plan
build_plan input = do
  _ ← validate_instance input.instance_id
  cwd ← validated_cwd input.overlay_root input.req.cwd_rel
  inner ← inner_argv input.req input.policy
  _ ← guard (not (is_empty inner)) empty_command
  launch_plan input cwd inner
