-- ===== src/Samples/Sandboxed.antt =====
-- A trusted configuration, a parent environment and a request, and what follows for them.
use jitgen.Core.Model.{auto, catch}
use jitgen.Prelude.{All, [], false, none, refl, some, true, ◌++◌, ◌∷◌, ◌≡◌}
use jitgen.Prelude.Result.{Result, err, ok}
use jitgen.Prelude.Str.{Text, codes}
use jitgen.Prelude.TextMap.{TextMap}
use jitgen.Sandbox.Backend.{firejail, netns_helper, podman, select}
use jitgen.Sandbox.Backend.Choice.{Chosen, select-Chosen}
use jitgen.Sandbox.Command.{PlanInput, SandboxPlan, with_rlimit_preamble}
use jitgen.Sandbox.DenyList.{is_denied}
use jitgen.Sandbox.Env.{extra_refusal_warnings, filter_path}
use jitgen.Sandbox.Env.Entries.{Admitted, EnvInput, build_env-Admitted, env_of}
use jitgen.Sandbox.Env.Entries.Managed.{Synthetic, build_env-Guarded}
use jitgen.Sandbox.Env.Screen.{build_env-warnings}
use jitgen.Sandbox.Plans.{finish_plan}
use jitgen.Sandbox.Policy.{
  ExecPolicy, TrustedConfig, argv, auto_backend, from_trusted, mock, no_signal, with_cwd,
}
use jitgen.Sandbox.Sbpl.{quote, read_quoted, sbpl_string, sbpl_string-read}

abbrev pub config_sample : TrustedConfig
config_sample = record {
  mode = catch;
  strategy = auto;
  provider = record {
    kind = mock;
    base_url = none;
    api_key_env = none;
    model = none;
    real_llm = false;
  };
  shell_allowed = false;
  env_allowlist_extra = codes "CI" ∷ codes "AWS_PROFILE" ∷ codes "home" ∷ [];
  env_set_extra =
      (codes "CARGO_HOME", codes "/opt/cargo") ∷ (codes "RUSTUP_HOME", codes "../x") ∷ [];
  sandbox_backend = auto_backend;
  unsafe_local_execution = false;
  state_dir = none;
  max_tests = 20;
  docker_image = none;
}

abbrev pub policy_sample : ExecPolicy
policy_sample = from_trusted config_sample

abbrev pub parent_sample : TextMap
parent_sample =
    (codes "AWS_PROFILE", codes "prod")
    ∷ (codes "CI", codes "1")
    ∷ (codes "HOME", codes "/root")
    ∷ (codes "PATH", codes "bin:/usr/bin:/w/overlay/bin")
    ∷ []

abbrev input_sample : EnvInput
input_sample = record {
  parent = parent_sample;
  policy = policy_sample;
  home = codes "/w/overlay/.jitgen-home";
  tmp = codes "/w/overlay/.jitgen-tmp";
  overlay_root = codes "/w/overlay";
  state_root = codes "/w/state";
}

abbrev pub quoted : Text → Text
quoted s = quote ∷ s ++ quote ∷ []

build_env-Admitted_example : All (Admitted quoted input_sample) (env_of quoted input_sample).0
build_env-Admitted_example = build_env-Admitted quoted input_sample

build_env-Guarded_example :
    Synthetic
      (env_of quoted input_sample).0
      (codes "/w/overlay/.jitgen-home")
      (codes "/w/overlay/.jitgen-tmp")
    × All (λ row. is_denied row.0 ≡ false) (env_of quoted input_sample).0
build_env-Guarded_example = build_env-Guarded quoted input_sample

build_env-warnings_example :
    (env_of quoted input_sample).1 ≡ extra_refusal_warnings quoted policy_sample
build_env-warnings_example =
    build_env-warnings quoted parent_sample policy_sample (codes "/w/overlay/.jitgen-home")
      (codes "/w/overlay/.jitgen-tmp") (codes "/w/overlay") (codes "/w/state")

abbrev path_sample : Text
path_sample =
    filter_path (codes "bin:/usr/bin:/w/overlay/bin") (codes "/w/overlay") (codes "/w/state")

select-Chosen_example : Chosen (podman ∷ firejail ∷ []) policy_sample firejail
unfolding select from_trusted
select-Chosen_example = select-Chosen (podman ∷ firejail ∷ []) policy_sample firejail refl

sbpl_string-read_example :
    (body : Text) × (sbpl_string (codes "/w/a b\\c") ++ codes ")" ≡ quote ∷ body)
    × (read_quoted false body ≡ some (codes "/w/a b\\c", codes ")"))
sbpl_string-read_example = sbpl_string-read (codes "/w/a b\\c") (codes ")")

abbrev pub plan_input_sample : PlanInput
plan_input_sample = record {
  backend = netns_helper;
  req = with_cwd (argv (codes "cargo") (codes "test" ∷ [])) (codes "./crate/sub");
  overlay_root = codes "/w/overlay";
  synthetic_tmp = codes "/w/overlay/.jitgen-tmp";
  env = [];
  policy = policy_sample;
  instance_id = codes "run-1_c0";
  run_as = none;
}

abbrev value_of : {E A : Type 0} → A → Result E A → A
value_of d (ok a) = a
value_of d (err e) = d

abbrev pub plan_sample : SandboxPlan
plan_sample = finish_plan plan_input_sample (record {
  backend = netns_helper;
  program = codes "unshare";
  args =
      codes "--user"
      ∷ codes "--map-root-user"
      ∷ codes "--net"
      ∷ codes "--"
      ∷ with_rlimit_preamble (codes "cargo" ∷ codes "test" ∷ []) policy_sample.limits;
  cwd = codes "/w/overlay/crate/sub";
  env = [];
  container_name = none;
  cleanup = none;
  new_process_group = true;
  build_signal = no_signal;
  expects_start_sentinel = false;
})
