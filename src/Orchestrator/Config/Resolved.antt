-- ===== src/Orchestrator/Config/Resolved.antt =====
-- Where each trusted setting comes from.
use jitgen.Core.Model.{parse}
use jitgen.Orchestrator.Config.{
  ConfigHost, PathOf, TrustedFlags, canonical_prefix, default_trusted, load_config_file,
  parse_backend, parse_bool, parse_strategy, set_text, set_to,
}
use jitgen.Prelude.{Option, false, none, some, ◌≡◌}
use jitgen.Prelude.Numbers.{parse_u32}
use jitgen.Prelude.Paths.{is_prefix}
use jitgen.Prelude.Result.{Result, ok}
use jitgen.Prelude.Str.{Text, codes}
use jitgen.Sandbox.Policy.{TrustedConfig}

-- The setting of a variable: the one that it names when it is set, else the old one.
abbrev pub FromEnv : {A : Type 0} → (Text → Option A) → Option Text → A → A → Type 0
FromEnv parse_it none old a = a ≡ old
FromEnv parse_it (some v) old a = parse_it v ≡ some a

-- A setting of the flag when there is one, else of the variable when it is set, else of the file.
abbrev pub Setting : {A : Type 0} → Option A → (Text → Option A) → Option Text → A → A → Type 0
Setting (some flag) parse_it v old a = a ≡ flag
Setting none parse_it v old a = FromEnv parse_it v old a

-- The settings `cfg` made of those of the file, or the defaults.
pub record Resolved (env : Text → Option Text) (flags : TrustedFlags) (file cfg : TrustedConfig)
    : Type 0 where
  pub mode : Setting flags.mode parse (env (codes "JITGEN_MODE")) file.mode cfg.mode
  pub strategy :
      Setting flags.strategy parse_strategy
        (env (codes "JITGEN_STRATEGY"))
        file.strategy
        cfg.strategy
  pub backend :
      Setting flags.sandbox_backend parse_backend
        (env (codes "JITGEN_SANDBOX"))
        file.sandbox_backend
        cfg.sandbox_backend
  pub unsafe_local :
      Setting flags.unsafe_local_execution parse_bool
        (env (codes "JITGEN_UNSAFE_LOCAL_EXECUTION"))
        file.unsafe_local_execution
        cfg.unsafe_local_execution
  pub shell :
      Setting flags.shell_allowed parse_bool
        (env (codes "JITGEN_SHELL_ALLOWED"))
        file.shell_allowed
        cfg.shell_allowed
  pub real_llm :
      Setting flags.real_llm parse_bool
        (env (codes "JITGEN_REAL_LLM"))
        file.provider.real_llm
        cfg.provider.real_llm
  pub max_tests :
      Setting flags.max_tests parse_u32
        (env (codes "JITGEN_MAX_TESTS"))
        file.max_tests
        cfg.max_tests
  pub allowlist :
      cfg.env_allowlist_extra ≡ set_to file.env_allowlist_extra flags.env_allowlist_extra
  pub env_set : cfg.env_set_extra ≡ file.env_set_extra
  pub image :
      cfg.docker_image
      ≡ set_text (set_text file.docker_image (env (codes "JITGEN_DOCKER_IMAGE"))) flags.docker_image
  pub state_dir :
      cfg.state_dir
      ≡ set_text (set_text file.state_dir (env (codes "JITGEN_STATE_DIR"))) flags.state_dir
  pub provider : cfg.provider ≡ record file.provider { real_llm = cfg.provider.real_llm }
  pub others : cfg ≡ record file {
    mode = cfg.mode;
    strategy = cfg.strategy;
    sandbox_backend = cfg.sandbox_backend;
    unsafe_local_execution = cfg.unsafe_local_execution;
    shell_allowed = cfg.shell_allowed;
    provider = cfg.provider;
    max_tests = cfg.max_tests;
    state_dir = cfg.state_dir;
    env_allowlist_extra = cfg.env_allowlist_extra;
    docker_image = cfg.docker_image;
  }

-- A path outside the repository, as both are written from the root, and as both resolve.
abbrev pub Outside : ConfigHost → PathOf → PathOf → Type 0
Outside h path repo_root =
    let path_abs = set_to path (h.absolute path) in
    let repo_abs = set_to repo_root (h.absolute repo_root) in
    (is_prefix repo_abs path_abs ≡ false)
    × (is_prefix (canonical_prefix h repo_abs) (canonical_prefix h path_abs) ≡ false)

-- The settings below: those of a file outside the repository, or the defaults.
abbrev pub Base : ConfigHost → PathOf → Option PathOf → TrustedConfig → Type 0
Base h repo_root none file = file ≡ default_trusted
Base h repo_root (some path) file = Outside h path repo_root × (load_config_file h path ≡ ok file)
