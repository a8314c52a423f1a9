-- ===== src/Orchestrator/Config.antt =====
-- crates/jitgen-orchestrator/src/config.rs: the trusted settings, from a file, the environment and the
-- command line. A path is the list of its components, as `Path`'s equality and `starts_with` read it.
pub mod Resolved
use jitgen.Core.Model.{
  Mode, Strategy, auto, dodgy_diff, harden, harden_strategy, intent_aware, parse,
}
use jitgen.Prelude.{
  Bool, List, Option, [], any, false, if◌then◌else◌, is_empty, none, not, reverse, some, true, ℕ,
  ◌++◌, ◌||◌, ◌∷◌,
}
use jitgen.Prelude.Numbers.{parse_u32}
use jitgen.Prelude.Paths.{Component, is_prefix, normal}
use jitgen.Prelude.Result.{Result, err, guard, ok, ◌>>=◌}
use jitgen.Prelude.Str.{Text, codes, text_eq, to_ascii_lowercase}
use jitgen.Sandbox.Policy.{
  SandboxBackend, TrustedConfig, auto_backend, mock, use_bwrap, use_docker, use_firejail, use_local,
  use_netns_helper, use_podman, use_sandbox_exec,
}

pub data ConfigFailure : Type 0 where
  invalid_setting : (what detail : Text) → ConfigFailure
  config_detail : Text → ConfigFailure

abbrev pub PathOf : Type 0
PathOf = List Component

-- `path::absolute`, `canonicalize`, `exists`, `fs::read` with `from_utf8`, `serde_yaml::from_str`,
-- the format `{:?}` of a text, and `display`.
pub record ConfigHost : Type 0 where
  pub absolute : PathOf → Option PathOf
  pub canonicalize : PathOf → Option PathOf
  pub exists : PathOf → Bool
  pub read_text : PathOf → Result Text Text
  pub from_yaml : Text → Result Text TrustedConfig
  pub debug : Text → Text
  pub display : PathOf → Text

pub record TrustedFlags : Type 0 where
  pub config_file : Option PathOf
  pub mode : Option Mode
  pub strategy : Option Strategy
  pub sandbox_backend : Option SandboxBackend
  pub unsafe_local_execution : Option Bool
  pub shell_allowed : Option Bool
  pub state_dir : Option Text
  pub max_tests : Option ℕ
  pub real_llm : Option Bool
  pub env_allowlist_extra : Option (List Text)
  pub docker_image : Option Text

-- `TrustedConfig::default`.
unfoldable pub default_trusted : TrustedConfig
default_trusted = record {
  mode = harden;
  strategy = auto;
  provider = record {
    kind = mock;
    base_url = none;
    api_key_env = none;
    model = none;
    real_llm = false;
  };
  shell_allowed = false;
  env_allowlist_extra = [];
  env_set_extra = [];
  sandbox_backend = auto_backend;
  unsafe_local_execution = false;
  state_dir = none;
  max_tests = 20;
  docker_image = none;
}

unfoldable pub parse_strategy : Text → Option Strategy
unfolding text_eq
parse_strategy s =
    if text_eq s (codes "auto")
    then some auto
    else if text_eq s (codes "harden")
    then some harden_strategy
    else if text_eq s (codes "dodgy-diff")
    then some dodgy_diff
    else if text_eq s (codes "intent-aware")
    then some intent_aware
    else none

unfoldable pub parse_backend : Text → Option SandboxBackend
unfolding text_eq
parse_backend s =
    if text_eq s (codes "auto")
    then some auto_backend
    else if text_eq s (codes "bwrap")
    then some use_bwrap
    else if text_eq s (codes "firejail")
    then some use_firejail
    else if text_eq s (codes "sandbox-exec")
    then some use_sandbox_exec
    else if text_eq s (codes "docker")
    then some use_docker
    else if text_eq s (codes "podman")
    then some use_podman
    else if text_eq s (codes "netns-helper")
    then some use_netns_helper
    else if text_eq s (codes "local")
    then some use_local
    else none

is_one_of : Text → List Text → Bool
unfolding text_eq
is_one_of s names = any (λ n. text_eq n s) names

unfoldable pub parse_bool : Text → Option Bool
unfolding is_one_of
parse_bool s =
    let lower = to_ascii_lowercase s in
    if is_one_of lower (codes "1" ∷ codes "true" ∷ codes "yes" ∷ codes "on" ∷ [])
    then some true
    else if is_one_of lower (codes "0" ∷ codes "false" ∷ codes "no" ∷ codes "off" ∷ [])
    then some false
    else none

-- An override when it is there.
unfoldable pub set_to : {A : Type 0} → A → Option A → A
set_to a none = a
set_to a (some b) = b

-- An override of an optional text when it is there and not empty.
unfoldable pub set_text : Option Text → Option Text → Option Text
set_text old none = old
set_text old (some v) = if is_empty v then old else some v

-- Parsing of a variable when it is set.
unfoldable pub env_value :
    {A : Type 0}
    → (Text → Text)
    → Text
    → (Text → Option A)
    → Option Text
    → A
    → Result ConfigFailure A
env_value debug var parse_it none old = ok old
env_value debug var parse_it (some v) old = elim (parse_it v) [
  | some a ↦ ok a
  | none ↦ err (invalid_setting var (codes "unrecognized value " ++ debug v))
]

module _ (debug : Text → Text) (env : Text → Option Text) where
  unfoldable pub apply_env : TrustedConfig → Result ConfigFailure TrustedConfig
  unfolding env_value parse parse_strategy parse_backend parse_bool parse_u32 set_text
  apply_env cfg = do
    mode ← env_value debug (codes "JITGEN_MODE") parse (env (codes "JITGEN_MODE")) cfg.mode
    strategy ←
        env_value debug (codes "JITGEN_STRATEGY") parse_strategy (env (codes "JITGEN_STRATEGY"))
          cfg.strategy
    backend ←
        env_value debug (codes "JITGEN_SANDBOX") parse_backend (env (codes "JITGEN_SANDBOX"))
          cfg.sandbox_backend
    unsafe ←
        env_value debug (codes "JITGEN_UNSAFE_LOCAL_EXECUTION") parse_bool
          (env (codes "JITGEN_UNSAFE_LOCAL_EXECUTION")) cfg.unsafe_local_execution
    shell ←
        env_value debug (codes "JITGEN_SHELL_ALLOWED") parse_bool
          (env (codes "JITGEN_SHELL_ALLOWED")) cfg.shell_allowed
    real_llm ←
        env_value debug (codes "JITGEN_REAL_LLM") parse_bool (env (codes "JITGEN_REAL_LLM"))
          cfg.provider.real_llm
    max_tests ←
        env_value debug (codes "JITGEN_MAX_TESTS") parse_u32 (env (codes "JITGEN_MAX_TESTS"))
          cfg.max_tests
    ok (record cfg {
      mode = mode;
      strategy = strategy;
      sandbox_backend = backend;
      unsafe_local_execution = unsafe;
      shell_allowed = shell;
      provider = record cfg.provider { real_llm = real_llm };
      max_tests = max_tests;
      state_dir = set_text cfg.state_dir (env (codes "JITGEN_STATE_DIR"));
      docker_image = set_text cfg.docker_image (env (codes "JITGEN_DOCKER_IMAGE"));
    })

unfoldable pub apply_flags : TrustedConfig → TrustedFlags → TrustedConfig
unfolding set_to set_text
apply_flags cfg flags = record cfg {
  mode = set_to cfg.mode flags.mode;
  strategy = set_to cfg.strategy flags.strategy;
  sandbox_backend = set_to cfg.sandbox_backend flags.sandbox_backend;
  unsafe_local_execution = set_to cfg.unsafe_local_execution flags.unsafe_local_execution;
  shell_allowed = set_to cfg.shell_allowed flags.shell_allowed;
  provider = record cfg.provider { real_llm = set_to cfg.provider.real_llm flags.real_llm };
  max_tests = set_to cfg.max_tests flags.max_tests;
  state_dir = set_text cfg.state_dir flags.state_dir;
  env_allowlist_extra = set_to cfg.env_allowlist_extra flags.env_allowlist_extra;
  docker_image = set_text cfg.docker_image flags.docker_image;
}

module _ (h : ConfigHost) where
  -- Up from the end of a path, whose components are given from the last, to what exists; `tail` is
  -- what was left out.
  climb : PathOf → PathOf → PathOf × PathOf
  climb [] tail = ([], tail)
  climb (c ∷ up) tail =
      let higher = climb up (c ∷ tail) in
      if h.exists (reverse (c ∷ up))
      then (reverse (c ∷ up), tail)
      else elim c as (λ x. PathOf × PathOf) [ normal s ↦ higher | other ↦ (reverse (c ∷ up), tail) ]

  unfoldable pub canonical_prefix : PathOf → PathOf
  unfolding set_to climb
  canonical_prefix p = elim (h.canonicalize p) [
    | some c ↦ c
    | none ↦
        let (ancestor, tail) = climb (reverse p) [] in
        set_to ancestor (h.canonicalize ancestor) ++ tail
  ]

  -- Whether a path lies in the repository, as it is written or as it resolves.
  unfoldable pub is_inside : PathOf → PathOf → Bool
  unfolding set_to is_prefix canonical_prefix
  is_inside path repo_root =
      let path_abs = set_to path (h.absolute path) in
      let repo_abs = set_to repo_root (h.absolute repo_root) in
      is_prefix repo_abs path_abs
      || is_prefix (canonical_prefix repo_abs) (canonical_prefix path_abs)

  unfoldable pub ensure_outside_repo : PathOf → PathOf → Text → Result ConfigFailure (Unit {0})
  unfolding is_inside set_to
  ensure_outside_repo path repo_root what = guard (not (is_inside path repo_root)) (
      invalid_setting what (
        what
        ++ codes " must be OUTSIDE the target repo (resolved under "
        ++ h.display (set_to repo_root (h.absolute repo_root))
        ++ codes ")"))

  read_config : {A : Type 0} → Result Text A → Result ConfigFailure A
  read_config (ok a) = ok a
  read_config (err e) = err (config_detail e)

  unfoldable pub load_config_file : PathOf → Result ConfigFailure TrustedConfig
  unfolding read_config
  load_config_file path = do text ← read_config (h.read_text path); read_config (h.from_yaml text)

  unfoldable pub base_config : PathOf → Option PathOf → Result ConfigFailure TrustedConfig
  unfolding default_trusted ensure_outside_repo load_config_file
  base_config repo_root none = ok default_trusted
  base_config repo_root (some path) = do
    _ ← ensure_outside_repo path repo_root (codes "--config")
    load_config_file path

  unfoldable pub resolve_trusted :
      TrustedFlags → PathOf → (Text → Option Text) → Result ConfigFailure TrustedConfig
  unfolding base_config apply_env apply_flags
  resolve_trusted flags repo_root env = do
    cfg ← base_config repo_root flags.config_file
    cfg ← apply_env h.debug env cfg
    ok (apply_flags cfg flags)
