-- ===== src/Sandbox/Policy.antt =====
-- crates/jitgen-core/src/config.rs and crates/jitgen-sandbox/src/{policy,error,spawn}.rs: the trusted
-- settings, the execution policy that is made of them, the command request and the errors.
use jitgen.Core.Model.{Mode, Strategy}
use jitgen.Prelude.{Bool, List, Option, [], false, ℕ, ◌*◌}
use jitgen.Prelude.Str.{Text}
use jitgen.Prelude.TextMap.{TextMap}

pub data SandboxBackend : Type 0 where
  auto_backend use_bwrap use_firejail use_sandbox_exec : SandboxBackend
  use_docker use_podman use_netns_helper use_local : SandboxBackend

pub data ProviderKind : Type 0 where
  mock anthropic open_ai_compatible local_provider : ProviderKind

pub record ProviderConfig : Type 0 where
  pub kind : ProviderKind
  pub base_url : Option Text
  pub api_key_env : Option Text
  pub model : Option Text
  pub real_llm : Bool

pub record TrustedConfig : Type 0 where
  pub mode : Mode
  pub strategy : Strategy
  pub provider : ProviderConfig
  pub shell_allowed : Bool
  pub env_allowlist_extra : List Text
  pub env_set_extra : TextMap
  pub sandbox_backend : SandboxBackend
  pub unsafe_local_execution : Bool
  pub state_dir : Option Text
  pub max_tests : ℕ
  pub docker_image : Option Text

-- `u64` and `u32` fields are numbers.
pub record ResourceLimits : Type 0 where
  pub address_space_bytes : ℕ
  pub cpu_seconds : ℕ
  pub open_files : ℕ
  pub processes : ℕ
  pub file_size_bytes : ℕ
  pub memory_bytes : ℕ
  pub cpus : ℕ

-- `ResourceLimits::default`.
unfoldable pub default_limits : ResourceLimits
default_limits = record {
  address_space_bytes = 2 * 1024 * 1024 * 1024;
  cpu_seconds = 120;
  open_files = 1024;
  processes = 512;
  file_size_bytes = 256 * 1024 * 1024;
  memory_bytes = 1024 * 1024 * 1024;
  cpus = 2;
}

-- The timeout is in seconds.
pub record ExecPolicy : Type 0 where
  pub backend : SandboxBackend
  pub allow_unsafe_local : Bool
  pub shell_allowed : Bool
  pub env_allowlist_extra : List Text
  pub env_set_extra : TextMap
  pub timeout_secs : ℕ
  pub output_cap_bytes : ℕ
  pub limits : ResourceLimits
  pub docker_image : Option Text

abbrev pub default_timeout : ℕ
default_timeout = 120

abbrev pub default_output_cap_bytes : ℕ
default_output_cap_bytes = 256 * 1024

-- `ExecPolicy::from_trusted`.
unfoldable pub from_trusted : TrustedConfig → ExecPolicy
unfolding default_limits
from_trusted t = record {
  backend = t.sandbox_backend;
  allow_unsafe_local = t.unsafe_local_execution;
  shell_allowed = t.shell_allowed;
  env_allowlist_extra = t.env_allowlist_extra;
  env_set_extra = t.env_set_extra;
  timeout_secs = default_timeout;
  output_cap_bytes = default_output_cap_bytes;
  limits = default_limits;
  docker_image = t.docker_image;
}

-- `exit_codes` are two's complement patterns of an `i32`.
pub record BuildSignal : Type 0 where
  pub exit_codes : List ℕ
  pub markers : List Text

-- `BuildSignal::default`.
unfoldable pub no_signal : BuildSignal
no_signal = record { exit_codes = []; markers = [] }

pub record SpawnRequest : Type 0 where
  pub program : Text
  pub args : List Text
  pub cwd_rel : Text
  pub shell : Bool
  pub build_signal : BuildSignal

-- `SpawnRequest::argv`, `with_cwd` and `with_build_signal`.
unfoldable pub argv : Text → List Text → SpawnRequest
unfolding no_signal
argv program args = record {
  program = program;
  args = args;
  cwd_rel = [];
  shell = false;
  build_signal = no_signal;
}

unfoldable pub with_cwd : SpawnRequest → Text → SpawnRequest
with_cwd req cwd_rel = record req { cwd_rel = cwd_rel }

unfoldable pub with_build_signal : SpawnRequest → BuildSignal → SpawnRequest
with_build_signal req build_signal = record req { build_signal = build_signal }

-- An `io::Error` is its text.
pub data SandboxError : Type 0 where
  no_isolation_available : SandboxError
  backend_unavailable : Text → SandboxError
  netns_requires_unsafe_local : SandboxError
  shell_not_allowed : SandboxError
  unsafe_cwd : Text → SandboxError
  missing_image : SandboxError
  floating_image_tag : Text → SandboxError
  invalid_instance : Text → SandboxError
  unsafe_overlay_path : Text → SandboxError
  untrusted_launcher : Text → SandboxError
  missing_container_user : SandboxError
  invalid_run_as : Text → SandboxError
  empty_command : SandboxError
  option_like_program : SandboxError
  unsafe_synthetic_dir : Text → SandboxError
  non_absolute_path : Text → SandboxError
  spawn_failed : (program source : Text) → SandboxError
  sandbox_degraded : Text → SandboxError
  io_error : Text → SandboxError
  backend_unavailable_mid_run : Text → SandboxError
