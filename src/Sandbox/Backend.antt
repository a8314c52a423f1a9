-- ===== src/Sandbox/Backend.antt =====
-- crates/jitgen-sandbox/src/backend.rs: the backends, their probes and their selection.
pub mod Choice
use jitgen.Prelude.{
  Bool, List, Option, [], any, false, if◌then◌else◌, none, not, some, true, ℕ, ◌==◌, ◌∷◌,
}
use jitgen.Prelude.Result.{Result, err, ok}
use jitgen.Prelude.Str.{Text, codes, contains, lower_char, to_ascii_lowercase}
use jitgen.Sandbox.Policy.{
  ExecPolicy, SandboxBackend, SandboxError, auto_backend, backend_unavailable,
  netns_requires_unsafe_local, no_isolation_available, use_bwrap, use_docker, use_firejail,
  use_local, use_netns_helper, use_podman, use_sandbox_exec,
}

pub data Tier : Type 0 where
  os_sandbox container netns_local constrained_tier : Tier

pub data Backend : Type 0 where
  bwrap firejail sandbox_exec docker podman netns_helper constrained_local : Backend

-- `==` and `match` on backends, by their discriminant.
backend_index : Backend → ℕ
backend_index bwrap = 0
backend_index firejail = 1
backend_index sandbox_exec = 2
backend_index docker = 3
backend_index podman = 4
backend_index netns_helper = 5
backend_index constrained_local = 6

unfoldable pub backend_eq : Backend → Backend → Bool
unfolding backend_index
backend_eq a b = backend_index a == backend_index b

unfoldable pub auto_preference : List Backend
auto_preference = bwrap ∷ firejail ∷ sandbox_exec ∷ docker ∷ podman ∷ []

-- `Backend::id`.
unfoldable pub backend_id : Backend → Text
backend_id bwrap = codes "bwrap"
backend_id firejail = codes "firejail"
backend_id sandbox_exec = codes "sandbox-exec"
backend_id docker = codes "docker"
backend_id podman = codes "podman"
backend_id netns_helper = codes "netns-helper"
backend_id constrained_local = codes "constrained-local"

unfoldable pub reprobes_on_inner_never_started : Backend → Bool
reprobes_on_inner_never_started netns_helper = true
reprobes_on_inner_never_started other = false

unfoldable pub tier : Backend → Tier
tier bwrap = os_sandbox
tier firejail = os_sandbox
tier sandbox_exec = os_sandbox
tier docker = container
tier podman = container
tier netns_helper = netns_local
tier constrained_local = constrained_tier

unfoldable pub availability_probe : Backend → Option (Text × List Text)
availability_probe bwrap = some (
  codes "bwrap",
  codes "--unshare-all" ∷ codes "--ro-bind" ∷ codes "/" ∷ codes "/" ∷ codes "/bin/true" ∷ [],
)
availability_probe firejail =
    some (codes "firejail", codes "--net=none" ∷ codes "--" ∷ codes "/bin/true" ∷ [])
availability_probe sandbox_exec = some (
  codes "sandbox-exec",
  codes "-p" ∷ codes "(version 1)(allow default)" ∷ codes "/usr/bin/true" ∷ [],
)
availability_probe docker = some (codes "docker", codes "version" ∷ [])
availability_probe podman = some (codes "podman", codes "version" ∷ [])
availability_probe netns_helper = some (
  codes "unshare",
  codes "--user"
      ∷ codes "--map-root-user"
      ∷ codes "--net"
      ∷ codes "--"
      ∷ codes "/bin/sh"
      ∷ codes "-c"
      ∷ codes "true"
      ∷ [],
)
availability_probe constrained_local = none

unfoldable pub behavioral_net_probe : Backend → Text → Option (Text × List Text)
behavioral_net_probe firejail script =
    some (
      codes "firejail",
      codes "--net=none" ∷ codes "--" ∷ codes "/bin/sh" ∷ codes "-c" ∷ script ∷ [],
    )
behavioral_net_probe other script = none

abbrev silent_degradation_markers_firejail : List Text
silent_degradation_markers_firejail =
    codes "existing sandbox was detected" ∷ codes "without any additional sandboxing" ∷ []

silent_degradation_markers : Backend → Option (List Text)
silent_degradation_markers firejail = some silent_degradation_markers_firejail
silent_degradation_markers other = none

unfoldable pub has_silent_degradation_mode : Backend → Bool
unfolding silent_degradation_markers
has_silent_degradation_mode b = elim (silent_degradation_markers b) [
  | none ↦ false
  | some ms ↦ true
]

unfoldable pub stderr_shows_silent_degradation : Backend → Text → Bool
unfolding silent_degradation_markers contains lower_char
stderr_shows_silent_degradation b stderr = elim (silent_degradation_markers b) [
  | none ↦ false
  | some ms ↦ any (contains (to_ascii_lowercase stderr)) ms
]

-- `os_candidates`, by the operating system it is compiled for.
pub data TargetOs : Type 0 where
  macos linux other_os : TargetOs

unfoldable pub os_candidates : TargetOs → List Backend
os_candidates macos = sandbox_exec ∷ docker ∷ podman ∷ []
os_candidates linux = bwrap ∷ firejail ∷ docker ∷ podman ∷ []
os_candidates other_os = docker ∷ podman ∷ []

explicit : SandboxBackend → Option Backend
explicit use_bwrap = some bwrap
explicit use_firejail = some firejail
explicit use_sandbox_exec = some sandbox_exec
explicit use_docker = some docker
explicit use_podman = some podman
explicit other = none

-- `available.contains`.
unfoldable pub holds_backend : List Backend → Backend → Bool
unfolding backend_eq
holds_backend available b = any (backend_eq b) available

first_available : List Backend → List Backend → Option Backend
unfolding holds_backend
first_available [] available = none
first_available (b ∷ bs) available =
    let later = first_available bs available in if holds_backend available b then some b else later

auto_fallback : List Backend → Bool → Result SandboxError Backend
unfolding holds_backend
auto_fallback available allow =
    if allow
    then (if holds_backend available netns_helper then ok netns_helper else ok constrained_local)
    else err no_isolation_available

select_explicit : List Backend → Option Backend → Result SandboxError Backend
unfolding holds_backend backend_id
select_explicit available none = err no_isolation_available
select_explicit available (some b) =
    if holds_backend available b then ok b else err (backend_unavailable (backend_id b))

select_for : List Backend → Bool → SandboxBackend → Result SandboxError Backend
unfolding first_available auto_preference auto_fallback holds_backend backend_id select_explicit
    explicit
select_for available allow auto_backend = elim (first_available auto_preference available) [
  | some b ↦ ok b
  | none ↦ auto_fallback available allow
]
select_for available allow use_local =
    if allow then ok constrained_local else err no_isolation_available
select_for available allow use_netns_helper =
    if not allow
    then err netns_requires_unsafe_local
    else if holds_backend available netns_helper
    then ok netns_helper
    else err (backend_unavailable (backend_id netns_helper))
select_for available allow other = select_explicit available (explicit other)

unfoldable pub select : List Backend → ExecPolicy → Result SandboxError Backend
unfolding select_for
select available policy = select_for available policy.allow_unsafe_local policy.backend
