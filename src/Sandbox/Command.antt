-- ===== src/Sandbox/Command.antt =====
-- crates/jitgen-sandbox/src/command.rs: the argument vector of a sandboxed run.
pub mod Checks
use jitgen.Prelude.{
  Bool, List, Option, [], all, any, false, if◌then◌else◌, is_empty, leb, none, not, some, ℕ, ◌&&◌,
  ◌++◌, ◌/◌, ◌==◌, ◌||◌, ◌∷◌,
}
use jitgen.Prelude.Paths.{Component, cur_dir, is_absolute, normal, path_components, push}
use jitgen.Prelude.Result.{Result, err, guard, ok}
use jitgen.Prelude.Str.{
  Text, codes, is_ascii_alphanumeric, is_ascii_digit, len, show_nat, starts_with, strip_prefix,
}
use jitgen.Prelude.TextMap.{TextMap}
use jitgen.Sandbox.Backend.{Backend}
use jitgen.Sandbox.Policy.{
  BuildSignal, ExecPolicy, ResourceLimits, SandboxError, SpawnRequest, empty_command,
  invalid_instance, non_absolute_path, option_like_program, shell_not_allowed, unsafe_cwd,
}

pub record SandboxPlan : Type 0 where
  pub backend : Backend
  pub program : Text
  pub args : List Text
  pub cwd : Text
  pub env : TextMap
  pub container_name : Option Text
  pub cleanup : Option (List Text)
  pub new_process_group : Bool
  pub build_signal : BuildSignal
  pub expects_start_sentinel : Bool

abbrev pub start_sentinel : Text
start_sentinel = codes "jitgen-sandbox: inner-exec"

pub record PlanInput : Type 0 where
  pub backend : Backend
  pub req : SpawnRequest
  pub overlay_root : Text
  pub synthetic_tmp : Text
  pub env : TextMap
  pub policy : ExecPolicy
  pub instance_id : Text
  pub run_as : Option Text

-- The loop of `validated_cwd` over the components.
push_components : Text → Text → List Component → Result SandboxError Text
unfolding push
push_components cwd_rel path [] = ok path
push_components cwd_rel path (normal s ∷ cs) = push_components cwd_rel (push path s) cs
push_components cwd_rel path (cur_dir ∷ cs) = push_components cwd_rel path cs
push_components cwd_rel path (other ∷ cs) = err (unsafe_cwd cwd_rel)

unfoldable pub validated_cwd : Text → Text → Result SandboxError Text
unfolding is_absolute push_components path_components
validated_cwd overlay_root cwd_rel =
    if not (is_absolute overlay_root)
    then err (non_absolute_path overlay_root)
    else if any (λ c. c == 92) cwd_rel
    then err (unsafe_cwd cwd_rel)
    else push_components cwd_rel overlay_root (path_components cwd_rel)

is_instance_char : ℕ → Bool
unfolding is_ascii_alphanumeric
is_instance_char b = is_ascii_alphanumeric b || b == b'-' || b == b'_'

-- `bytes().all` of ASCII tests is `all` of the characters, since the bytes of others are above 127.
unfoldable pub valid_instance : Text → Bool
unfolding len is_instance_char
valid_instance s = leb 1 (len s) && leb (len s) 64 && all is_instance_char s

unfoldable pub validate_instance : Text → Result SandboxError (Unit {0})
unfolding valid_instance
validate_instance s = guard (valid_instance s) (invalid_instance s)

unfoldable pub is_lower_hex : ℕ → Bool
unfolding is_ascii_digit
is_lower_hex b = is_ascii_digit b || leb b'a' b && leb b b'f'

found_at_end : Option Text → Option (Text × Text)
found_at_end (some rest) = some ([], rest)
found_at_end none = none

unfoldable pub found_at : ℕ → Option Text → Option (Text × Text) → Option (Text × Text)
found_at c (some rest) later = some ([], rest)
found_at c none (some (before, after)) = some (c ∷ before, after)
found_at c none none = none

-- `split_once`.
unfoldable pub split_once : Text → Text → Option (Text × Text)
unfolding strip_prefix found_at_end found_at
split_once sep [] = found_at_end (strip_prefix [] sep)
split_once sep (c ∷ s) = found_at c (strip_prefix (c ∷ s) sep) (split_once sep s)

pinned_parts : Option (Text × Text) → Bool
unfolding len is_lower_hex
pinned_parts none = false
pinned_parts (some (name, digest)) =
    not (is_empty name) && (len digest == 64) && all is_lower_hex digest

unfoldable pub is_digest_pinned : Text → Bool
unfolding split_once pinned_parts
is_digest_pinned image = pinned_parts (split_once (codes "@sha256:") image)

unfoldable pub digits : Text → Bool
unfolding is_ascii_digit
digits x = not (is_empty x) && all is_ascii_digit x

unfoldable pub id_parts : Option (Text × Text) → Bool
unfolding digits
id_parts none = false
id_parts (some (uid, gid)) = digits uid && digits gid && any (λ b. not (b == b'0')) uid

unfoldable pub is_uid_gid : Text → Bool
unfolding split_once id_parts
is_uid_gid s = id_parts (split_once (codes ":") s)

-- The `joined` command line.
unfoldable pub join_args : Text → List Text → Text
join_args joined [] = joined
join_args joined (a ∷ rest) = join_args (joined ++ codes " " ++ a) rest

unfoldable pub inner_argv : SpawnRequest → ExecPolicy → Result SandboxError (List Text)
unfolding join_args starts_with
inner_argv req policy =
    if is_empty req.program
    then err empty_command
    else if req.shell
    then (if not policy.shell_allowed
        then err shell_not_allowed
        else ok (codes "/bin/sh" ∷ codes "-c" ∷ join_args req.program req.args ∷ []))
    else if starts_with req.program (codes "-")
    then err option_like_program
    else ok (req.program ∷ req.args)

preamble_script : ResourceLimits → Text
unfolding show_nat
preamble_script limits =
    codes "ulimit -t "
    ++ show_nat limits.cpu_seconds
    ++ codes " 2>/dev/null || true; ulimit -v "
    ++ show_nat (limits.address_space_bytes / 1024)
    ++ codes " 2>/dev/null || true; printf '%s\\n' '"
    ++ start_sentinel
    ++ codes "' >&2; exec \"$@\""

unfoldable pub with_rlimit_preamble : List Text → ResourceLimits → List Text
unfolding preamble_script
with_rlimit_preamble inner limits =
    codes "/bin/sh" ∷ codes "-c" ∷ preamble_script limits ∷ codes "jitgen-sandbox" ∷ inner
