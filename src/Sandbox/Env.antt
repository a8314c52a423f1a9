-- ===== src/Sandbox/Env.antt =====
-- crates/jitgen-sandbox/src/env.rs: the environment of a sandboxed child.
-- `debug` is the format `{:?}` of a string; `std::env::vars` is the argument `parent`.
pub mod Screen
pub mod Entries
pub mod SearchPath
use jitgen.Core.Model.{passed}
use jitgen.Prelude.{
  Bool, List, Option, [], all, any, false, filter, if◌then◌else◌, is_empty, none, not, some, true,
  ◌&&◌, ◌++◌, ◌||◌, ◌∷◌,
}
use jitgen.Prelude.Paths.{
  Component, is_absolute, normal, path_components, path_starts_with, root_dir,
}
use jitgen.Prelude.Str.{Text, codes, is_control, join, split, text_eq}
use jitgen.Prelude.TextMap.{TextMap, map_get, map_insert}
use jitgen.Sandbox.DenyList.{is_denied, listed, to_ascii_uppercase}
use jitgen.Sandbox.Policy.{ExecPolicy}

abbrev pub baseline_passthrough : List Text
baseline_passthrough =
    codes "PATH"
    ∷ codes "LANG"
    ∷ codes "LC_ALL"
    ∷ codes "LC_CTYPE"
    ∷ codes "LC_NUMERIC"
    ∷ codes "LC_TIME"
    ∷ codes "LC_COLLATE"
    ∷ codes "LC_MONETARY"
    ∷ codes "LC_MESSAGES"
    ∷ codes "TZ"
    ∷ []

abbrev pub managed : List Text
managed = codes "HOME" ∷ codes "TMPDIR" ∷ codes "TERM" ∷ []

abbrev pub fallback_path : Text
fallback_path = codes "/usr/bin:/bin:/usr/sbin:/sbin"

-- An entry of `PATH` that is kept.
unfoldable pub keeps_entry : (overlay_root state_root : Text) → Text → Bool
unfolding is_absolute path_starts_with
keeps_entry overlay_root state_root e =
    not (is_empty e)
    && is_absolute e
    && not (path_starts_with e overlay_root)
    && not (path_starts_with e state_root)

join_path : List Text → Text
unfolding join
join_path [] = fallback_path
join_path (e ∷ es) = join (codes ":") (e ∷ es)

unfoldable pub filter_path : Text → (overlay_root state_root : Text) → Text
unfolding split keeps_entry join_path
filter_path value overlay_root state_root =
    join_path (filter (keeps_entry overlay_root state_root) (split b':' value))

unfoldable pub extra_refusal : Text → Option Text
unfolding is_denied to_ascii_uppercase listed
extra_refusal name =
    let upper = to_ascii_uppercase name in
    if is_denied name
    then some (codes "matches a credential/socket/loader deny-pattern")
    else if listed managed upper || listed baseline_passthrough upper
    then some (codes "name is managed by the sandbox")
    else none

abbrev scalar_value_allowlist : List Text
scalar_value_allowlist = codes "CARGO_NET_OFFLINE" ∷ []

abbrev pseudo_roots : List Text
pseudo_roots = codes "/proc" ∷ codes "/sys" ∷ codes "/dev/fd" ∷ []

is_root_or_normal : Component → Bool
is_root_or_normal root_dir = true
is_root_or_normal (normal s) = true
is_root_or_normal other = false

unfoldable pub component_is_safe_absolute : Text → Bool
unfolding is_absolute path_components path_starts_with is_root_or_normal
component_is_safe_absolute component =
    is_absolute component
    && all is_root_or_normal (path_components component)
    && not (any (path_starts_with component) pseudo_roots)

unfoldable pub value_is_unsafe : Text → Text → Bool
unfolding listed to_ascii_uppercase component_is_safe_absolute split
value_is_unsafe name value =
    not (listed scalar_value_allowlist (to_ascii_uppercase name))
    && not (all component_is_safe_absolute (split b':' value))

-- The environment that is built, and the warnings.
abbrev pub Built : Type 0
Built = TextMap × List Text

insert_found : TextMap → Text → Option Text → TextMap
unfolding map_insert
insert_found env name none = env
insert_found env name (some value) = map_insert env name value

baseline_value : Text → Text → Text → Text → Text
unfolding filter_path text_eq
baseline_value overlay_root state_root name value =
    if text_eq name (codes "PATH") then filter_path value overlay_root state_root else value

pub baseline_found : Text → Text → Text → TextMap → Option Text → TextMap
unfolding baseline_value map_insert
baseline_found overlay_root state_root name env none = env
baseline_found overlay_root state_root name env (some value) =
    map_insert env name (baseline_value overlay_root state_root name value)

-- The loop over `BASELINE_PASSTHROUGH`.
unfoldable pub pass_baseline : TextMap → Text → Text → List Text → TextMap → TextMap
unfolding is_denied map_get baseline_found
pass_baseline parent overlay_root state_root [] env = env
pass_baseline parent overlay_root state_root (name ∷ names) env =
    let found = baseline_found overlay_root state_root name env (map_get parent name) in
    pass_baseline parent overlay_root state_root names (if is_denied name then env else found)

-- The synthetic values, over what the baseline passed.
unfoldable pub set_managed : Text → Text → TextMap → TextMap
unfolding map_insert
set_managed home tmp env =
    map_insert (map_insert (map_insert env (codes "HOME") home) (codes "TMPDIR") tmp) (codes "TERM")
      (codes "dumb")

module _ (debug : Text → Text) where
  value_refusal : Text → Text → Option Text
  unfolding value_is_unsafe is_control
  value_refusal name value =
      if any is_control value
      then some (
          codes "value "
          ++ debug value
          ++ codes " contains a control character (not allowed in a sandbox env value)")
      else if value_is_unsafe name value
      then some (
          codes "value "
          ++ debug value
          ++ codes
              " is not a safe absolute path (env_set_extra path values must be absolute, normalized, and outside /proc; a relative, `..`, empty, or pseudo-fs component resolves under the hostile overlay cwd)")
      else none

  or_value_refusal : Text → Text → Option Text → Option Text
  unfolding value_refusal
  or_value_refusal name value (some reason) = some reason
  or_value_refusal name value none = value_refusal name value

  unfoldable pub set_refusal : Text → Text → Option Text
  unfolding extra_refusal or_value_refusal
  set_refusal name value = or_value_refusal name value (extra_refusal name)

  warning : Text → Text → Text → Text
  warning list name reason =
      codes "ignored " ++ list ++ codes " " ++ debug name ++ codes ": " ++ reason

  unfoldable pub extra_step : TextMap → Text → Built → Option Text → Built
  unfolding map_get insert_found warning
  extra_step parent name (env, warnings) (some reason) =
      (env, warnings ++ warning (codes "env_allowlist_extra") name reason ∷ [])
  extra_step parent name (env, warnings) none =
      (insert_found env name (map_get parent name), warnings)

  -- The loop over `env_allowlist_extra`.
  unfoldable pub pass_extra : TextMap → List Text → Built → Built
  unfolding extra_refusal extra_step
  pass_extra parent [] b = b
  pass_extra parent (name ∷ names) b =
      pass_extra parent names (extra_step parent name b (extra_refusal name))

  unfoldable pub set_step : Text → Text → Built → Option Text → Built
  unfolding map_insert warning
  set_step name value (env, warnings) (some reason) =
      (env, warnings ++ warning (codes "env_set_extra") name reason ∷ [])
  set_step name value (env, warnings) none = (map_insert env name value, warnings)

  -- The loop over `env_set_extra`.
  unfoldable pub set_extra : TextMap → Built → Built
  unfolding set_refusal set_step
  set_extra [] b = b
  set_extra ((name, value) ∷ rows) b =
      set_extra rows (set_step name value b (set_refusal name value))

  unfoldable pub build_env :
      TextMap → ExecPolicy → (home tmp overlay_root state_root : Text) → Built
  unfolding pass_baseline pass_extra set_extra set_managed
  build_env parent policy home tmp overlay_root state_root =
      let passed = pass_baseline parent overlay_root state_root baseline_passthrough [] in
      let named = pass_extra parent policy.env_allowlist_extra (set_managed home tmp passed, []) in
      set_extra policy.env_set_extra named

  extra_warning : Text → List Text → Option Text → List Text
  unfolding warning
  extra_warning name warnings (some reason) =
      warnings ++ warning (codes "env_allowlist_extra") name reason ∷ []
  extra_warning name warnings none = warnings

  warn_extra : List Text → List Text → List Text
  unfolding extra_refusal extra_warning
  warn_extra [] warnings = warnings
  warn_extra (name ∷ names) warnings =
      warn_extra names (extra_warning name warnings (extra_refusal name))

  set_warning : Text → List Text → Option Text → List Text
  unfolding warning
  set_warning name warnings (some reason) =
      warnings ++ warning (codes "env_set_extra") name reason ∷ []
  set_warning name warnings none = warnings

  warn_set : TextMap → List Text → List Text
  unfolding set_refusal set_warning
  warn_set [] warnings = warnings
  warn_set ((name, value) ∷ rows) warnings =
      warn_set rows (set_warning name warnings (set_refusal name value))

  unfoldable pub extra_refusal_warnings : ExecPolicy → List Text
  unfolding warn_extra warn_set
  extra_refusal_warnings policy =
      warn_set policy.env_set_extra (warn_extra policy.env_allowlist_extra [])
