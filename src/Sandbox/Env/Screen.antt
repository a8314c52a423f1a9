-- ===== src/Sandbox/Env/Screen.antt =====
-- Which names and values are refused, and the warnings about them.
use jitgen.Prelude.{
  Bool, List, Option, [], any, ap, arith, false, if◌then◌else◌, none, refl, some, ◌||◌, ◌↔◌, ◌∙◌,
  ◌∷◌, ◌≡◌,
}
use jitgen.Prelude.Str.{Text, is_control}
use jitgen.Prelude.TextMap.{TextMap}
use jitgen.Sandbox.DenyList.{is_denied, listed, to_ascii_uppercase}
use jitgen.Sandbox.Env.{
  baseline_passthrough, build_env, extra_refusal, extra_refusal_warnings, extra_step, extra_warning,
  managed, or_value_refusal, pass_extra, set_extra, set_refusal, set_step, set_warning,
  value_is_unsafe, value_refusal, warn_extra, warn_set,
}
use jitgen.Sandbox.Policy.{ExecPolicy}

-- A name that is accepted is no denied name, and no letter case of a managed or baseline name.
pub record Acceptable (name : Text) : Type 0 where
  pub undenied : is_denied name ≡ false
  pub unmanaged : listed managed (to_ascii_uppercase name) ≡ false
  pub not_baseline : listed baseline_passthrough (to_ascii_uppercase name) ≡ false

refused_iff :
    (d m b : Bool) (r s : Text)
    → ((if d then some r else if m || b then some s else none) ≡ none)
      ↔ ((d ≡ false) × (m ≡ false) × (b ≡ false))
refused_iff d m b r s = ground arith

pub extra_refusal-Acceptable : (name : Text) → (extra_refusal name ≡ none) ↔ Acceptable name
unfolding extra_refusal
extra_refusal-Acceptable name =
    let iff =
      refused_iff (is_denied name) (listed managed (to_ascii_uppercase name))
        (listed baseline_passthrough (to_ascii_uppercase name)) _ _ in
    (
      λ h. let (d, m, b) = iff.0 h in record { undenied = d; unmanaged = m; not_baseline = b },
      λ a. iff.1 (a.undenied, a.unmanaged, a.not_baseline),
    )

value_refused_iff :
    (c u : Bool) (r s : Text)
    → ((if c then some r else if u then some s else none) ≡ none) ↔ ((c ≡ false) × (u ≡ false))
value_refused_iff c u r s = ground arith

module _ (debug : Text → Text) where
  -- The name is acceptable, the value holds no control character, and unless the name is a known
  -- scalar every part of the value between colons is a safe absolute path.
  pub record SafeSetting (name value : Text) : Type 0 where
    pub name_ok : Acceptable name
    pub printable : any is_control value ≡ false
    pub safe_value : value_is_unsafe name value ≡ false

  value_refusal_iff :
      (name value : Text)
      → (value_refusal debug name value ≡ none)
        ↔ ((any is_control value ≡ false) × (value_is_unsafe name value ≡ false))
  unfolding value_refusal
  value_refusal_iff name value =
      value_refused_iff (any is_control value) (value_is_unsafe name value) _ _

  or_value_refusal_iff :
      (name value : Text) (o : Option Text)
      → (or_value_refusal debug name value o ≡ none)
        ↔ ((o ≡ none) × (value_refusal debug name value ≡ none))
  unfolding or_value_refusal
  or_value_refusal_iff name value (some reason) = ground arith
  or_value_refusal_iff name value none = (λ h. (refl, h), λ h. h.1)

  pub set_refusal-SafeSetting :
      (name value : Text) → (set_refusal debug name value ≡ none) ↔ SafeSetting name value
  unfolding set_refusal
  set_refusal-SafeSetting name value = (
    λ h.
        let (r, v) = (or_value_refusal_iff name value (extra_refusal name)).0 h in
        let (c, u) = (value_refusal_iff name value).0 v in
        record { name_ok = (extra_refusal-Acceptable name).0 r; printable = c; safe_value = u },
    λ s. (or_value_refusal_iff name value (extra_refusal name)).1 (
      (extra_refusal-Acceptable name).1 s.name_ok,
      (value_refusal_iff name value).1 (s.printable, s.safe_value),
    ),
  )

  extra_step-warns :
      (parent : TextMap) (name : Text) (env : TextMap) (warnings : List Text) (o : Option Text)
      → (extra_step debug parent name (env, warnings) o).1 ≡ extra_warning debug name warnings o
  unfolding extra_step extra_warning
  extra_step-warns parent name env warnings (some reason) = refl
  extra_step-warns parent name env warnings none = refl

  pass_extra-warns :
      (parent : TextMap) (names : List Text) (b : TextMap × List Text)
      → (pass_extra debug parent names b).1 ≡ warn_extra debug names b.1
  unfolding pass_extra warn_extra
  pass_extra-warns parent [] b = refl
  pass_extra-warns parent (name ∷ names) b =
      pass_extra-warns parent names (extra_step debug parent name b (extra_refusal name))
      ∙ ap (warn_extra debug names) (extra_step-warns parent name b.0 b.1 (extra_refusal name))

  set_step-warns :
      (name value : Text) (env : TextMap) (warnings : List Text) (o : Option Text)
      → (set_step debug name value (env, warnings) o).1 ≡ set_warning debug name warnings o
  unfolding set_step set_warning
  set_step-warns name value env warnings (some reason) = refl
  set_step-warns name value env warnings none = refl

  set_extra-warns :
      (rows : TextMap) (b : TextMap × List Text)
      → (set_extra debug rows b).1 ≡ warn_set debug rows b.1
  unfolding set_extra warn_set
  set_extra-warns [] b = refl
  set_extra-warns ((name, value) ∷ rows) b =
      set_extra-warns rows (set_step debug name value b (set_refusal debug name value))
      ∙ ap (warn_set debug rows) (set_step-warns name value b.0 b.1 (set_refusal debug name value))

-- The refusals that `extra_refusal_warnings` lists when the sandbox is made are exactly the
-- warnings of `build_env`, in their order, for every parent environment and all paths.
pub build_env-warnings :
    (debug : Text → Text) (parent : TextMap) (policy : ExecPolicy)
    (home tmp overlay_root state_root : Text)
    → (build_env debug parent policy home tmp overlay_root state_root).1
      ≡ extra_refusal_warnings debug policy
unfolding build_env extra_refusal_warnings
build_env-warnings debug parent policy home tmp overlay_root state_root =
    set_extra-warns debug policy.env_set_extra _
    ∙ ap (warn_set debug policy.env_set_extra)
        (pass_extra-warns debug parent policy.env_allowlist_extra _)
