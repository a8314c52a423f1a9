-- ===== src/Sandbox/Env/Entries.antt =====
-- What a built environment holds, for any parent environment and policy.
pub mod Managed
use jitgen.Prelude.{
  All, All-map, List, Option, [], false, if_cases, inl, inr, none, refl, some, true, ◌∷◌, ◌≡◌, ◌⊎◌,
}
use jitgen.Prelude.Str.{Text, codes, text_eq}
use jitgen.Prelude.TextMap.{All-insert, TextMap, map_get}
use jitgen.Sandbox.DenyList.{is_denied, listed}
use jitgen.Sandbox.Env.{
  baseline_found, baseline_passthrough, baseline_value, build_env, extra_refusal, extra_step,
  filter_path, insert_found, pass_baseline, pass_extra, set_extra, set_managed, set_refusal,
  set_step,
}
use jitgen.Sandbox.Policy.{ExecPolicy}

-- The arguments of `build_env`.
pub record EnvInput : Type 0 where
  pub parent : TextMap
  pub policy : ExecPolicy
  pub home : Text
  pub tmp : Text
  pub overlay_root : Text
  pub state_root : Text

abbrev pub env_of : (Text → Text) → EnvInput → TextMap × List Text
env_of debug i = build_env debug i.parent i.policy i.home i.tmp i.overlay_root i.state_root

-- One of the items.
abbrev pub Among : {A : Type 0} → A → List A → Type 0
Among x [] = ⊥
Among x (y ∷ ys) = (x ≡ y) ⊎ Among x ys

Among-All : {A : Type 0} (xs : List A) → All (λ x. Among x xs) xs
Among-All [] = tt
Among-All (x ∷ xs) = (inl refl, All-map (λ y. Among y xs) (λ y m. inr m) xs (Among-All xs))

-- Where an entry of the environment comes from.
pub data Admitted (debug : Text → Text) (i : EnvInput) : Text × Text → Type 0 where
  home_entry : Admitted debug i (codes "HOME", i.home)
  tmp_entry : Admitted debug i (codes "TMPDIR", i.tmp)
  term_entry : Admitted debug i (codes "TERM", codes "dumb")
  path_entry :
      (name value : Text)
      → text_eq name (codes "PATH") ≡ true
      → map_get i.parent name ≡ some value
      → Admitted debug i (name, filter_path value i.overlay_root i.state_root)
  baseline_entry :
      (name value : Text)
      → text_eq name (codes "PATH") ≡ false
      → listed baseline_passthrough name ≡ true
      → is_denied name ≡ false
      → map_get i.parent name ≡ some value
      → Admitted debug i (name, value)
  passed_entry :
      (name value : Text)
      → Among name i.policy.env_allowlist_extra
      → extra_refusal name ≡ none
      → map_get i.parent name ≡ some value
      → Admitted debug i (name, value)
  set_entry :
      (name value : Text)
      → Among (name, value) i.policy.env_set_extra
      → set_refusal debug name value ≡ none
      → Admitted debug i (name, value)

baseline_listed : All (λ name. listed baseline_passthrough name ≡ true) baseline_passthrough
unfolding listed text_eq
baseline_listed = (refl, (refl, (refl, (refl, (refl, (refl, (refl, (refl, (refl, (refl, tt))))))))))

module _ (debug : Text → Text) (i : EnvInput) where
  abbrev AllAdmitted : TextMap → Type 0
  AllAdmitted env = All (Admitted debug i) env

  baseline-Admitted :
      (name value : Text)
      → listed baseline_passthrough name ≡ true
      → is_denied name ≡ false
      → map_get i.parent name ≡ some value
      → Admitted debug i (name, baseline_value i.overlay_root i.state_root name value)
  unfolding baseline_value
  baseline-Admitted name value l d g =
      if_cases (λ v. Admitted debug i (name, v)) (text_eq name (codes "PATH")) _ _
        (λ e. path_entry name value e g) λ e. baseline_entry name value e l d g

  found-AllAdmitted :
      (name : Text) (env : TextMap) (o : Option Text)
      → listed baseline_passthrough name ≡ true
      → is_denied name ≡ false
      → map_get i.parent name ≡ o
      → AllAdmitted env
      → AllAdmitted (baseline_found i.overlay_root i.state_root name env o)
  unfolding baseline_found
  found-AllAdmitted name env none l d g h = h
  found-AllAdmitted name env (some value) l d g h =
      All-insert (Admitted debug i) env name _ h (baseline-Admitted name value l d g)

  pass_baseline-AllAdmitted :
      (names : List Text) (env : TextMap)
      → All (λ name. listed baseline_passthrough name ≡ true) names
      → AllAdmitted env
      → AllAdmitted (pass_baseline i.parent i.overlay_root i.state_root names env)
  unfolding pass_baseline
  pass_baseline-AllAdmitted [] env l h = h
  pass_baseline-AllAdmitted (name ∷ names) env l h = pass_baseline-AllAdmitted names _ l.1 (
      if_cases AllAdmitted (is_denied name) _ _ (λ d. h)
        λ d. found-AllAdmitted name env (map_get i.parent name) l.0 d refl h)

  insert_found-AllAdmitted :
      (name : Text) (env : TextMap) (o : Option Text)
      → Among name i.policy.env_allowlist_extra
      → extra_refusal name ≡ none
      → map_get i.parent name ≡ o
      → AllAdmitted env
      → AllAdmitted (insert_found env name o)
  unfolding insert_found
  insert_found-AllAdmitted name env none m r g h = h
  insert_found-AllAdmitted name env (some value) m r g h =
      All-insert (Admitted debug i) env name value h (passed_entry name value m r g)

  extra_step-AllAdmitted :
      (name : Text) (env : TextMap) (warnings : List Text) (o : Option Text)
      → Among name i.policy.env_allowlist_extra
      → extra_refusal name ≡ o
      → AllAdmitted env
      → AllAdmitted (extra_step debug i.parent name (env, warnings) o).0
  unfolding extra_step
  extra_step-AllAdmitted name env warnings none m r h =
      insert_found-AllAdmitted name env (map_get i.parent name) m r refl h
  extra_step-AllAdmitted name env warnings (some reason) m r h = h

  pass_extra-AllAdmitted :
      (names : List Text) (b : TextMap × List Text)
      → All (λ name. Among name i.policy.env_allowlist_extra) names
      → AllAdmitted b.0
      → AllAdmitted (pass_extra debug i.parent names b).0
  unfolding pass_extra
  pass_extra-AllAdmitted [] b a h = h
  pass_extra-AllAdmitted (name ∷ names) b a h =
      pass_extra-AllAdmitted names _ a.1
        (extra_step-AllAdmitted name b.0 b.1 (extra_refusal name) a.0 refl h)

  set_step-AllAdmitted :
      (name value : Text) (env : TextMap) (warnings : List Text) (o : Option Text)
      → Among (name, value) i.policy.env_set_extra
      → set_refusal debug name value ≡ o
      → AllAdmitted env
      → AllAdmitted (set_step debug name value (env, warnings) o).0
  unfolding set_step
  set_step-AllAdmitted name value env warnings none m r h =
      All-insert (Admitted debug i) env name value h (set_entry name value m r)
  set_step-AllAdmitted name value env warnings (some reason) m r h = h

  set_extra-AllAdmitted :
      (rows : TextMap) (b : TextMap × List Text)
      → All (λ row. Among row i.policy.env_set_extra) rows
      → AllAdmitted b.0
      → AllAdmitted (set_extra debug rows b).0
  unfolding set_extra
  set_extra-AllAdmitted [] b a h = h
  set_extra-AllAdmitted ((name, value) ∷ rows) b a h =
      set_extra-AllAdmitted rows _ a.1
        (set_step-AllAdmitted name value b.0 b.1 (set_refusal debug name value) a.0 refl h)

  set_managed-AllAdmitted :
      (env : TextMap) → AllAdmitted env → AllAdmitted (set_managed i.home i.tmp env)
  unfolding set_managed
  set_managed-AllAdmitted env h =
      All-insert (Admitted debug i) _ _ _
        (All-insert (Admitted debug i) _ _ _ (All-insert (Admitted debug i) env _ _ h home_entry)
          tmp_entry)
        term_entry

-- Every entry of the environment that `build_env` builds is the synthetic HOME, TMPDIR or TERM,
-- the parent's PATH filtered, another baseline variable with the parent's value, a name of the
-- policy's `env_allowlist_extra` that `extra_refusal` accepts with the parent's value, or a setting of
-- the policy's `env_set_extra` that `set_refusal` accepts.
pub build_env-Admitted :
    (debug : Text → Text) (i : EnvInput) → All (Admitted debug i) (env_of debug i).0
unfolding build_env
build_env-Admitted debug i =
    set_extra-AllAdmitted debug i i.policy.env_set_extra _ (Among-All i.policy.env_set_extra) (
      pass_extra-AllAdmitted debug i i.policy.env_allowlist_extra _
        (Among-All i.policy.env_allowlist_extra)
        (set_managed-AllAdmitted debug i _
          (pass_baseline-AllAdmitted debug i baseline_passthrough [] baseline_listed tt)))
