-- ===== src/Sandbox/Env/Entries/Managed.antt =====
-- The synthetic values stand in every built environment, and no refused name does.
use jitgen.Prelude.{
  All, All-map, Bool-cases, List, Option, [], ap, arith, false, inl, inr, none, refl, some, subst,
  sym, true, ◌∙◌, ◌∷◌, ◌≡◌,
}
use jitgen.Prelude.Str.{Text, codes, text_eq, text_eq_iff, upper_char}
use jitgen.Prelude.TextMap.{TextMap, get-insert, get-insert_other, map_get, map_insert}
use jitgen.Sandbox.DenyList.{is_denied, listed, to_ascii_uppercase}
use jitgen.Sandbox.Env.{
  baseline_passthrough, build_env, extra_refusal, extra_step, insert_found, managed, pass_baseline,
  pass_extra, set_extra, set_managed, set_refusal, set_step,
}
use jitgen.Sandbox.Env.Entries.{
  Admitted, EnvInput, baseline_entry, build_env-Admitted, env_of, home_entry, passed_entry,
  path_entry, set_entry, term_entry, tmp_entry,
}
use jitgen.Sandbox.Env.Screen.{Acceptable, extra_refusal-Acceptable, set_refusal-SafeSetting}

-- Another name than `k`, when `k` is managed and the name is acceptable.
Acceptable-differs :
    (name k : Text)
    → listed managed (to_ascii_uppercase k) ≡ true
    → Acceptable name
    → text_eq name k ≡ false
Acceptable-differs name k m a = elim (Bool-cases (text_eq name k)) [
  | inl e ↦
      let same = (text_eq_iff name k).0 e in
      let no : false ≡ true =
        sym a.unmanaged ∙ ap (λ n. listed managed (to_ascii_uppercase n)) same ∙ m in
      ground arith
  | inr e ↦ e
]

module _ (debug : Text → Text) (k : Text) (m : listed managed (to_ascii_uppercase k) ≡ true) where
  insert-get :
      (env : TextMap) (name value : Text)
      → Acceptable name
      → map_get (map_insert env name value) k ≡ map_get env k
  insert-get env name value a = get-insert_other env name k value (Acceptable-differs name k m a)

  insert_found-get :
      (env : TextMap) (name : Text) (o : Option Text)
      → Acceptable name
      → map_get (insert_found env name o) k ≡ map_get env k
  unfolding insert_found
  insert_found-get env name none a = refl
  insert_found-get env name (some value) a = insert-get env name value a

  extra_step-get :
      (parent : TextMap) (name : Text) (b : TextMap × List Text) (o : Option Text)
      → extra_refusal name ≡ o
      → map_get (extra_step debug parent name b o).0 k ≡ map_get b.0 k
  unfolding extra_step
  extra_step-get parent name (env, warnings) (some reason) r = refl
  extra_step-get parent name (env, warnings) none r =
      insert_found-get env name (map_get parent name) ((extra_refusal-Acceptable name).0 r)

  pass_extra-get :
      (parent : TextMap) (names : List Text) (b : TextMap × List Text)
      → map_get (pass_extra debug parent names b).0 k ≡ map_get b.0 k
  unfolding pass_extra
  pass_extra-get parent [] b = refl
  pass_extra-get parent (name ∷ names) b =
      pass_extra-get parent names (extra_step debug parent name b (extra_refusal name))
      ∙ extra_step-get parent name b (extra_refusal name) refl

  set_step-get :
      (name value : Text) (b : TextMap × List Text) (o : Option Text)
      → set_refusal debug name value ≡ o
      → map_get (set_step debug name value b o).0 k ≡ map_get b.0 k
  unfolding set_step
  set_step-get name value (env, warnings) (some reason) r = refl
  set_step-get name value (env, warnings) none r =
      insert-get env name value ((set_refusal-SafeSetting debug name value).0 r).name_ok

  set_extra-get :
      (rows : TextMap) (b : TextMap × List Text)
      → map_get (set_extra debug rows b).0 k ≡ map_get b.0 k
  unfolding set_extra
  set_extra-get [] b = refl
  set_extra-get ((name, value) ∷ rows) b =
      set_extra-get rows (set_step debug name value b (set_refusal debug name value))
      ∙ set_step-get name value b (set_refusal debug name value) refl

  build_env-get :
      (i : EnvInput)
      → map_get (env_of debug i).0 k
        ≡ map_get
            (set_managed i.home i.tmp
              (pass_baseline i.parent i.overlay_root i.state_root baseline_passthrough []))
            k
  unfolding build_env
  build_env-get i =
      set_extra-get i.policy.env_set_extra _
      ∙ pass_extra-get i.parent i.policy.env_allowlist_extra _

-- The three values, of the environment that `set_managed` leaves.
abbrev pub Synthetic : TextMap → Text → Text → Type 0
Synthetic env home tmp =
    (map_get env (codes "HOME") ≡ some home)
    × (map_get env (codes "TMPDIR") ≡ some tmp)
    × (map_get env (codes "TERM") ≡ some (codes "dumb"))

set_managed-Synthetic :
    (home tmp : Text) (env : TextMap) → Synthetic (set_managed home tmp env) home tmp
unfolding set_managed text_eq
set_managed-Synthetic home tmp env =
    let with_home = map_insert env (codes "HOME") home in
    let with_tmp = map_insert with_home (codes "TMPDIR") tmp in
    (
      get-insert_other with_tmp (codes "TERM") (codes "HOME") (codes "dumb") refl
          ∙ get-insert_other with_home (codes "TMPDIR") (codes "HOME") tmp refl
          ∙ get-insert env (codes "HOME") home,
      get-insert_other with_tmp (codes "TERM") (codes "TMPDIR") (codes "dumb") refl
          ∙ get-insert with_home (codes "TMPDIR") tmp,
      get-insert with_tmp (codes "TERM") (codes "dumb"),
    )

build_env-Synthetic :
    (debug : Text → Text) (i : EnvInput) → Synthetic (env_of debug i).0 i.home i.tmp
unfolding listed text_eq to_ascii_uppercase upper_char
build_env-Synthetic debug i =
    let (home, tmp, term) =
      set_managed-Synthetic i.home i.tmp
        (pass_baseline i.parent i.overlay_root i.state_root baseline_passthrough []) in
    (
      build_env-get debug (codes "HOME") refl i ∙ home,
      build_env-get debug (codes "TMPDIR") refl i ∙ tmp,
      build_env-get debug (codes "TERM") refl i ∙ term,
    )

Admitted-undenied :
    (debug : Text → Text) (i : EnvInput) (row : Text × Text)
    → Admitted debug i row
    → is_denied row.0 ≡ false
unfolding is_denied to_ascii_uppercase upper_char
Admitted-undenied debug i row home_entry = refl
Admitted-undenied debug i row tmp_entry = refl
Admitted-undenied debug i row term_entry = refl
Admitted-undenied debug i row (path_entry name value e g) =
    subst (λ n. is_denied n ≡ false) (sym ((text_eq_iff name (codes "PATH")).0 e)) refl
Admitted-undenied debug i row (baseline_entry name value p l d g) = d
Admitted-undenied debug i row (passed_entry name value m r g) =
    ((extra_refusal-Acceptable name).0 r).undenied
Admitted-undenied debug i row (set_entry name value m r) =
    ((set_refusal-SafeSetting debug name value).0 r).name_ok.undenied

-- Whatever the parent environment holds and whatever names and values the policy adds, HOME and
-- TMPDIR of the child are the synthetic directories, TERM is `dumb`, and no variable of the child
-- has a name that the deny patterns match.
pub build_env-Guarded :
    (debug : Text → Text) (i : EnvInput)
    → Synthetic (env_of debug i).0 i.home i.tmp
      × All (λ row. is_denied row.0 ≡ false) (env_of debug i).0
build_env-Guarded debug i = (
  build_env-Synthetic debug i,
  All-map (Admitted debug i) (Admitted-undenied debug i) _ (build_env-Admitted debug i),
)
