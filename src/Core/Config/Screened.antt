-- ===== src/Core/Config/Screened.antt =====
-- What reading a repository's configuration guarantees.
use jitgen.Core.Config.{
  RepoConfig, Yaml, allowed_grammars, forbidden_repo_keys, is_listed, key_warning, key_warnings,
  max_repo_config_bytes, oversized, parse_yaml, screened, yaml,
}
use jitgen.Prelude.{
  All, Any, Any-append_left, Bool, List, Option, [], ap, arith, false, if_cases, if◌then◌else◌, inl,
  inr, leb, leb→le, none, refl, some, subst, sym, true, ◌∙◌, ◌∷◌, ◌≡◌, ◌≤◌, ◌⊎◌,
}
use jitgen.Prelude.Result.{Result, bind_ok, err, guard, guard_ok, ok, ok_inj}
use jitgen.Prelude.Str.{Text, len}

-- A configuration that the repository may have: its grammar is one of the compiled ones.
abbrev pub GrammarAllowed : Option Text → Type 0
GrammarAllowed none = Unit
GrammarAllowed (some g) = is_listed allowed_grammars g ≡ true

-- Whatever the keys and the configuration are, the outcome of `screened` is allowed, and every warning stays.
screened-GrammarAllowed :
    (cfg : RepoConfig) (warnings : List Text) (g : Option Text)
    → cfg.grammar ≡ g
    → GrammarAllowed (screened cfg warnings g).0.grammar
      × ((w : Text) → Any (λ v. v ≡ w) warnings → Any (λ v. v ≡ w) (screened cfg warnings g).1)
unfolding screened
screened-GrammarAllowed cfg warnings none e = (subst GrammarAllowed (sym e) tt, λ w a. a)
screened-GrammarAllowed cfg warnings (some g) e =
    if_cases
      (λ (r : RepoConfig × List Text).
        GrammarAllowed r.0.grammar
        × ((w : Text) → Any (λ v. v ≡ w) warnings → Any (λ v. v ≡ w) r.1))
      (is_listed allowed_grammars g) _ _ (λ t. (subst GrammarAllowed (sym e) t, λ w a. a))
      λ f. (tt, λ w a. Any-append_left (λ v. v ≡ w) warnings _ a)

-- A key that is security-relevant is warned of.
abbrev pub Warned : List Text → Text → Type 0
Warned warnings k =
    (is_listed forbidden_repo_keys k ≡ false) ⊎ Any (λ v. v ≡ key_warning k) warnings

key_warnings-Warned :
    (ks warnings : List Text)
    → ((w : Text) → Any (λ v. v ≡ w) (key_warnings ks) → Any (λ v. v ≡ w) warnings)
    → All (Warned warnings) ks
unfolding key_warnings
key_warnings-Warned [] warnings h = tt
key_warnings-Warned (k ∷ ks) warnings h =
    of_listed (is_listed forbidden_repo_keys k) refl h (key_warnings-Warned ks warnings)
  where
    of_listed :
        (t : Bool)
        → is_listed forbidden_repo_keys k ≡ t
        → ((w : Text)
            → Any (λ v. v ≡ w) (if t then key_warning k ∷ key_warnings ks else key_warnings ks)
            → Any (λ v. v ≡ w) warnings)
        → (((w : Text) → Any (λ v. v ≡ w) (key_warnings ks) → Any (λ v. v ≡ w) warnings)
            → All (Warned warnings) ks)
        → Warned warnings k × All (Warned warnings) ks
    of_listed true e h ih = (inr (h (key_warning k) (inl refl)), ih λ w a. h w (inr a))
    of_listed false e h ih = (inl e, ih h)

-- A repository's configuration that is read is of a text of at most 256 KiB and names no grammar but
-- the compiled ones, and each security-relevant key of the text is warned of.
pub parse_yaml-Warned :
    {V : Type 0} (y : Yaml V) (text : Text) (value : V) (cfg : RepoConfig) (warnings : List Text)
    → y.value_of text ≡ ok value
    → parse_yaml y text ≡ ok (cfg, warnings)
    → (len text ≤ max_repo_config_bytes)
      × GrammarAllowed cfg.grammar
      × All (Warned warnings) (y.keys value)
unfolding parse_yaml
parse_yaml-Warned y text value cfg warnings v h =
    let (u, e1, k1) =
      bind_ok (guard (leb (len text) max_repo_config_bytes) (oversized (len text))) _
        (cfg, warnings) h in
    let (value2, e2, k2) = bind_ok (yaml (y.value_of text)) _ (cfg, warnings) k1 in
    let (read, e3, k3) = bind_ok (yaml (y.config_of value2)) _ (cfg, warnings) k2 in
    let same = ok_inj value2 value (sym (yaml_ok (y.value_of text) value2 e2) ∙ v) in
    let result =
      ok_inj (screened read (key_warnings (y.keys value2)) read.grammar) (cfg, warnings) k3 in
    let (allowed, kept_warnings) =
      screened-GrammarAllowed read (key_warnings (y.keys value2)) read.grammar refl in
    (
      leb→le (len text) max_repo_config_bytes
          (guard_ok (leb (len text) max_repo_config_bytes) _ u e1),
      subst (λ (r : RepoConfig × List Text). GrammarAllowed r.0.grammar) result allowed,
      subst (λ x. All (Warned warnings) (y.keys x)) same
          (key_warnings-Warned (y.keys value2) warnings λ w a.
            subst (λ (r : RepoConfig × List Text). Any (λ v. v ≡ w) r.1) result
              (kept_warnings w a)),
    )
  where
    yaml_ok : {A : Type 0} (r : Result Text A) (a : A) → yaml r ≡ ok a → r ≡ ok a
    yaml_ok (ok b) a e = ap ok (ok_inj b a e)
    yaml_ok (err x) a e = ground arith
