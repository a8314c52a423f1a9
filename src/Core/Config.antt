-- ===== src/Core/Config.antt =====
-- crates/jitgen-core/src/config.rs: the settings that a repository may make.
-- Reading YAML is a parameter.
pub mod Screened
use jitgen.Prelude.{
  Bool, List, Option, [], any, if◌then◌else◌, leb, map, none, some, ℕ, ◌*◌, ◌++◌, ◌∷◌,
}
use jitgen.Prelude.Result.{Result, err, guard, ok, ◌>>=◌}
use jitgen.Prelude.Str.{Text, codes, len, text_eq}

abbrev pub max_repo_config_bytes : ℕ
max_repo_config_bytes = 256 * 1024

abbrev pub forbidden_repo_keys : List Text
forbidden_repo_keys =
    codes "provider"
    ∷ codes "base_url"
    ∷ codes "base-url"
    ∷ codes "api_key_env"
    ∷ codes "api-key-env"
    ∷ codes "model"
    ∷ codes "real_llm"
    ∷ codes "real-llm"
    ∷ codes "shell"
    ∷ codes "shell_allowed"
    ∷ codes "env"
    ∷ codes "env_allowlist"
    ∷ codes "env-allowlist"
    ∷ codes "env_allowlist_extra"
    ∷ codes "env_set_extra"
    ∷ codes "env-set-extra"
    ∷ codes "sandbox"
    ∷ codes "sandbox_backend"
    ∷ codes "sandbox-backend"
    ∷ codes "state_dir"
    ∷ codes "state-dir"
    ∷ codes "unsafe_local_execution"
    ∷ codes "unsafe-local-execution"
    ∷ codes "mode"
    ∷ codes "strategy"
    ∷ codes "max_tests"
    ∷ codes "docker_image"
    ∷ codes "docker-image"
    ∷ []

abbrev pub allowed_grammars : List Text
allowed_grammars =
    codes "typescript"
    ∷ codes "tsx"
    ∷ codes "javascript"
    ∷ codes "java"
    ∷ codes "python"
    ∷ codes "rust"
    ∷ []

pub record RepoConfig : Type 0 where
  pub id : Option Text
  pub extensions : List Text
  pub include : List Text
  pub exclude : List Text
  pub test_argv : List Text
  pub grammar : Option Text
  pub prompt_hints : List Text

pub data ConfigError : Type 0 where
  oversized : ℕ → ConfigError
  yaml_error : Text → ConfigError

-- `from_str` to a value, the text keys of a mapping (none of another value), and `from_value`.
pub record Yaml (V : Type 0) : Type 0 where
  pub value_of : Text → Result Text V
  pub keys : V → List Text
  pub config_of : V → Result Text RepoConfig

unfoldable pub is_listed : List Text → Text → Bool
unfolding text_eq
is_listed names name = any (λ n. text_eq n name) names

unfoldable pub key_warning : Text → Text
key_warning name =
    codes "ignored security-relevant key '"
    ++ name
    ++ codes "' in .jitgen.yaml (trusted-config only; ADR-0010)"

unfoldable pub grammar_warning : Text → Text
grammar_warning g =
    codes "ignored non-allowlisted grammar '"
    ++ g
    ++ codes "' in .jitgen.yaml (compiled-in allowlist only; ADR-0007)"

unfoldable pub key_warnings : List Text → List Text
unfolding is_listed key_warning
key_warnings [] = []
key_warnings (k ∷ ks) =
    let rest = key_warnings ks in
    if is_listed forbidden_repo_keys k then key_warning k ∷ rest else rest

-- A grammar outside the list is dropped with a warning.
unfoldable pub screened : RepoConfig → List Text → Option Text → RepoConfig × List Text
unfolding is_listed grammar_warning
screened cfg warnings none = (cfg, warnings)
screened cfg warnings (some g) =
    if is_listed allowed_grammars g
    then (cfg, warnings)
    else (record cfg { grammar = none }, warnings ++ grammar_warning g ∷ [])

unfoldable pub yaml : {A : Type 0} → Result Text A → Result ConfigError A
yaml (ok a) = ok a
yaml (err e) = err (yaml_error e)

-- `RepoConfig::parse_yaml`.
unfoldable pub parse_yaml :
    {V : Type 0} → Yaml V → Text → Result ConfigError (RepoConfig × List Text)
unfolding len yaml key_warnings screened
parse_yaml y text = do
  _ ← guard (leb (len text) max_repo_config_bytes) (oversized (len text))
  value ← yaml (y.value_of text)
  cfg ← yaml (y.config_of value)
  ok (screened cfg (key_warnings (y.keys value)) cfg.grammar)

-- The first substitution of a token that is a placeholder as a whole.
unfoldable pub substituted : Text → List (Text × Text) → Text
unfolding text_eq
substituted tok [] = tok
substituted tok ((name, val) ∷ subs) =
    let later = substituted tok subs in
    if text_eq tok (codes "{" ++ name ++ codes "}") then val else later

unfoldable pub render_argv : RepoConfig → List (Text × Text) → List Text
unfolding substituted
render_argv cfg subs = map (λ tok. substituted tok subs) cfg.test_argv
