-- ===== src/Sandbox/DenyList.antt =====
-- crates/jitgen-sandbox/src/env.rs: the names that no child may have.
use jitgen.Prelude.{Bool, List, [], any, map, ◌||◌, ◌∷◌}
use jitgen.Prelude.Str.{Text, codes, contains, ends_with, starts_with, text_eq, upper_char}

abbrev deny_prefixes : List Text
deny_prefixes =
    codes "AWS_"
    ∷ codes "SSH_"
    ∷ codes "GH_"
    ∷ codes "GITHUB_"
    ∷ codes "GOOGLE_"
    ∷ codes "GCP_"
    ∷ codes "AZURE_"
    ∷ codes "NPM_"
    ∷ codes "PIP_"
    ∷ codes "DOCKER_"
    ∷ codes "VAULT_"
    ∷ codes "KUBERNETES_"
    ∷ codes "CARGO_REGISTRY"
    ∷ codes "LD_"
    ∷ codes "DYLD_"
    ∷ []

abbrev deny_substrings : List Text
deny_substrings =
    codes "SECRET"
    ∷ codes "TOKEN"
    ∷ codes "PASSWORD"
    ∷ codes "PASSWD"
    ∷ codes "CREDENTIAL"
    ∷ codes "APIKEY"
    ∷ codes "PRIVATE_KEY"
    ∷ codes "DSN"
    ∷ codes "WEBHOOK"
    ∷ codes "NETRC"
    ∷ codes "KUBECONFIG"
    ∷ []

abbrev deny_suffixes : List Text
deny_suffixes = codes "_KEY" ∷ codes "_AUTH" ∷ codes "_URL" ∷ codes "_URI" ∷ codes "_PROXY" ∷ []

abbrev deny_exact : List Text
deny_exact =
    codes "SSH_AUTH_SOCK"
    ∷ codes "SSH_AGENT_PID"
    ∷ codes "GPG_AGENT_INFO"
    ∷ codes "DBUS_SESSION_BUS_ADDRESS"
    ∷ []

abbrev deny_exec_exact : List Text
deny_exec_exact =
    codes "RUSTC"
    ∷ codes "RUSTC_WRAPPER"
    ∷ codes "RUSTC_WORKSPACE_WRAPPER"
    ∷ codes "CARGO"
    ∷ codes "CC"
    ∷ codes "CXX"
    ∷ codes "LD"
    ∷ codes "AR"
    ∷ codes "BASH_ENV"
    ∷ codes "ENV"
    ∷ codes "NODE_OPTIONS"
    ∷ codes "PYTHONSTARTUP"
    ∷ codes "PERL5OPT"
    ∷ codes "RUBYOPT"
    ∷ codes "GIT_SSH"
    ∷ codes "GIT_SSH_COMMAND"
    ∷ codes "GIT_EXTERNAL_DIFF"
    ∷ codes "GIT_PROXY_COMMAND"
    ∷ codes "GIT_PAGER"
    ∷ codes "GIT_EDITOR"
    ∷ codes "PAGER"
    ∷ codes "EDITOR"
    ∷ codes "VISUAL"
    ∷ codes "BROWSER"
    ∷ codes "SHELL"
    ∷ []

abbrev deny_exec_suffixes : List Text
deny_exec_suffixes = codes "_RUNNER" ∷ codes "_LINKER" ∷ codes "_WRAPPER" ∷ []

-- `to_ascii_uppercase`.
unfoldable pub to_ascii_uppercase : Text → Text
unfolding upper_char
to_ascii_uppercase s = map upper_char s

-- `contains` of a list of names.
unfoldable pub listed : List Text → Text → Bool
unfolding text_eq
listed names u = any (text_eq u) names

denied_upper : Text → Bool
unfolding listed starts_with contains ends_with
denied_upper u =
    listed deny_exact u
    || listed deny_exec_exact u
    || any (starts_with u) deny_prefixes
    || any (contains u) deny_substrings
    || any (ends_with u) deny_suffixes
    || any (ends_with u) deny_exec_suffixes

unfoldable pub is_denied : Text → Bool
unfolding denied_upper to_ascii_uppercase
is_denied name = denied_upper (to_ascii_uppercase name)
