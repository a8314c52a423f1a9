-- ===== src/Intake/Filter.antt =====
-- crates/jitgen-gitintake/src/filter.rs: paths that no test generation reads.
use jitgen.Prelude.{
  Bool, List, Option, [], any, false, if◌then◌else◌, is_empty, none, some, ◌||◌, ◌∷◌,
}
use jitgen.Prelude.Str.{
  Text, codes, contains, ends_with, split, starts_with, strip_prefix, text_eq, to_ascii_lowercase,
}

abbrev vendor_segments : List Text
vendor_segments =
    codes ".git"
    ∷ codes "node_modules"
    ∷ codes "target"
    ∷ codes "dist"
    ∷ codes "build"
    ∷ codes "out"
    ∷ codes ".next"
    ∷ codes ".nuxt"
    ∷ codes "vendor"
    ∷ codes "__pycache__"
    ∷ codes ".venv"
    ∷ codes "venv"
    ∷ codes ".gradle"
    ∷ codes "coverage"
    ∷ codes ".idea"
    ∷ codes ".vscode"
    ∷ codes "bazel-bin"
    ∷ codes "bazel-out"
    ∷ codes "bazel-testlogs"
    ∷ []

abbrev secret_names : List Text
secret_names =
    codes ".env"
    ∷ codes ".npmrc"
    ∷ codes ".pypirc"
    ∷ codes ".netrc"
    ∷ codes "_netrc"
    ∷ codes ".git-credentials"
    ∷ codes ".pgpass"
    ∷ []

abbrev secret_prefixes : List Text
secret_prefixes =
    codes "id_rsa"
    ∷ codes "id_ed25519"
    ∷ codes "id_dsa"
    ∷ codes "id_ecdsa"
    ∷ codes "credentials"
    ∷ []

abbrev secret_suffixes : List Text
secret_suffixes =
    codes ".pem"
    ∷ codes ".key"
    ∷ codes ".p12"
    ∷ codes ".pfx"
    ∷ codes ".keystore"
    ∷ codes ".jks"
    ∷ codes ".ppk"
    ∷ codes ".gpg"
    ∷ []

unfoldable pub is_vendored : Text → Bool
unfolding split text_eq
is_vendored path =
    any (λ seg. any (λ v. text_eq v (to_ascii_lowercase seg)) vendor_segments) (split b'/' path)

-- `rsplit('/').find(|seg| !seg.is_empty()).unwrap_or("")`, from the segments in front.
last_filled : List Text → Text
last_filled [] = []
last_filled (seg ∷ segs) = let later = last_filled segs in if is_empty later then seg else later

is_variant : Option Text → Bool
unfolding starts_with
is_variant none = false
is_variant (some rest) = is_empty rest || starts_with rest (codes ".")

unfoldable pub is_secret_name : Text → Bool
unfolding strip_prefix is_variant starts_with ends_with
is_secret_name name =
    any (λ entry. is_variant (strip_prefix name entry)) secret_names
    || any (λ p. starts_with name p) secret_prefixes
    || any (λ suffix. ends_with name suffix) secret_suffixes

unfoldable pub is_secret_like : Text → Bool
unfolding contains split last_filled is_secret_name
is_secret_like path =
    let lower = to_ascii_lowercase path in
    contains lower (codes ".cargo/credentials")
    || contains lower (codes ".aws/credentials")
    || is_secret_name (last_filled (split b'/' lower))

unfoldable pub is_ignored : Text → Bool
unfolding is_vendored is_secret_like
is_ignored path = is_vendored path || is_secret_like path
