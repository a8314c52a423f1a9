-- ===== src/Sandbox/Sbpl.antt =====
-- crates/jitgen-sandbox/src/sbpl.rs: the profile of macOS `sandbox-exec`.
-- Paths are texts, so `display` and `to_string_lossy` give the path itself.
use jitgen.Prelude.{
  Bool, Bool-cases, Option, [], ap, append_assoc, arith, false, if◌then◌else◌, inl, inr, none, refl,
  some, true, ℕ, ◌++◌, ◌==◌, ◌||◌, ◌∷◌, ◌≡◌,
}
use jitgen.Prelude.Paths.{is_absolute}
use jitgen.Prelude.Result.{Result, err, ok, ◌>>=◌}
use jitgen.Prelude.Str.{Text, codes}
use jitgen.Sandbox.Policy.{SandboxError, non_absolute_path}

abbrev pub quote : ℕ
quote = 34

abbrev pub backslash : ℕ
backslash = 92

absolute : Text → Result SandboxError Text
unfolding is_absolute
absolute p = if is_absolute p then ok p else err (non_absolute_path p)

-- The loop of `sbpl_string`.
escape_quoted : Text → Text
escape_quoted [] = []
escape_quoted (c ∷ s) =
    let rest = escape_quoted s in
    if c == backslash || c == quote then backslash ∷ c ∷ rest else c ∷ rest

unfoldable pub sbpl_string : Text → Text
unfolding escape_quoted
sbpl_string s = quote ∷ escape_quoted s ++ quote ∷ []

newline : Text
newline = 10 ∷ []

profile_text : Text → Text → Text
unfolding sbpl_string newline
profile_text overlay tmp =
    codes "(version 1)"
    ++ newline
    ++ codes "(deny default)"
    ++ newline
    ++ codes "(allow process-fork)"
    ++ newline
    ++ codes "(allow process-exec)"
    ++ newline
    ++ codes "(allow signal (target self))"
    ++ newline
    ++ codes "(allow sysctl-read)"
    ++ newline
    ++ codes "(allow mach-lookup)"
    ++ newline
    ++ codes "(allow file-read*)"
    ++ newline
    ++ codes "(allow file-write*"
    ++ newline
    ++ codes "  (subpath "
    ++ sbpl_string overlay
    ++ codes ")"
    ++ newline
    ++ codes "  (subpath "
    ++ sbpl_string tmp
    ++ codes "))"
    ++ newline
    ++ codes "(deny network*)"
    ++ newline

unfoldable pub render_profile : Text → Text → Result SandboxError Text
unfolding absolute profile_text
render_profile overlay tmp = do
  overlay ← absolute overlay
  tmp ← absolute tmp
  ok (profile_text overlay tmp)

prepend : ℕ → Option (Text × Text) → Option (Text × Text)
prepend c none = none
prepend c (some (body, rest)) = some (c ∷ body, rest)

-- How the body of a quoted literal is read: up to a quote that no backslash escapes, and the rest.
unfoldable pub read_quoted : (escaped : Bool) → Text → Option (Text × Text)
unfolding prepend
read_quoted escaped [] = none
read_quoted true (c ∷ s) = prepend c (read_quoted false s)
read_quoted false (c ∷ s) =
    let escape = read_quoted true s in
    let plain = prepend c (read_quoted false s) in
    if c == quote then some ([], s) else if c == backslash then escape else plain

read-escape : (s rest : Text) → read_quoted false (escape_quoted s ++ quote ∷ rest) ≡ some (s, rest)
unfolding escape_quoted read_quoted prepend
read-escape [] rest = refl
read-escape (c ∷ s) rest = elim (Bool-cases (c == backslash || c == quote)) [
  | inl e ↦ rw (e, read-escape s rest)
  | inr e ↦
      let not_quote : (c == quote) ≡ false = ground arith in
      let not_backslash : (c == backslash) ≡ false = ground arith in
      rw (e, not_quote, not_backslash, read-escape s rest)
]

-- Behind its opening quote, the quoted form of a path is read up to its closing quote as the path
-- itself, whatever quotes and backslashes the path holds and whatever text follows.
pub sbpl_string-read :
    (s rest : Text)
    → (body : Text) × (sbpl_string s ++ rest ≡ quote ∷ body)
      × (read_quoted false body ≡ some (s, rest))
unfolding sbpl_string
sbpl_string-read s rest = (
  escape_quoted s ++ quote ∷ rest,
  ap (λ t. quote ∷ t) (append_assoc (escape_quoted s) (quote ∷ []) rest),
  read-escape s rest,
)
