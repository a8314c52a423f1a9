-- ===== src/Sandbox/Which.antt =====
-- crates/jitgen-sandbox/src/which.rs: launchers are taken from fixed system directories only.
use jitgen.Prelude.{
  Any, Bool, List, Option, [], all, and_split, any, arith, drop, false, if_cases, if◌then◌else◌,
  inl, inr, is_empty, none, not, some, some_inj, subst, sym, true, ◌&&◌, ◌==◌, ◌∷◌, ◌≡◌, ◌⊎◌,
}
use jitgen.Prelude.Paths.{
  Component, is_absolute, is_prefix, normal, path_components, push, root_dir,
}
use jitgen.Prelude.Str.{Text, codes, split, text_eq}

unfoldable pub trusted_bin_dirs : List Text
trusted_bin_dirs =
    codes "/usr/bin"
    ∷ codes "/bin"
    ∷ codes "/usr/sbin"
    ∷ codes "/sbin"
    ∷ codes "/usr/local/bin"
    ∷ codes "/opt/homebrew/bin"
    ∷ []

unfoldable pub has_only_normal_components : Text → Bool
unfolding path_components
has_only_normal_components p = all root_or_normal (path_components p)
  where
    root_or_normal : Component → Bool
    root_or_normal root_dir = true
    root_or_normal (normal s) = true
    root_or_normal other = false

has_no_curdir_or_empty_segments : Text → Bool
unfolding split text_eq
has_no_curdir_or_empty_segments program =
    all (λ s. not (is_empty s) && not (text_eq s (codes "."))) (drop 1 (split b'/' program))

in_front : Component → Option (List Component) → Option (List Component)
in_front c none = none
in_front c (some rest) = some (c ∷ rest)

-- `Path::parent`, by components: nothing for the root and for the empty path.
parent_of : List Component → Option (List Component)
unfolding in_front
parent_of [] = none
parent_of (root_dir ∷ []) = none
parent_of (c ∷ []) = some []
parent_of (c ∷ d ∷ cs) = in_front c (parent_of (d ∷ cs))

same_path : List Component → List Component → Bool
unfolding is_prefix
same_path a b = is_prefix a b && is_prefix b a

unfoldable pub parent_is_trusted_dir : Text → Bool
unfolding path_components parent_of same_path trusted_bin_dirs
parent_is_trusted_dir p = elim (parent_of (path_components p)) [
  | none ↦ false
  | some parent ↦ any (λ d. same_path (path_components d) parent) trusted_bin_dirs
]

find_in : (Text → Bool) → Text → List Text → Option Text
unfolding push
find_in executable program [] = none
find_in executable program (dir ∷ dirs) =
    let later = find_in executable program dirs in
    if executable (push dir program) then some (push dir program) else later

literal_path : Text → Bool
unfolding is_absolute has_no_curdir_or_empty_segments has_only_normal_components
    parent_is_trusted_dir
literal_path program =
    is_absolute program
    && has_no_curdir_or_empty_segments program
    && has_only_normal_components program
    && parent_is_trusted_dir program

-- `is_executable_file` is the argument `executable`.
unfoldable pub resolve_trusted : (Text → Bool) → Text → Option Text
unfolding literal_path find_in trusted_bin_dirs
resolve_trusted executable program =
    if any (λ c. c == b'/') program
    then (if literal_path program && executable program then some program else none)
    else find_in executable program trusted_bin_dirs

-- Where a launcher may lie: directly in a trusted directory.
abbrev pub InTrustedDir : Text → Text → Type 0
InTrustedDir program p =
    Any (λ dir. p ≡ push dir program) trusted_bin_dirs
    ⊎ ((p ≡ program)
        × (parent_is_trusted_dir program ≡ true)
        × (has_only_normal_components program ≡ true))

find_in-Any :
    (executable : Text → Bool) (program p : Text) (dirs : List Text)
    → find_in executable program dirs ≡ some p
    → (executable p ≡ true) × Any (λ dir. p ≡ push dir program) dirs
unfolding find_in
find_in-Any executable program p [] h = ground arith
find_in-Any executable program p (dir ∷ dirs) h =
    if_cases
      (λ (o : Option Text).
        o ≡ some p → (executable p ≡ true) × Any (λ d. p ≡ push d program) (dir ∷ dirs))
      (executable (push dir program)) _ _
      (λ e k.
        let same = some_inj (push dir program) p k in
        (subst (λ q. executable q ≡ true) same e, inl (sym same)))
      (λ e k. let (x, found) = find_in-Any executable program p dirs k in (x, inr found)) h

literal_path-parts :
    (program : Text)
    → literal_path program ≡ true
    → (parent_is_trusted_dir program ≡ true) × (has_only_normal_components program ≡ true)
unfolding literal_path
literal_path-parts program h =
    let segments = has_no_curdir_or_empty_segments program in
    let normals = has_only_normal_components program in
    let trusted = parent_is_trusted_dir program in
    let (front, parent) = and_split (is_absolute program && segments && normals) trusted h in
    let (before, only_normal) = and_split (is_absolute program && segments) normals front in
    (parent, only_normal)

-- A resolved launcher is executable and lies directly in one of the trusted directories: for a bare
-- name it is that name below one of them, and any other program resolves only to itself, with a
-- trusted directory as parent and no `..`. The search path is no argument at all.
pub resolve_trusted-InTrustedDir :
    (executable : Text → Bool) (program p : Text)
    → resolve_trusted executable program ≡ some p
    → (executable p ≡ true) × InTrustedDir program p
unfolding resolve_trusted
resolve_trusted-InTrustedDir executable program p h =
    if_cases (λ (o : Option Text). o ≡ some p → (executable p ≡ true) × InTrustedDir program p)
      (any (λ c. c == b'/') program) _ _
      (λ e.
        if_cases (λ (o : Option Text). o ≡ some p → (executable p ≡ true) × InTrustedDir program p)
          (literal_path program && executable program) _ _
          (λ t k.
            let same = some_inj program p k in
            let (literal, e) = and_split (literal_path program) (executable program) t in
            let (parent, only_normal) = literal_path-parts program literal in
            (subst (λ q. executable q ≡ true) same e, inr (sym same, parent, only_normal)))
          (λ t k. ground arith))
      (λ e k.
        let (x, found) = find_in-Any executable program p trusted_bin_dirs k in (x, inl found))
      h
