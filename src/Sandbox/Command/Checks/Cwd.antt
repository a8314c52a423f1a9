-- ===== src/Sandbox/Command/Checks/Cwd.antt =====
-- The working directory of a plan lies in the overlay.
use jitgen.Prelude.{
  All, List, [], any, ap, append-nil, append_assoc, arith, if_cases, not, subst, sym, true, ◌++◌,
  ◌==◌, ◌∙◌, ◌∷◌, ◌≡◌,
}
use jitgen.Prelude.Paths.{
  Component, components, cur_dir, is_absolute, normal, parent_dir, path_components, push, root_dir,
}
use jitgen.Prelude.Paths.Joined.{NamedComponent, components-push, path_components-Named}
use jitgen.Prelude.Result.{Result, ok, ok_inj}
use jitgen.Prelude.Str.{Text}
use jitgen.Sandbox.Command.{push_components, validated_cwd}
use jitgen.Sandbox.Policy.{SandboxError}

-- The plain names among components.
abbrev pub names_of : List Component → List Text
names_of [] = []
names_of (normal s ∷ cs) = s ∷ names_of cs
names_of (other ∷ cs) = names_of cs

-- Only plain names and `.`.
abbrev pub Inward : Component → Type 0
Inward (normal s) = Unit
Inward cur_dir = Unit
Inward other = ⊥

-- The components of `cwd` are those of the root, then plain names of the request.
pub record Confined (root cwd_rel cwd : Text) : Type 0 where
  pub rooted : is_absolute cwd ≡ true
  pub below : components cwd ≡ components root ++ names_of (path_components cwd_rel)
  pub inward : All Inward (path_components cwd_rel)

push_components-ok :
    (rel path cwd : Text) (cs : List Component)
    → All NamedComponent cs
    → is_absolute path ≡ true
    → push_components rel path cs ≡ ok cwd
    → (is_absolute cwd ≡ true) × (components cwd ≡ components path ++ names_of cs) × All Inward cs
unfolding push_components
push_components-ok rel path cwd [] n a h =
    let same = ok_inj path cwd h in
    (
      subst (λ p. is_absolute p ≡ true) same a,
      ap components (sym same) ∙ sym (append-nil (components path)),
      tt,
    )
push_components-ok rel path cwd (normal s ∷ cs) n a h =
    let (a2, below) = components-push path s a n.0 in
    let (abs, all_names, inward) = push_components-ok rel (push path s) cwd cs n.1 a2 h in
    (
      abs,
      all_names
          ∙ ap (λ l. l ++ names_of cs) below
          ∙ append_assoc (components path) (s ∷ []) (names_of cs),
      (tt, inward),
    )
push_components-ok rel path cwd (cur_dir ∷ cs) n a h =
    let (abs, all_names, inward) = push_components-ok rel path cwd cs n.1 a h in
    (abs, all_names, (tt, inward))
push_components-ok rel path cwd (root_dir ∷ cs) n a h = ground arith
push_components-ok rel path cwd (parent_dir ∷ cs) n a h = ground arith

-- A working directory that is validated lies in the overlay: its components are those of the
-- absolute overlay root followed by plain names, and the request holds no `..` and no root.
pub validated_cwd-Confined :
    (root rel cwd : Text) → validated_cwd root rel ≡ ok cwd → Confined root rel cwd
unfolding validated_cwd
validated_cwd-Confined root rel cwd h =
    if_cases (λ (r : Result SandboxError Text). r ≡ ok cwd → Confined root rel cwd)
      (not (is_absolute root)) _ _ (λ e k. ground arith)
      (λ e.
        if_cases (λ (r : Result SandboxError Text). r ≡ ok cwd → Confined root rel cwd)
          (any (λ c. c == 92) rel) _ _ (λ d k. ground arith)
          λ d k.
            let (abs, below, inward) =
              push_components-ok rel root cwd (path_components rel) (path_components-Named rel)
                (ground arith) k in
            record { rooted = abs; below = below; inward = inward })
      h
