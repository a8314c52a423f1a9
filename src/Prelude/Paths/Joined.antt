-- ===== src/Prelude/Paths/Joined.antt =====
-- The components of a path after a `push`.
use jitgen.Prelude.{
  ==_iff, All, All-append, All-map, List, [], any, ap, append-nil, append_assoc, arith, false,
  if_cases, is_empty, map, not, refl, subst, sym, true, ◌&&◌, ◌++◌, ◌==◌, ◌||◌, ◌∙◌, ◌∷◌, ◌≡◌,
}
use jitgen.Prelude.Paths.{
  Component, component_of, components, ends_in_slash, first_is_dot, is_absolute, is_normal, leading,
  normal, path_components, push,
}
use jitgen.Prelude.Split.{All-filter, filter-append, split-append, split-free, split-pieces}
use jitgen.Prelude.Str.{Text, codes, split, text_eq}

-- A component name: not empty, not `.`, and without a separator.
pub record Named (s : Text) : Type 0 where
  pub filled : is_empty s ≡ false
  pub not_dot : text_eq s (codes ".") ≡ false
  pub one_piece : any (λ c. c == b'/') s ≡ false

components-slash : (a b : Text) → components (a ++ b'/' ∷ b) ≡ components a ++ components b
unfolding components
components-slash a b = rw (split-append b'/' a b) (filter-append _ (split b'/' a) (split b'/' b))

components-Named : (s : Text) → Named s → components s ≡ s ∷ []
unfolding components
components-Named s n = rw (split-free b'/' s n.one_piece, n.filled, n.not_dot)

-- A text that ends in a slash, without it.
ends_in_slash-parts :
    (s : Text) → ends_in_slash s ≡ true → (front : Text) × (s ≡ front ++ b'/' ∷ [])
unfolding ends_in_slash
ends_in_slash-parts [] h = ground arith
ends_in_slash-parts (c ∷ []) h = ([], ap (λ d. d ∷ []) ((==_iff c b'/').0 h))
ends_in_slash-parts (c ∷ d ∷ s) h =
    let (front, e) = ends_in_slash-parts (d ∷ s) h in (c ∷ front, ap (λ t. c ∷ t) e)

components-last_slash : (front : Text) → components (front ++ b'/' ∷ []) ≡ components front
unfolding components split text_eq
components-last_slash front = components-slash front [] ∙ append-nil (components front)

components-behind_slash :
    (path s : Text)
    → ends_in_slash path ≡ true
    → components (path ++ s) ≡ components path ++ components s
components-behind_slash path s h =
    let (front, e) = ends_in_slash-parts path h in
    subst (λ p. components (p ++ s) ≡ components p ++ components s) (sym e)
      (ap components (append_assoc front (b'/' ∷ []) s)
        ∙ components-slash front s
        ∙ ap (λ cs. cs ++ components s) (sym (components-last_slash front)))

is_absolute-append : (path s : Text) → is_absolute path ≡ true → is_absolute (path ++ s) ≡ true
unfolding is_absolute
is_absolute-append [] s h = ground arith
is_absolute-append (c ∷ path) s h = h

absolute-filled : (path : Text) → is_absolute path ≡ true → is_empty path ≡ false
unfolding is_absolute
absolute-filled [] h = ground arith
absolute-filled (c ∷ path) h = refl

Named-relative : (s : Text) → Named s → is_absolute s ≡ false
unfolding is_absolute
Named-relative [] n = refl
Named-relative (c ∷ s) n = let one = n.one_piece in ground arith

-- Pushed onto an absolute path, a name becomes its last component.
pub components-push :
    (path s : Text)
    → is_absolute path ≡ true
    → Named s
    → (is_absolute (push path s) ≡ true) × (components (push path s) ≡ components path ++ s ∷ [])
unfolding push
components-push path s h n =
    let Pushed : Text → Type 0 =
      λ p. (is_absolute p ≡ true) × (components p ≡ components path ++ s ∷ []) in
    if_cases Pushed (is_absolute s) _ _ (λ e. let r = Named-relative s n in ground arith)
      λ e.
        if_cases Pushed (is_empty path || ends_in_slash path) _ _
          (λ t. (
            is_absolute-append path s h,
            components-behind_slash path s (let f = absolute-filled path h in ground arith)
                ∙ ap (λ cs. components path ++ cs) (components-Named s n),
          ))
          λ t. (
            is_absolute-append path (b'/' ∷ s) h,
            components-slash path s ∙ ap (λ cs. components path ++ cs) (components-Named s n),
          )

-- What a component of a path is called is `Named`.
abbrev pub NamedComponent : Component → Type 0
NamedComponent (normal s) = Named s
NamedComponent other = Unit

component_of-Named : (s : Text) → Named s → NamedComponent (component_of s)
unfolding component_of
component_of-Named s n = if_cases NamedComponent (is_normal s) _ _ (λ e. n) λ e. tt

map-Named : (cs : List Text) → All Named cs → All NamedComponent (map component_of cs)
map-Named [] h = tt
map-Named (c ∷ cs) h = (component_of-Named c h.0, map-Named cs h.1)

components-AllNamed : (path : Text) → All Named (components path)
unfolding components
components-AllNamed path =
    All-map
      (λ c.
        (any (λ d. d == b'/') c ≡ false)
        × ((not (is_empty c) && not (text_eq c (codes "."))) ≡ true))
      (λ c h. record { filled = ground arith; not_dot = ground arith; one_piece = h.0 }) _
      (All-filter _ _ (split b'/' path) (split-pieces b'/' path))

leading-Named : (path : Text) → All NamedComponent (leading path)
unfolding leading
leading-Named path =
    if_cases (All NamedComponent) (is_absolute path) _ _ (λ e. (tt, tt))
      λ e.
        if_cases (All NamedComponent) (first_is_dot (split b'/' path)) _ _ (λ d. (tt, tt)) λ d. tt

pub path_components-Named : (path : Text) → All NamedComponent (path_components path)
unfolding path_components
path_components-Named path =
    All-append NamedComponent (leading path) _ (leading-Named path)
      (map-Named (components path) (components-AllNamed path))
