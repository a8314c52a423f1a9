-- ===== src/Prelude/Paths.antt =====
-- Rust's `std::path` on Unix: `/` separates, and empty and later `.` components vanish.
-- A path is the text that `to_string_lossy` gives of it.
pub mod Joined
use jitgen.Prelude.{
  Bool, List, [], false, filter, if◌then◌else◌, is_empty, map, not, true, ◌&&◌, ◌++◌, ◌==◌, ◌||◌,
  ◌∷◌,
}
use jitgen.Prelude.Str.{Text, codes, split, text_eq}

-- The pieces that are neither empty nor `.`.
unfoldable pub components : Text → List Text
unfolding split text_eq
components path = filter (λ c. not (is_empty c) && not (text_eq c (codes "."))) (split b'/' path)

-- `Component::Normal`, among those pieces.
unfoldable pub is_normal : Text → Bool
unfolding text_eq
is_normal c = not (text_eq c (codes ".."))

pub data Component : Type 0 where
  root_dir : Component
  cur_dir : Component
  parent_dir : Component
  normal : Text → Component

unfoldable pub component_of : Text → Component
unfolding is_normal
component_of c = if is_normal c then normal c else parent_dir

unfoldable pub is_absolute : Text → Bool
is_absolute [] = false
is_absolute (c ∷ s) = c == b'/'

first_is_dot : List Text → Bool
unfolding text_eq
first_is_dot [] = false
first_is_dot (c ∷ cs) = text_eq c (codes ".")

-- What stands in front: the root, or a leading `.`.
unfoldable pub leading : Text → List Component
unfolding is_absolute first_is_dot split
leading path =
    if is_absolute path
    then root_dir ∷ []
    else if first_is_dot (split b'/' path)
    then cur_dir ∷ []
    else []

-- `Path::components`.
unfoldable pub path_components : Text → List Component
unfolding leading components component_of
path_components path = leading path ++ map component_of (components path)

unfoldable pub component_eq : Component → Component → Bool
unfolding text_eq
component_eq root_dir root_dir = true
component_eq cur_dir cur_dir = true
component_eq parent_dir parent_dir = true
component_eq (normal a) (normal b) = text_eq a b
component_eq a b = false

unfoldable pub is_prefix : List Component → List Component → Bool
unfolding component_eq
is_prefix [] cs = true
is_prefix (b ∷ bs) [] = false
is_prefix (b ∷ bs) (c ∷ cs) = component_eq c b && is_prefix bs cs

-- `Path::starts_with`.
unfoldable pub path_starts_with : Text → Text → Bool
unfolding path_components is_prefix
path_starts_with path root = is_prefix (path_components root) (path_components path)

ends_in_slash : Text → Bool
ends_in_slash [] = false
ends_in_slash (c ∷ []) = c == b'/'
ends_in_slash (c ∷ d ∷ s) = ends_in_slash (d ∷ s)

-- `PathBuf::push` of a component.
unfoldable pub push : Text → Text → Text
unfolding ends_in_slash is_absolute
push path s =
    if is_absolute s
    then s
    else if is_empty path || ends_in_slash path
    then path ++ s
    else path ++ b'/' ∷ s
