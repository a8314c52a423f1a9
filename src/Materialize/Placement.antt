-- ===== src/Materialize/Placement.antt =====
-- crates/jitgen-materialize/src/placement.rs: the conventional path of a generated test.
-- `std::path` is that of Unix: `/` separates, and empty and `.` components vanish.
pub mod Fragment
use jitgen.Core.Change.{Target}
use jitgen.Prelude.{
  Bool, List, Option, [], any, false, filter, if◌then◌else◌, is_empty, leb, length, none, some, suc,
  true, zero, ℕ, ◌&&◌, ◌++◌, ◌==◌, ◌∷◌,
}
use jitgen.Prelude.Paths.{components, is_normal}
use jitgen.Prelude.Str.{
  Text, codes, is_ascii_alphanumeric, join, text_eq, to_ascii_lowercase, upper_char,
}
use jitgen.State.Model.{skipped}

abbrev max_fragment : ℕ
max_fragment = 64

-- The loop of `sanitize_fragment`, with `room` characters still free; all it pushes is ASCII.
fragment_from : (room : ℕ) → (last_us : Bool) → Text → Text
unfolding is_ascii_alphanumeric
fragment_from zero last_us s = []
fragment_from (suc room) last_us [] = []
fragment_from (suc room) last_us (ch ∷ s) =
    let skipped = fragment_from (suc room) true s in
    let spaced = b'_' ∷ fragment_from room true s in
    let kept = ch ∷ fragment_from room false s in
    if is_ascii_alphanumeric ch then kept else if last_us then skipped else spaced

trim_start_of : ℕ → Text → Text
trim_start_of c [] = []
trim_start_of c (d ∷ s) = let rest = trim_start_of c s in if d == c then rest else d ∷ s

trim_end_of : ℕ → Text → Text
trim_end_of c [] = []
trim_end_of c (d ∷ s) =
    let rest = trim_end_of c s in if d == c && is_empty rest then [] else d ∷ rest

-- `trim_matches`.
trim_matches : ℕ → Text → Text
unfolding trim_start_of trim_end_of
trim_matches c s = trim_end_of c (trim_start_of c s)

unit_if_empty : Text → Text
unit_if_empty [] = codes "unit"
unit_if_empty (c ∷ s) = c ∷ s

unfoldable pub sanitize_fragment : Text → Text
unfolding fragment_from trim_matches unit_if_empty
sanitize_fragment s = unit_if_empty (trim_matches b'_' (fragment_from max_fragment false s))

capitalize : Text → Text
unfolding upper_char
capitalize [] = []
capitalize (c ∷ s) = upper_char c ∷ s

unfoldable pub init_of : List Text → List Text
init_of [] = []
init_of (c ∷ []) = []
init_of (c ∷ d ∷ cs) = c ∷ init_of (d ∷ cs)

last_of : List Text → Option Text
last_of [] = none
last_of (c ∷ []) = some c
last_of (c ∷ d ∷ cs) = last_of (d ∷ cs)

unfoldable pub dir_of : Text → Text
unfolding components init_of is_normal join
dir_of path = join (codes "/") (filter is_normal (init_of (components path)))

-- `Path::file_name`: the last component, unless it is `..`.
file_name : Text → Option Text
unfolding last_of components is_normal
file_name path = elim (last_of (components path)) [
  | none ↦ none
  | some c ↦ if is_normal c then some c else none
]

-- A name up to its last dot, and behind it, where a dot is there and not in front.
split_at_dot : Text → Option (Text × Text)
split_at_dot [] = none
split_at_dot (c ∷ s) = behind c s (split_at_dot s)
  where
    behind : ℕ → Text → Option (Text × Text) → Option (Text × Text)
    behind c s (some (before, after)) = some (c ∷ before, after)
    behind c s none = if c == b'.' then some ([], s) else none

file_stem : Option Text → Text
unfolding split_at_dot
file_stem none = []
file_stem (some name) = of_split (split_at_dot name)
  where
    of_split : Option (Text × Text) → Text
    of_split none = name
    of_split (some ([], after)) = name
    of_split (some (c ∷ before, after)) = c ∷ before

extension : Option Text → Text
unfolding split_at_dot
extension none = []
extension (some name) = of_split (split_at_dot name)
  where
    of_split : Option (Text × Text) → Text
    of_split none = []
    of_split (some ([], after)) = []
    of_split (some (c ∷ before, after)) = after

stem_of : Text → Text
unfolding file_name file_stem
stem_of path = sanitize_fragment (file_stem (file_name path))

abbrev kept_extensions : List Text
kept_extensions =
    codes "tsx"
    ∷ codes "js"
    ∷ codes "jsx"
    ∷ codes "mjs"
    ∷ codes "cjs"
    ∷ codes "mts"
    ∷ codes "cts"
    ∷ []

ts_test_ext : Text → Text
unfolding file_name extension text_eq
ts_test_ext path =
    let ext = to_ascii_lowercase (extension (file_name path)) in
    if any (text_eq ext) kept_extensions then ext else codes "ts"

-- The components from `src/main/java` on, with `main` as `test`, the last one dropped.
mirror : Text → List Text → List Text → Option (List Text)
unfolding text_eq
mirror file front [] = none
mirror file front (a ∷ []) = none
mirror file front (a ∷ b ∷ []) = none
mirror file front (a ∷ b ∷ c ∷ rest) =
    let later = mirror file (front ++ a ∷ []) (b ∷ c ∷ rest) in
    if text_eq a (codes "src") && text_eq b (codes "main") && text_eq c (codes "java")
    then some (front ++ codes "src" ∷ codes "test" ∷ codes "java" ∷ init_of rest ++ file ∷ [])
    else later

java_test_path : Text → Text → Text → Text
unfolding capitalize components is_normal mirror join
java_test_path src_path stem id =
    let file = capitalize stem ++ codes "Jitgen" ++ capitalize id ++ codes "Test.java" in
    let comps = filter is_normal (components src_path) in
    let flat = codes "src/test/java/" ++ file in
    if leb 4 (length comps)
    then elim (mirror file [] comps) [ none ↦ flat | some out ↦ join (codes "/") out ]
    else flat

-- The closure `with_dir`.
with_dir : Text → Text → Text
with_dir dir name = if is_empty dir then name else dir ++ codes "/" ++ name

unfoldable pub test_path : {F : Type 0} → Target F → Text → Text
unfolding stem_of dir_of java_test_path with_dir ts_test_ext text_eq
test_path target adapter_id =
    let stem = stem_of target.path in
    let id = sanitize_fragment target.id in
    let dir = dir_of target.path in
    if text_eq adapter_id (codes "rust")
    then codes "tests/jitgen_" ++ stem ++ codes "_" ++ id ++ codes ".rs"
    else if text_eq adapter_id (codes "python")
    then with_dir dir (codes "test_" ++ stem ++ codes "_jitgen_" ++ id ++ codes ".py")
    else if text_eq adapter_id (codes "java")
    then java_test_path target.path stem id
    else if text_eq adapter_id (codes "typescript")
    then with_dir dir (stem ++ codes ".jitgen." ++ id ++ codes ".test." ++ ts_test_ext target.path)
    else codes "jitgen-tests/" ++ stem ++ codes "_" ++ id ++ codes ".test.txt"
