-- ===== src/Adapters/Glob.antt =====
-- crates/jitgen-adapters/src/glob.rs: include and exclude patterns.
-- A position in a list is the rest of the list, and `star` and `mark` are kept together. The loops
-- run on fuel.
pub mod Wanted
pub mod Decided
pub mod Order
use jitgen.Prelude.{
  Bool, List, Option, [], all, false, if◌then◌else◌, length, ltb, none, some, suc, zero, ℕ, ◌*◌,
  ◌+◌, ◌==◌, ◌||◌, ◌∷◌,
}
use jitgen.Prelude.Str.{Text, codes, len, split, text_eq}

abbrev pub max_glob_len : ℕ
max_glob_len = 512

abbrev pub max_path_len : ℕ
max_path_len = 4096

-- The pattern behind the last star, and the text it was last tried on.
abbrev pub Back : Type 0 → Type 0 → Type 0
Back P S = Option (List P × List S)

-- The rounds that are enough: each retry shortens the text, and in between each round shortens the
-- pattern.
abbrev pub rounds : {P S : Type 0} → List P → List S → ℕ
rounds p s = (length s + 1) * (length p + 1)

-- The outcome of a loop, or no outcome for want of fuel.
abbrev pub Outcome : Type 0
Outcome = Option Bool

module _ {P S : Type 0} where
  -- The last branches of both loops: back to the star with one item more, or no match.
  pub retry : (List P → List S → Back P S → Outcome) → Back P S → Outcome
  retry next none = some false
  retry next (some (sp, [])) = some false
  retry next (some (sp, x ∷ mark)) = next sp mark (some (sp, mark))

-- `while pi < pat.len() && is_star(pat[pi])`, and whether that reaches the pattern's end.
unfoldable pub only_stars : {P : Type 0} → (P → Bool) → List P → Bool
only_stars is_star p = all is_star p

module _ {P S : Type 0} (is_star : P → Bool) (accepts : P → S → Bool) where
  -- The loop of `match_segments`: a star is looked for first.
  pub star_first : ℕ → List P → List S → Back P S → Outcome
  unfolding retry only_stars
  star_first zero p s back = none
  star_first (suc fuel) p [] back = some (only_stars is_star p)
  star_first (suc fuel) [] (x ∷ s) back = retry (star_first fuel) back
  star_first (suc fuel) (q ∷ p) (x ∷ s) back =
      let star = star_first fuel p (x ∷ s) (some (p, x ∷ s)) in
      let onward = star_first fuel p s back in
      let again = retry (star_first fuel) back in
      if is_star q then star else if accepts q x then onward else again

  -- The loop of `segment_match`: an equal character is looked for first.
  pub accept_first : ℕ → List P → List S → Back P S → Outcome
  unfolding retry only_stars
  accept_first zero p s back = none
  accept_first (suc fuel) p [] back = some (only_stars is_star p)
  accept_first (suc fuel) [] (x ∷ s) back = retry (accept_first fuel) back
  accept_first (suc fuel) (q ∷ p) (x ∷ s) back =
      let star = accept_first fuel p (x ∷ s) (some (p, x ∷ s)) in
      let onward = accept_first fuel p s back in
      let again = retry (accept_first fuel) back in
      if accepts q x then onward else if is_star q then star else again

abbrev pub is_star_char : ℕ → Bool
is_star_char c = c == b'*'

abbrev pub accepts_char : ℕ → ℕ → Bool
accepts_char q c = q == b'?' || q == c

-- A loop without an outcome, which `Decided` rules out, is no match.
abbrev pub outcome_or_false : Outcome → Bool
outcome_or_false none = false
outcome_or_false (some b) = b

unfoldable pub segment_match : Text → Text → Bool
unfolding accept_first
segment_match pat seg =
    outcome_or_false (accept_first is_star_char accepts_char (rounds pat seg) pat seg none)

abbrev pub is_globstar : Text → Bool
is_globstar p = text_eq p (codes "**")

unfoldable pub match_segments : List Text → List Text → Bool
unfolding star_first segment_match
match_segments pat path =
    outcome_or_false (star_first is_globstar segment_match (rounds pat path) pat path none)

unfoldable pub glob_match : Text → Text → Bool
unfolding len split match_segments
glob_match pattern path =
    if ltb max_glob_len (len pattern) || ltb max_path_len (len path)
    then false
    else match_segments (split b'/' pattern) (split b'/' path)
