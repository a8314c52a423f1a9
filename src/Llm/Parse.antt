-- ===== src/Llm/Parse.antt =====
-- crates/jitgen-llm/src/parse.rs: the candidate source in a model response.
use jitgen.Core.Model.{TestCandidate}
use jitgen.Llm.Prefix.{char_prefix}
use jitgen.Prelude.{Bool, List, Option, [], if◌then◌else◌, none, some, ℕ, ◌*◌, ◌∷◌}
use jitgen.Prelude.Str.{Text, codes, join, lines, starts_with, trim, trim_end, trim_start}

abbrev pub max_raw_bytes : ℕ
max_raw_bytes = 256 * 1024

unfoldable pub is_fence : Text → Bool
unfolding trim_start starts_with
is_fence line = starts_with (trim_start line) (codes "```")

-- `iter().position(is_fence)`: what stands before the first fence, and what follows it.
unfoldable pub split_at_fence : List Text → List Text × Option (List Text)
unfolding is_fence
split_at_fence [] = ([], none)
split_at_fence (l ∷ ls) =
    let (before, after) = split_at_fence ls in
    if is_fence l then ([], some ls) else (l ∷ before, after)

-- The body of the first fenced block: up to its closing fence, or to the end.
fenced_body : Option (List Text) → Text → Text
unfolding trim trim_end join
fenced_body none raw = trim raw
fenced_body (some rest) raw = trim_end (join (codes "\n") (split_at_fence rest).0)

unfoldable pub extract_code : Text → Text
unfolding char_prefix lines split_at_fence fenced_body
extract_code raw =
    let capped = char_prefix raw max_raw_bytes in
    fenced_body (split_at_fence (lines capped)).1 capped

unfoldable pub parse_candidate : Text → Text → Text → ℕ → TestCandidate
parse_candidate raw target rel_path attempt = record {
  target = target;
  rel_path = rel_path;
  source = extract_code raw;
  test_name = none;
  attempt = attempt;
}
