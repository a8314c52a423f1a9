-- ===== src/Orchestrator/Select.antt =====
-- crates/jitgen-orchestrator/src/targetsel.rs: the ranking of targets and their cap.
-- A `u32` is a number; the target's lines are within it.
pub mod Ranked
use jitgen.Context.Packager.{add}
use jitgen.Core.Change.{Target}
use jitgen.Core.Model.{SymbolKind, class, function, hunk, method, module_kind}
use jitgen.Orchestrator.Process.{RankedTarget}
use jitgen.Prelude.{
  Bool, List, Option, [], false, if◌then◌else◌, map, none, some, take, true, ℕ, ◌++◌, ◌+◌, ◌-◌, ◌∷◌,
}
use jitgen.Prelude.Float.{Float}
use jitgen.Prelude.Str.{Text, codes, show_nat}
use jitgen.Prelude.TextMap.{text_lt}

-- The operations and literals of `f64` that only the score uses.
pub record Scoring (F : Type 0) : Type 0 where
  pub add : F → F → F
  pub div : F → F → F
  pub of_nat : ℕ → F
  pub point_one_five : F
  pub point_three_five : F
  pub point_seven : F
  pub point_nine : F
  pub fifty : F

-- `{:?}` of a `SymbolKind`.
kind_debug : SymbolKind → Text
kind_debug function = codes "Function"
kind_debug method = codes "Method"
kind_debug class = codes "Class"
kind_debug module_kind = codes "Module"
kind_debug hunk = codes "Hunk"

-- The comparison of two texts, with that which breaks ties.
unfoldable pub text_greater : Text → Text → Bool → Bool
unfolding text_lt
text_greater a b later = if text_lt b a then true else if text_lt a b then false else later

module _ {F : Type 0} (f : Float F) (s : Scoring F) where
  unfoldable pub kind_weight : SymbolKind → F
  kind_weight function = f.one
  kind_weight method = f.one
  kind_weight class = s.point_nine
  kind_weight module_kind = s.point_seven
  kind_weight hunk = f.point_six

  unfoldable pub span_lines : Target F → ℕ
  span_lines t = t.span.end - t.span.start + 1

  symbol_or_hunk : Option Text → Text
  symbol_or_hunk none = codes "(hunk)"
  symbol_or_hunk (some name) = name

  unfoldable pub size_factor : Target F → F
  unfolding span_lines
  size_factor t = f.min (s.div (s.of_nat (span_lines t)) s.fifty) f.one

  unfoldable pub score_of : Target F → F
  unfolding kind_weight size_factor
  score_of t =
      f.clamp
        (s.add (s.add (f.mul f.point_five t.risk) (f.mul s.point_three_five (kind_weight t.kind)))
          (f.mul s.point_one_five (size_factor t)))
        f.zero f.one

  unfoldable pub rank_one : Target F → RankedTarget F
  unfolding score_of kind_debug kind_weight span_lines size_factor symbol_or_hunk show_nat
  rank_one t = record {
    target = t;
    score = score_of t;
    rationale =
        codes "score="
        ++ f.fixed2 (score_of t)
        ++ codes " = 0.50*adapter_risk("
        ++ f.fixed2 t.risk
        ++ codes ") + 0.35*kind("
        ++ kind_debug t.kind
        ++ codes "="
        ++ f.fixed2 (kind_weight t.kind)
        ++ codes ") + 0.15*size("
        ++ show_nat (span_lines t)
        ++ codes "ln="
        ++ f.fixed2 (size_factor t)
        ++ codes "); symbol="
        ++ symbol_or_hunk t.symbol
        ++ codes "; path="
        ++ t.path;
  }

  -- Whether the comparison of the sort is `Greater`: by descending score, then path, then id.
  unfoldable pub comes_after : RankedTarget F → RankedTarget F → Bool
  unfolding text_greater
  comes_after a b =
      if f.lt b.score a.score
      then false
      else if f.lt a.score b.score
      then true
      else text_greater a.target.path b.target.path (text_greater a.target.id b.target.id false)

  -- `sort_by` is stable: an element goes in front of the first that it does not come after.
  unfoldable pub insert_ranked : RankedTarget F → List (RankedTarget F) → List (RankedTarget F)
  unfolding comes_after
  insert_ranked x [] = x ∷ []
  insert_ranked x (y ∷ ys) =
      let later = insert_ranked x ys in if comes_after x y then y ∷ later else x ∷ y ∷ ys

  unfoldable pub sort_ranked : List (RankedTarget F) → List (RankedTarget F)
  unfolding insert_ranked
  sort_ranked [] = []
  sort_ranked (x ∷ xs) = insert_ranked x (sort_ranked xs)

  unfoldable pub select : List (Target F) → ℕ → List (RankedTarget F)
  unfolding rank_one sort_ranked
  select targets max_tests = take max_tests (sort_ranked (map rank_one targets))
