-- ===== src/Core/Change.antt =====
-- crates/jitgen-core/src/{change,target}.rs: line ranges, risk scores and targets.
-- A `u32` is a number, and a score a member of the float parameter.
use jitgen.Core.Model.{SymbolKind}
use jitgen.Prelude.{
  Bool, List, Option, arith, if◌then◌else◌, leb, ltb, true, ℕ, ◌&&◌, ◌==◌, ◌||◌, ◌↔◌, ◌≡◌, ◌≤◌,
}
use jitgen.Prelude.Float.{Float}
use jitgen.Prelude.Result.{Result, err, ok}
use jitgen.Prelude.Str.{Text, codes}

pub record LineRange : Type 0 where
  pub start : ℕ
  pub end : ℕ

pub data CoreError : Type 0 where
  invalid_value : Text → CoreError

-- `LineRange::new`.
unfoldable pub new_range : ℕ → ℕ → Result CoreError LineRange
new_range start end =
    if start == 0 || ltb end start
    then err (invalid_value (codes "LineRange"))
    else ok (record { start = start; end = end })

-- `LineRange::contains`.
unfoldable pub range_contains : LineRange → ℕ → Bool
range_contains r line = leb r.start line && leb line r.end

-- A range that `new` makes from `start` and `end` contains exactly the lines from `start` to
-- `end`.
pub new_range-contains :
    (start end : ℕ) (r : LineRange)
    → new_range start end ≡ ok r
    → (line : ℕ) → (range_contains r line ≡ true) ↔ ((start ≤ line) × (line ≤ end))
unfolding new_range range_contains
new_range-contains start end r e line = ground arith

-- `RiskScore::new`; `!is_nan` and the range test are the comparisons with 0 and 1.
unfoldable pub new_risk : {F : Type 0} → Float F → F → Result CoreError F
new_risk f v =
    if f.le f.zero v && f.le v f.one then ok v else err (invalid_value (codes "RiskScore"))

pub record Target (F : Type 0) : Type 0 where
  pub id : Text
  pub adapter : Text
  pub path : Text
  pub symbol : Option Text
  pub kind : SymbolKind
  pub span : LineRange
  pub risk : F

pub data ChangeKind : Type 0 where
  added_file modified_file deleted_file renamed_file : ChangeKind

pub record FileChange : Type 0 where
  pub path : Text
  pub old_path : Option Text
  pub kind : ChangeKind
  pub hunks : List LineRange

pub record ChangeSet : Type 0 where
  pub base : Text
  pub head : Text
  pub files : List FileChange
