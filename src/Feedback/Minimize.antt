-- ===== src/Feedback/Minimize.antt =====
-- crates/jitgen-feedback/src/minimize.rs: drop lines of a test while it stays interesting.
pub mod Sound
use jitgen.Core.Model.{TestCandidate}
use jitgen.Prelude.{
  Bool, List, Option, [], drop, false, if◌then◌else◌, none, some, suc, take, true, zero, ℕ, ◌++◌,
  ◌∷◌,
}
use jitgen.Prelude.Effect.{Exec, pure, ◌>>=◌}
use jitgen.Prelude.Str.{Text, codes, join, lines}

with_source : TestCandidate → Text → TestCandidate
with_source candidate source = record candidate { source = source }

-- Where the loops stand: the lines in front of the one that is tried, that line and those behind it, and
-- whether this pass has changed something.
pub record Trial : Type 0 where
  pub front : List Text
  pub rest : List Text
  pub changed : Bool

-- The trial of the next line: of this pass or, where the pass changed something, of the next one.
next_trial : List Text → List Text → Bool → Option Trial
next_trial front (l ∷ rest) changed =
    some (record { front = front; rest = l ∷ rest; changed = changed })
next_trial [] [] changed = none
next_trial (l ∷ ls) [] true = some (record { front = []; rest = l ∷ ls; changed = false })
next_trial (l ∷ ls) [] false = none

module _ {W E : Type 0} (still_interesting : TestCandidate → Exec W E Bool)
    (candidate : TestCandidate) where
  without : List Text → List Text → TestCandidate
  unfolding with_source join
  without front rest = with_source candidate (join (codes "\n") (front ++ rest))

  finish : Bool → List Text → List Text → TestCandidate
  unfolding without
  finish any_removed front rest = if any_removed then without front rest else candidate

  -- One probe, with the loop that goes on when the line is dropped and when it is kept.
  probe :
      Option Trial
      → TestCandidate
      → (List Text → List Text → Bool → Bool → Exec W E TestCandidate)
      → Bool
      → Exec W E TestCandidate
  unfolding without
  probe none ended go_on any_removed = pure ended
  probe (some t) ended go_on any_removed =
      still_interesting (without t.front (drop 1 t.rest)) >>= λ keep.
      if keep
      then go_on t.front (drop 1 t.rest) true true
      else go_on (t.front ++ take 1 t.rest) (drop 1 t.rest) t.changed any_removed

  -- Both loops, with `left` probes left; the remaining lines are `front ++ rest`.
  reduce :
      (left : ℕ) → (front rest : List Text) → (changed any_removed : Bool) → Exec W E TestCandidate
  unfolding next_trial finish probe
  reduce zero front rest changed any_removed = pure (finish any_removed front rest)
  reduce (suc left) front rest changed any_removed =
      probe (next_trial front rest changed) (finish any_removed front rest) (reduce left)
        any_removed

  unfoldable pub minimize : ℕ → Exec W E TestCandidate
  unfolding reduce lines
  minimize max_probes = reduce max_probes [] (lines candidate.source) false false
