-- ===== src/Feedback/Repair/Sound.antt =====
-- The repair loop ends within its budget, runs nothing that the screen flags, and reports what it saw.
use jitgen.Core.Classify.{CatchClass, ClassifiedResult, broken}
use jitgen.Core.Model.{ExecutionResult, Mode, TestCandidate, catch, harden}
use jitgen.Feedback.Flake.Sound.{CatchSeen, SingleSeen}
use jitgen.Feedback.Host.{Host, Run, head}
use jitgen.Feedback.Repair.{
  RepairOutcome, RepairReport, accepted, exhausted, goal_reached, rejected,
}
use jitgen.Llm.Validate.{validate_candidate}
use jitgen.Prelude.{Option, false, none, some, true, ℕ, ◌<◌, ◌≡◌, ◌≤◌}

-- The static screen passed.
abbrev pub Screened : TestCandidate → Type 0
Screened c = (validate_candidate c.source).accepted ≡ true

module _ (Seen : Run → ExecutionResult → Type 0) where
  -- The class `k` was observed of `c` in a run on head, or in runs on base and head.
  abbrev pub ClassSeen : Mode → TestCandidate → CatchClass → Type 0
  ClassSeen harden c k = SingleSeen Seen c head k
  ClassSeen catch c k = CatchSeen Seen c k

  -- What each ending says of the last candidate and of its class.
  abbrev pub Ending : Mode → ℕ → RepairOutcome → TestCandidate → CatchClass → ℕ → Type 0
  Ending mode max accepted c k n =
      Screened c × ClassSeen mode c k × (goal_reached mode k ≡ true) × (n ≤ max)
  Ending mode max exhausted c k n =
      Screened c × ClassSeen mode c k × (goal_reached mode k ≡ false) × (n ≡ max)
  Ending mode max rejected c k n =
      ((validate_candidate c.source).accepted ≡ false) × (k ≡ broken) × (n ≡ max)

  pub record Repaired {F : Type 0} (initial : TestCandidate) (mode : Mode) (max : ℕ)
      (r : RepairReport F) : Type 0 where
    pub ending : Ending mode max r.outcome r.candidate r.classified.observed_class r.attempts
    pub some_attempt : 0 < r.attempts
    pub same_target : r.candidate.target ≡ initial.target
    pub same_path : r.candidate.rel_path ≡ initial.rel_path
    pub unassessed_yet : r.classified.assessment ≡ none

-- A candidate for the same file as the initial one.
abbrev Placed : TestCandidate → TestCandidate → Type 0
Placed initial c = (c.target ≡ initial.target) × (c.rel_path ≡ initial.rel_path)

-- What the last round left: nothing yet, or a screened candidate that was seen off its goal.
abbrev Tried :
    {F : Type 0} (Seen : Run → ExecutionResult → Type 0) (mode : Mode)
    → TestCandidate
    → Option (ClassifiedResult F)
    → Type 0
Tried Seen mode c none = ⊥
Tried Seen mode c (some k) =
    Screened c
    × ClassSeen Seen mode c k.observed_class
    × (goal_reached mode k.observed_class ≡ false)
    × (k.assessment ≡ none)
