-- ===== src/Orchestrator/Drive/Stored.antt =====
-- What storing an outcome as JSON keeps of it. `serde_json` parses a float without `float_roundtrip` only
-- to about its last place, and writes a NaN or an infinity as `null`, which does not parse as a float.
use jitgen.Orchestrator.Drive.{Codec}
use jitgen.Orchestrator.Process.{TargetOutcome}
use jitgen.Prelude.{All, List, [], refl, ◌∷◌, ◌≡◌}
use jitgen.Prelude.Result.{ok}
use jitgen.Prelude.Str.{Text}
use jitgen.Report.Model.{CatchReport}

module _ {F : Type 0} where
  -- The same catches, but for the probabilities.
  abbrev pub SameCatches : List (CatchReport F) → List (CatchReport F) → Type 0
  SameCatches [] [] = Unit
  SameCatches [] (d ∷ ds) = ⊥
  SameCatches (c ∷ cs) [] = ⊥
  SameCatches (c ∷ cs) (d ∷ ds) =
      (record c { tp_probability = d.tp_probability } ≡ d) × SameCatches cs ds

  pub record SameOutcome (o p : TargetOutcome F) : Type 0 where
    pub same_accepted : o.accepted_list ≡ p.accepted_list
    pub same_catches : SameCatches o.catches_list p.catches_list
    pub same_rejected : o.rejected_list ≡ p.rejected_list
    pub same_count : o.candidates_generated ≡ p.candidates_generated

  abbrev pub SameOutcomes : List (TargetOutcome F) → List (TargetOutcome F) → Type 0
  SameOutcomes [] [] = Unit
  SameOutcomes [] (p ∷ ps) = ⊥
  SameOutcomes (o ∷ os) [] = ⊥
  SameOutcomes (o ∷ os) (p ∷ ps) = SameOutcome o p × SameOutcomes os ps

  -- Every probability of the outcome is a finite number.
  abbrev pub AllFinite : (F → Type 0) → TargetOutcome F → Type 0
  AllFinite finite o = All (λ c. finite c.tp_probability) o.catches_list

  -- An outcome with finite probabilities that was encoded decodes, as the same but for these.
  pub record StoresOutcomes (codec : Codec F) (finite : F → Type 0) : Type 0 where
    pub reads_back :
        (o : TargetOutcome F) (bytes : Text)
        → AllFinite finite o
        → codec.encode_outcome o ≡ ok bytes
        → (p : TargetOutcome F) × (codec.decode_outcome bytes ≡ ok p) × SameOutcome o p

  SameCatches-refl : (cs : List (CatchReport F)) → SameCatches cs cs
  SameCatches-refl [] = tt
  SameCatches-refl (c ∷ cs) = (refl, SameCatches-refl cs)

  pub SameOutcome-refl : (o : TargetOutcome F) → SameOutcome o o
  SameOutcome-refl o = record {
    same_accepted = refl;
    same_catches = SameCatches-refl o.catches_list;
    same_rejected = refl;
    same_count = refl;
  }
