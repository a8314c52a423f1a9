-- ===== src/Feedback/Minimize/Sound.antt =====
-- What minimisation returns.
use jitgen.Core.Model.{TestCandidate}
use jitgen.Feedback.Minimize.{
  Trial, finish, minimize, next_trial, probe, reduce, with_source, without,
}
use jitgen.Prelude.{
  Bool, List, Option, [], append-nil, append_assoc, arith, drop, false, inl, inr, none, refl, some,
  some_inj, subst, suc, sym, take, true, zero, ℕ, ◌++◌, ◌∷◌, ◌≡◌, ◌⊎◌,
}
use jitgen.Prelude.Effect.{Exec, Triple, Triple-bind, Triple-fact, Triple-if, Triple-pure}
use jitgen.Prelude.Str.{Text, codes, join, lines}

module _ {W E : Type 0} (still_interesting : TestCandidate → Exec W E Bool)
    (candidate : TestCandidate) (I : W → Type 0) (R : E → W → Type 0)
    (Interesting : TestCandidate → Type 0)
    (probes : (c : TestCandidate)
      → Triple I (still_interesting c) (λ b w. I w × (b ≡ true → Interesting c)) R) where
  -- The original, or a test that a probe found interesting.
  abbrev Kept : TestCandidate → Type 0
  Kept c = (c ≡ candidate) ⊎ Interesting c

  -- What has been removed left an interesting test.
  abbrev Removed : Bool → List Text → List Text → Type 0
  Removed any_removed front rest =
      any_removed ≡ true → Interesting (without still_interesting candidate front rest)

  finish-Kept :
      (any_removed : Bool) (front rest : List Text)
      → Removed any_removed front rest
      → Kept (finish still_interesting candidate any_removed front rest)
  unfolding finish
  finish-Kept true front rest r = inr (r refl)
  finish-Kept false front rest r = inl refl

  next_trial-some :
      (front rest : List Text) (changed : Bool) (t : Trial)
      → next_trial front rest changed ≡ some t
      → (t.front ++ take 1 t.rest) ++ drop 1 t.rest ≡ front ++ rest
  unfolding next_trial
  next_trial-some front (l ∷ rest) changed t e =
      subst (λ x. (x.front ++ take 1 x.rest) ++ drop 1 x.rest ≡ front ++ l ∷ rest) (some_inj _ t e)
        (append_assoc front (l ∷ []) rest)
  next_trial-some [] [] changed t e = absurd (ground (arith, e))
  next_trial-some (l ∷ ls) [] true t e =
      subst (λ x. (x.front ++ take 1 x.rest) ++ drop 1 x.rest ≡ (l ∷ ls) ++ []) (some_inj _ t e)
        (sym (append-nil (l ∷ ls)))
  next_trial-some (l ∷ ls) [] false t e = absurd (ground (arith, e))

  -- The lines that are left are the same, however they are split.
  same_lines :
      (any_removed : Bool) (front rest front' rest' : List Text)
      → front' ++ rest' ≡ front ++ rest
      → Removed any_removed front rest
      → Removed any_removed front' rest'
  unfolding without
  same_lines any_removed front rest front' rest' e r h =
      subst (λ ls. Interesting (with_source candidate (join (codes "\n") ls))) (sym e) (r h)

  probe_sound :
      (go_on : List Text → List Text → Bool → Bool → Exec W E TestCandidate)
      → ((front rest : List Text) (changed any_removed : Bool)
          → Removed any_removed front rest
          → Triple I (go_on front rest changed any_removed) (λ c w. I w × Kept c) R)
      → (front rest : List Text) (changed any_removed : Bool) → Removed any_removed front rest
      → (o : Option Trial) → next_trial front rest changed ≡ o
      → Triple I
          (probe still_interesting candidate o
            (finish still_interesting candidate any_removed front rest)
            go_on
            any_removed)
          (λ c w. I w × Kept c)
          R
  unfolding probe
  probe_sound go_on goes front rest changed any_removed r none e =
      Triple-pure _ λ w i. (i, finish-Kept any_removed front rest r)
  probe_sound go_on goes front rest changed any_removed r (some t) e =
      Triple-bind _ _ (probes _) λ keep. Triple-fact λ found.
        Triple-if keep _ _ (λ yes. goes _ _ true true (λ h. found yes))
          (λ no. goes _ _ t.changed any_removed (
            same_lines any_removed front rest (t.front ++ take 1 t.rest) (drop 1 t.rest)
              (next_trial-some front rest changed t e) r))

  reduce_sound :
      (left : ℕ) (front rest : List Text) (changed any_removed : Bool)
      → Removed any_removed front rest
      → Triple I
          (reduce still_interesting candidate left front rest changed any_removed)
          (λ c w. I w × Kept c)
          R
  unfolding reduce
  reduce_sound zero front rest changed any_removed r =
      Triple-pure _ λ w i. (i, finish-Kept any_removed front rest r)
  reduce_sound (suc left) front rest changed any_removed r =
      probe_sound (reduce still_interesting candidate left) (reduce_sound left) front rest changed
        any_removed r (next_trial front rest changed) refl

  -- If each probe that ends without an error keeps `I`, and finds a test interesting only if it
  -- is, then minimisation that ends without an error keeps `I` and returns the original test or
  -- one that is interesting.
  pub minimize_sound :
      (max_probes : ℕ)
      → Triple I (minimize still_interesting candidate max_probes) (λ c w. I w × Kept c) R
  unfolding minimize
  minimize_sound max_probes =
      reduce_sound max_probes [] (lines candidate.source) false false
        (λ e. absurd (ground (arith, e)))
