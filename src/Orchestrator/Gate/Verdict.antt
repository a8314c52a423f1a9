-- ===== src/Orchestrator/Gate/Verdict.antt =====
-- When the findings gate fails a run, and that what it printed suppresses what it found.
use jitgen.Core.Classify.{CatchDecision, strictly_weak, strong_catch, uncertain}
use jitgen.Feedback.Flake.{report}
use jitgen.Orchestrator.Gate.{
  Baseline, GatingFinding, catch_fingerprint, finding_of, gate_exit_code, has_entry, is_failure,
  is_strong, qualifies, suppresses, verdict_on,
}
use jitgen.Prelude.{
  Any, Bool, Bool-cases, List, [], arith, false, filter, inl, inr, is_empty, map, or_split, refl,
  true, ◌↔◌, ◌∷◌, ◌≡◌,
}
use jitgen.Prelude.Float.{Float}
use jitgen.Prelude.Str.{Text, text_eq, text_eq_iff}
use jitgen.Report.Model.{CatchReport, RunReport}

has_entry_iff : (s : Text) (es : List Text) → (has_entry s es ≡ true) ↔ Any (λ e. s ≡ e) es
unfolding has_entry
has_entry_iff s [] = (λ h. absurd (ground (arith, h)), λ h. absurd h)
has_entry_iff s (e ∷ es) = (
  λ h. elim (or_split (text_eq s e) (has_entry s es) h) [
    | inl p ↦ inl ((text_eq_iff s e).0 p)
    | inr p ↦ inr ((has_entry_iff s es).0 p)
  ],
  elim [
    | inl p ↦ ground (arith, (text_eq_iff s e).1 p)
    | inr p ↦ ground (arith, (has_entry_iff s es).1 p)
  ],
)

strong_iff : (d : CatchDecision) → (is_strong d ≡ true) ↔ (d ≡ strong_catch)
unfolding is_strong
strong_iff strong_catch = ground arith
strong_iff strictly_weak = ground arith
strong_iff uncertain = ground arith

module _ {F : Type 0} (f : Float F) (threshold : F) where
  -- A strong catch of at least the threshold's probability, whose fingerprint is no entry.
  pub record Gating (baseline : Baseline) (c : CatchReport F) : Type 0 where
    pub strong : c.decision ≡ strong_catch
    pub confident : f.le threshold c.tp_probability ≡ true
    pub unlisted : ¬ Any (λ e. catch_fingerprint c ≡ e) baseline.entries

  qualifies_iff :
      (baseline : Baseline) (c : CatchReport F)
      → (qualifies f threshold baseline c ≡ true) ↔ Gating baseline c
  unfolding qualifies suppresses
  qualifies_iff baseline c = (
    λ h. record {
      strong = (strong_iff c.decision).0 (ground (arith, h));
      confident = ground (arith, h);
      unlisted = λ p. ground (arith, h, (has_entry_iff (catch_fingerprint c) baseline.entries).1 p);
    },
    λ g. elim (Bool-cases (has_entry (catch_fingerprint c) baseline.entries)) [
      | inl e ↦ absurd (g.unlisted ((has_entry_iff (catch_fingerprint c) baseline.entries).0 e))
      | inr e ↦ ground (arith, e, (strong_iff c.decision).1 g.strong, g.confident)
    ],
  )

  -- `map` over `filter` is empty exactly when nothing qualifies.
  filter-empty_iff :
      (baseline : Baseline) (cs : List (CatchReport F))
      → (is_empty (map (finding_of {F = F}) (filter (qualifies f threshold baseline) cs)) ≡ false)
        ↔ Any (Gating baseline) cs
  filter-empty_iff baseline [] = (λ h. absurd (ground (arith, h)), λ h. absurd h)
  filter-empty_iff baseline (c ∷ cs) = elim (Bool-cases (qualifies f threshold baseline c)) [
    | inl e ↦ rw e (λ h. inl ((qualifies_iff baseline c).0 e), λ h. refl)
    | inr e ↦ rw e (
      λ h. inr ((filter-empty_iff baseline cs).0 h),
      elim [
        | inl g ↦ ground (arith, e, (qualifies_iff baseline c).1 g)
        | inr p ↦ (filter-empty_iff baseline cs).1 p
      ],
    )
  ]

  verdict-fails_iff :
      (warn_only : Bool) (gs : List (GatingFinding F))
      → (is_failure (verdict_on f warn_only gs) ≡ true)
        ↔ ((warn_only ≡ false) × (is_empty gs ≡ false))
  unfolding is_failure verdict_on
  verdict-fails_iff warn_only [] = ground arith
  verdict-fails_iff warn_only (g ∷ gs) = ground arith

  -- The gate fails a run exactly when it is asked for, is not advisory, and some reported catch
  -- is a strong catch whose probability is at least the threshold and whose fingerprint is no
  -- entry of the baseline.
  pub gate_exit_code-fails_iff :
      (report : RunReport F) (baseline : Baseline) (warn_only fail_on_catch : Bool)
      → (is_failure (gate_exit_code f report threshold baseline warn_only fail_on_catch) ≡ true)
        ↔ ((fail_on_catch ≡ true) × (warn_only ≡ false) × Any (Gating baseline) report.catches_list)
  unfolding gate_exit_code is_failure
  gate_exit_code-fails_iff report baseline warn_only false = ground arith
  gate_exit_code-fails_iff report baseline warn_only true =
      let v =
        verdict-fails_iff warn_only
          (map finding_of (filter (qualifies f threshold baseline) report.catches_list)) in
      let a = filter-empty_iff baseline report.catches_list in
      (λ h. (refl, (v.0 h).0, a.0 ((v.0 h).1)), λ h. v.1 (h.1, a.1 h.2))
