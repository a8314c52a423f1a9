-- ===== src/Orchestrator/Drive/Keys.antt =====
-- Different ids have different steps and different artifacts.
use jitgen.Orchestrator.Drive.{artifact_key, step_key}
use jitgen.Prelude.{append_cancel_left, append_cancel_right, arith, false, inl, inr, ◌≡◌}
use jitgen.Prelude.Str.{Text, codes, text_eq, text_eq_iff}
use jitgen.State.Store.Lookup.{key_cases}

pub step_key-distinct :
    (a b : Text) → text_eq a b ≡ false → text_eq (step_key a) (step_key b) ≡ false
unfolding text_eq
step_key-distinct a b d = d

pub artifact_key-distinct :
    (a b : Text) → text_eq a b ≡ false → text_eq (artifact_key a) (artifact_key b) ≡ false
artifact_key-distinct a b d = elim (key_cases (artifact_key a) (artifact_key b)) [
  | inl same ↦
      let e =
        append_cancel_right a b (codes ".json") (append_cancel_left (codes "targets/") _ _ same) in
      absurd (ground (arith, d, (text_eq_iff a b).1 e))
  | inr e ↦ e
]
