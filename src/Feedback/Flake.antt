-- ===== src/Feedback/Flake.antt =====
-- crates/jitgen-feedback/src/flake.rs: reruns that drop nondeterministic observations.
pub mod Sound
use jitgen.Core.Classify.{CatchClass, class_eq, flaky, from_catch, from_single}
use jitgen.Core.Model.{TestCandidate}
use jitgen.Feedback.Host.{FeedbackError, Host, Variant, base, execute, head}
use jitgen.Prelude.{Bool, List, [], all, suc, true, zero, ℕ, ◌++◌, ◌+◌, ◌∷◌}
use jitgen.Prelude.Effect.{Exec, pure, ◌>>=◌}

pub record FlakeReport : Type 0 where
  pub stable : Bool
  pub observed : List CatchClass

class_if : Bool → List CatchClass → CatchClass
class_if true (c ∷ cs) = c
class_if b cs = flaky

-- `FlakeReport::class`.
unfoldable pub report_class : FlakeReport → CatchClass
unfolding class_if
report_class r = class_if r.stable r.observed

agree : List CatchClass → Bool
agree [] = true
agree (first ∷ rest) = all (λ c. class_eq c first) (first ∷ rest)

unfoldable pub report : List CatchClass → FlakeReport
unfolding agree
report observed = record { stable = agree observed; observed = observed }

module _ {W : Type 0} where
  -- The loop `for _ in 0..trials`, which pushes what each trial observed.
  observe :
      Exec W FeedbackError CatchClass → ℕ → List CatchClass → Exec W FeedbackError (List CatchClass)
  observe trial zero observed = pure observed
  observe trial (suc n) observed = trial >>= λ c. observe trial n (observed ++ c ∷ [])

  single_trial : Host W → TestCandidate → Variant → Exec W FeedbackError CatchClass
  single_trial h candidate variant = execute h candidate variant >>= λ r. pure (from_single r)

  catch_trial : Host W → TestCandidate → Exec W FeedbackError CatchClass
  catch_trial h candidate = execute h candidate base >>= λ b.
      execute h candidate head >>= λ r. pure (from_catch (record { base = b; head = r }))

  unfoldable pub flake_filter_single :
      Host W → TestCandidate → Variant → ℕ → Exec W FeedbackError FlakeReport
  unfolding observe single_trial
  flake_filter_single h candidate variant reruns =
      observe (single_trial h candidate variant) (reruns + 1) [] >>= λ observed.
      pure (report observed)

  unfoldable pub flake_filter_catch : Host W → TestCandidate → ℕ → Exec W FeedbackError FlakeReport
  unfolding observe catch_trial
  flake_filter_catch h candidate reruns =
      observe (catch_trial h candidate) (reruns + 1) [] >>= λ observed. pure (report observed)
