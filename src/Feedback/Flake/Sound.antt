-- ===== src/Feedback/Flake/Sound.antt =====
-- What a flake report says about the runs behind it.
use jitgen.Core.Classify.{CatchClass, class_eq, class_eq_iff, flaky, from_catch, from_single}
use jitgen.Core.Model.{ExecutionResult, TestCandidate}
use jitgen.Feedback.Flake.{
  FlakeReport, catch_trial, flake_filter_catch, flake_filter_single, observe, report, report_class,
  single_trial,
}
use jitgen.Feedback.Host.{FeedbackError, Host, Keeps, Run, Variant, base, execute, head, ran}
use jitgen.Prelude.{
  All, All-append, All-map, Bool-cases, List, [], all, and_split, arith, inl, inr, length,
  length-append, refl, subst, suc, sym, true, zero, ℕ, ◌*◌, ◌++◌, ◌+◌, ◌↔◌, ◌∙◌, ◌∷◌, ◌≡◌, ◌≢◌,
}
use jitgen.Prelude.Effect.{
  Exec, Triple, Triple-bind, Triple-fact, Triple-pure, Triple-weaken, pure, ◌>>=◌,
}

all_same :
    (c : CatchClass) (cs : List CatchClass)
    → (all (λ d. class_eq d c) cs ≡ true) ↔ All (λ d. d ≡ c) cs
all_same c [] = (λ _. tt, λ _. refl)
all_same c (d ∷ cs) = (
  λ h. let (p, q) = and_split _ _ h in ((class_eq_iff d c).0 p, (all_same c cs).0 q),
  λ h. ground (arith, (class_eq_iff d c).1 h.0, (all_same c cs).1 h.1),
)

one_class :
    (d c : CatchClass) (ds : List CatchClass)
    → d ≡ c
    → (all (λ e. class_eq e d) ds ≡ true) ↔ All (λ e. e ≡ c) ds
one_class d c ds p = (
  λ h. All-map (λ e. e ≡ d) (λ e q. q ∙ p) ds ((all_same d ds).0 h),
  λ h. (all_same d ds).1 (All-map (λ e. e ≡ c) (λ e q. q ∙ sym p) ds h),
)

-- For a class `c` other than `flaky`, the class of a report is `c` exactly when there was a trial
-- and every trial observed `c`.
pub report_class_iff :
    (observed : List CatchClass) (c : CatchClass)
    → c ≢ flaky
    → (report_class (report observed) ≡ c) ↔ ((observed ≢ []) × All (λ d. d ≡ c) observed)
unfolding report_class report
report_class_iff [] c real = (λ h. absurd (real (sym h)), λ h. absurd (h.0 refl))
report_class_iff (d ∷ ds) c real = (
  λ h. elim (Bool-cases (all (λ e. class_eq e d) (d ∷ ds))) [
    | inl same ↦ (λ n. cc, (one_class d c (d ∷ ds) (ground (arith, h, same))).0 same)
    | inr mixed ↦ absurd (real (ground (arith, h, mixed)))
  ],
  λ h. ground (arith, (one_class d c (d ∷ ds) h.1.0).1 h.1),
)

module _ (Seen : Run → ExecutionResult → Type 0) (c : TestCandidate) where
  -- A pair of runs of `c` that was observed as `k`.
  abbrev pub CatchSeen : CatchClass → Type 0
  CatchSeen k =
      (b : ExecutionResult) × (h : ExecutionResult) × Seen (ran c base) b
      × Seen (ran c head) h
      × (from_catch (record { base = b; head = h }) ≡ k)

  -- A run of `c` on `v` that was observed as `k`.
  abbrev pub SingleSeen : Variant → CatchClass → Type 0
  SingleSeen v k = (r : ExecutionResult) × Seen (ran c v) r × (from_single r ≡ k)

-- The report of `reruns + 1` trials, each of which has `D`.
pub record ReportOf (D : CatchClass → Type 0) (reruns : ℕ) (r : FlakeReport) : Type 0 where
  pub trials : length r.observed ≡ reruns + 1
  pub each : All D r.observed
  pub computed : r ≡ report r.observed

ReportOf-report :
    (D : CatchClass → Type 0) (reruns : ℕ) (ks : List CatchClass)
    → All D ks
    → length ks ≡ reruns + 1
    → ReportOf D reruns (report ks)
unfolding report
ReportOf-report D reruns ks a e = record { trials = e; each = a; computed = refl }

module _ {W : Type 0} {R : FeedbackError → W → Type 0} (J : ℕ → W → Type 0)
    (D : CatchClass → Type 0) (trial : Exec W FeedbackError CatchClass) (step : ℕ)
    (t : (k : ℕ) → Triple (J k) trial (λ c w. J (k + step) w × D c) R) where
  -- Every trial is run, each from the world that the one before it left.
  observe_sound :
      (n k : ℕ) (seen : List CatchClass)
      → All D seen
      → Triple
          (J k)
          (observe trial n seen)
          (λ ks w. J (k + n * step) w × All D ks × (length ks ≡ length seen + n))
          R
  unfolding observe
  observe_sound zero k seen a =
      Triple-pure seen λ w i. (subst (λ x. J x w) (omega arith) i, a, omega arith)
  observe_sound (suc n) k seen a = Triple-bind trial _ (t k) λ c. Triple-fact λ d.
      Triple-weaken
        (observe_sound n (k + step) (seen ++ c ∷ []) (All-append D seen (c ∷ []) a (d, tt)))
        λ ks w p. (
          subst (λ x. J x w) (more k n) p.0,
          p.1,
          omega (arith, p.2, length-append {0} seen (c ∷ [])),
        )
    where
      more : (k n : ℕ) → k + step + n * step ≡ k + suc n * step
      more k n = grind arith

  filter_sound :
      (reruns k : ℕ)
      → Triple
          (J k)
          (observe trial (reruns + 1) [] >>= λ observed. pure (report observed))
          (λ r w. J (k + (reruns + 1) * step) w × ReportOf D reruns r)
          R
  filter_sound reruns k =
      Triple-bind _ _ (observe_sound (reruns + 1) k [] tt)
        λ ks. Triple-pure (report ks) λ w p. (p.0, ReportOf-report D reruns ks p.1 (omega arith))

-- `J k` is what holds after `k` executions by the host.
module _ {W : Type 0} (h : Host W) (J : ℕ → W → Type 0) (Seen : Run → ExecutionResult → Type 0)
    {R : FeedbackError → W → Type 0} (c : TestCandidate)
    (runs : (k : ℕ) (v : Variant)
      → Triple (J k) (execute h c v) (λ r w. J (suc k) w × Seen (ran c v) r) R)
    (reruns : ℕ) where
  counted_pair :
      (k : ℕ) → Triple (J k) (catch_trial h c) (λ x w. J (k + 2) w × CatchSeen Seen c x) R
  unfolding catch_trial
  counted_pair k = Triple-bind _ _ (runs k base) λ b. Triple-fact λ sb.
      Triple-bind _ _ (runs (suc k) head) λ r.
        Triple-fact
          λ sr. Triple-pure _ λ w i. (subst (λ x. J x w) (omega arith) i, (b, r, sb, sr, refl))

  pub flake_filter_catch-Counted :
      (k : ℕ)
      → Triple
          (J k)
          (flake_filter_catch h c reruns)
          (λ r w. J (k + (reruns + 1) * 2) w × ReportOf (CatchSeen Seen c) reruns r)
          R
  unfolding flake_filter_catch
  flake_filter_catch-Counted k =
      filter_sound J (CatchSeen Seen c) (catch_trial h c) 2 counted_pair reruns k

module _ {W : Type 0} {h : Host W} {I : W → Type 0} {Screened : TestCandidate → Type 0}
    {Seen : Run → ExecutionResult → Type 0} {R : FeedbackError → W → Type 0}
    (keeps : Keeps h I Screened Seen R) (c : TestCandidate) (screened : Screened c)
    (reruns : ℕ) where
  single_seen : (v : Variant) → Triple I (single_trial h c v) (λ k w. I w × SingleSeen Seen c v k) R
  unfolding single_trial
  single_seen v =
      Triple-bind _ _ (keeps.runs c v screened)
        λ r. Triple-fact λ s. Triple-pure _ λ w i. (i, (r, s, refl))

  -- The same for an invariant that does not count.
  pub flake_filter_catch_sound :
      Triple I (flake_filter_catch h c reruns) (λ r w. I w × ReportOf (CatchSeen Seen c) reruns r) R
  flake_filter_catch_sound =
      flake_filter_catch-Counted h (λ k. I) Seen c (λ k v. keeps.runs c v screened) reruns 0

  pub flake_filter_single_sound :
      (v : Variant)
      → Triple I
          (flake_filter_single h c v reruns)
          (λ r w. I w × ReportOf (SingleSeen Seen c v) reruns r)
          R
  unfolding flake_filter_single
  flake_filter_single_sound v =
      filter_sound (λ k. I) (SingleSeen Seen c v) (single_trial h c v) 1 (λ k. single_seen v) reruns
        0
