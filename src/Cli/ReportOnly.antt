-- ===== src/Cli/ReportOnly.antt =====
-- Catch mode reports only.
use jitgen.Cli.Run.{
  Console, RunArgs, attempt, catch_refusal, cmd_run, conclude, emit, emit_then_gate, eprint,
  error_msg_cap, fail, gate, is_given, load_baseline, note, note_if, or_fail, print_gate_summary,
  printed, refuse_rules, run_and_emit, safe_for_terminal, stop, validate_output_rules,
  wants_empty_run_hint, wants_modifiers_note, write_patch_file, write_tests,
}
use jitgen.Core.Model.{catch}
use jitgen.Orchestrator.Config.{ConfigFailure, ConfigHost, PathOf, resolve_trusted}
use jitgen.Orchestrator.Gate.{
  GateVerdict, advisory, disabled, gate_exit_code, is_failure, pass, triggered,
}
use jitgen.Prelude.{
  Bool, Option, ap, arith, false, if◌then◌else◌, none, not, refl, some, subst, sym, true, ℕ, ◌++◌,
  ◌||◌, ◌∙◌, ◌≡◌,
}
use jitgen.Prelude.Effect.{Exec, Post, Triple, Triple-bind, Triple-pure, pure, ◌>>=◌}
use jitgen.Prelude.Float.{Float}
use jitgen.Prelude.Result.{Result, err, ok, ok_inj}
use jitgen.Prelude.Str.{Text, codes}
use jitgen.Report.Model.{RunReport}
use jitgen.Sandbox.Os.{of_result}
use jitgen.Sandbox.Policy.{TrustedConfig}

-- What the two streams and the run keep of a world.
pub record KeepsReporting {W F : Type 0} (c : Console W F) (I : W → Type 0) : Type 0 where
  pub stdout : (text : Text) (w : W) → I w → I (c.stdout text w).1
  pub stderr : (text : Text) (w : W) → I w → I (c.stderr text w).1
  pub runs :
      (repo : PathOf) (base head : Text) (trusted : TrustedConfig) (w : W)
      → I w
      → I (c.run repo base head trusted w).1

module _ {W F : Type 0} (f : Float F) (h : ConfigHost) (env : Text → Option Text) (c : Console W F)
    (a : RunArgs F) (I : W → Type 0) (keeps : KeepsReporting c I) where
  abbrev Kept : {A : Type 0} → Exec W ℕ A → Type 0
  Kept m = Triple I m (λ x. I) (λ code. I)

  Kept-bind :
      {A B : Type 0} (m : Exec W ℕ A) (k : A → Exec W ℕ B)
      → Kept m
      → ((x : A) → Kept (k x))
      → Kept (m >>= k)
  Kept-bind m k t n = Triple-bind m k t n

  Kept-pure : {A : Type 0} (x : A) → Kept (pure x)
  Kept-pure x = Triple-pure x λ w i. i

  Kept-note : (text : Text) → Kept (note c text)
  unfolding note
  Kept-note text = record { run = λ w i. keeps.stderr text w i }

  Kept-eprint : (text : Text) → Kept (eprint c text)
  unfolding eprint printed
  Kept-eprint text = record { run = λ w i. of_call (c.stderr text w) (keeps.stderr text w i) }
    where
      of_call : (r : Result Text (Unit {0}) × W) → I r.1 → Post (λ x. I) (λ code. I) (printed c r)
      of_call (ok u, w) i = i
      of_call (err e, w) i = i

  Kept-stop : {A : Type 0} (code : ℕ) → Kept (stop c {A = A} code)
  unfolding stop
  Kept-stop code = record { run = λ w i. i }

  Kept-fail : {A : Type 0} (msg : Text) → Kept (fail c {A = A} msg)
  unfolding fail
  Kept-fail msg =
      Kept-bind (eprint c (safe_for_terminal msg error_msg_cap)) _ (Kept-eprint _)
        λ u. Kept-bind (note c (c.hint msg)) _ (Kept-note (c.hint msg)) λ u. Kept-stop 1

  -- A call that keeps the invariant, with `fail` behind its error.
  Kept-attempt :
      {E A : Type 0} (text : E → Text) (m : Exec W E A)
      → ((w : W) → I w → I (m w).1)
      → Kept (attempt c text m)
  unfolding attempt or_fail
  Kept-attempt {E = E} {A = A} text m k = record { run = λ w i. of_call (m w) (k w i) }
    where
      of_call : (r : Result E A × W) → I r.1 → Post (λ x. I) (λ code. I) (or_fail c text r)
      of_call (ok x, w) i = i
      of_call (err e, w) i = (Kept-fail {A = A} (text e)).run w i

  Kept-gate : (made : RunReport F) → Kept (gate c f a made)
  unfolding gate of_result
  Kept-gate made =
      Kept-bind
        (attempt c (λ e. codes "jitgen run: " ++ e) (of_result (load_baseline c a.baseline)))
        (λ b. pure (gate_exit_code f made a.fail_threshold b a.warn_only true))
        (Kept-attempt (λ e. codes "jitgen run: " ++ e) (of_result (load_baseline c a.baseline))
          λ w i. i)
        λ b. Kept-pure (gate_exit_code f made a.fail_threshold b a.warn_only true)

  Kept-emit_then_gate : (made : RunReport F) → Kept (emit_then_gate c f a made)
  unfolding emit_then_gate
  Kept-emit_then_gate made =
      Kept-bind
        (attempt c (λ e. codes "jitgen run: cannot write report: " ++ e)
          (c.stdout (c.render made a.format)))
        _
        (Kept-attempt (λ e. codes "jitgen run: cannot write report: " ++ e)
          (c.stdout (c.render made a.format)) (keeps.stdout (c.render made a.format)))
        λ u. of_switch (not a.fail_on_catch)
    where
      of_switch : (t : Bool) → Kept (if t then pure disabled else gate c f a made)
      of_switch true = Kept-pure disabled
      of_switch false = Kept-gate made

  Kept-note_if : (t : Bool) (text : Text) → Kept (note_if c t text)
  unfolding note_if
  Kept-note_if true text = Kept-note text
  Kept-note_if false text = Kept-pure tt

  Kept-summary : (v : GateVerdict F) (x : F) → Kept (print_gate_summary c v x)
  unfolding print_gate_summary
  Kept-summary disabled x = Kept-pure tt
  Kept-summary pass x = Kept-pure tt
  Kept-summary (advisory fs) x = Kept-note _
  Kept-summary (triggered fs) x = Kept-note _

  Kept-conclude :
      (trusted : TrustedConfig) (made : RunReport F) (verdict : GateVerdict F)
      → Kept (conclude c a trusted made verdict)
  unfolding conclude
  Kept-conclude trusted made verdict =
      Kept-bind (note_if c (wants_empty_run_hint c trusted made) c.empty_run_hint) _
        (Kept-note_if (wants_empty_run_hint c trusted made) c.empty_run_hint)
        λ u.
          Kept-bind (note_if c (wants_modifiers_note c a) c.modifiers_note) _
            (Kept-note_if (wants_modifiers_note c a) c.modifiers_note)
            λ u.
              Kept-bind (print_gate_summary c verdict a.fail_threshold) _
                (Kept-summary verdict a.fail_threshold) λ u. of_verdict (is_failure verdict)
    where
      of_verdict : (t : Bool) → Kept (if t then stop c 3 else pure tt)
      of_verdict true = Kept-stop 3
      of_verdict false = Kept-pure tt

  -- Without an output asked for, the artifact goes to the stream.
  Kept-emit :
      (made : RunReport F) → (a.write || is_given a.patch_out) ≡ false → Kept (emit c f a made)
  unfolding emit
  Kept-emit made e = of_out a.write a.patch_out e
    where
      of_out :
          (t : Bool) (o : Option Text)
          → (t || is_given o) ≡ false
          → Kept (
              if t then write_tests c a made else elim o as (λ o. Exec W ℕ (GateVerdict F)) [
                | some out ↦ write_patch_file c out made
                | none ↦ emit_then_gate c f a made
              ])
      of_out true o e = absurd (ground arith)
      of_out false (some out) e = absurd (ground arith)
      of_out false none e = Kept-emit_then_gate made

  Kept-run :
      (trusted : TrustedConfig)
      → (a.write || is_given a.patch_out) ≡ false
      → Kept (run_and_emit c f a trusted)
  unfolding run_and_emit
  Kept-run trusted e =
      Kept-bind (attempt c (λ e. codes "jitgen run: " ++ e) (c.run a.repo a.base a.head trusted)) _
        (Kept-attempt (λ e. codes "jitgen run: " ++ e) (c.run a.repo a.base a.head trusted)
          (keeps.runs a.repo a.base a.head trusted))
        λ made.
          Kept-bind (emit c f a made) _ (Kept-emit made e)
            λ verdict. Kept-conclude trusted made verdict

  ended : (code : ℕ) → Triple I (stop c {A = Unit {0}} code) (λ u w. ⊥) (λ code. I)
  unfolding stop
  ended code = record { run = λ w i. i }

  -- The refusal ends the command: it has no value.
  refused : Triple I (refuse_rules c) (λ u w. ⊥) (λ code. I)
  unfolding refuse_rules
  refused =
      Triple-bind
        (eprint c (safe_for_terminal (codes "jitgen run: " ++ catch_refusal) error_msg_cap)) _
        (Kept-eprint _) λ u. ended 2

  Kept-rules :
      (t : Bool)
      → (a.write || is_given a.patch_out) ≡ t
      → (trusted : TrustedConfig)
      → Kept ((if not t then pure tt else refuse_rules c) >>= λ u. run_and_emit c f a trusted)
  Kept-rules false e trusted = Kept-bind (pure tt) _ (Kept-pure tt) λ u. Kept-run trusted e
  Kept-rules true e trusted =
      Triple-bind (refuse_rules c) _ refused λ u. record { run = λ w no. absurd no }

  Kept-catch :
      (trusted : TrustedConfig)
      → trusted.mode ≡ catch
      → Kept (
          (if validate_output_rules trusted.mode a.write (is_given a.patch_out)
            then pure tt
            else refuse_rules c)
          >>= λ u. run_and_emit c f a trusted)
  unfolding validate_output_rules
  Kept-catch trusted e =
      subst
        (λ m. Kept (
          (if validate_output_rules m a.write (is_given a.patch_out)
            then pure tt
            else refuse_rules c)
          >>= λ u. run_and_emit c f a trusted))
        (sym e) (Kept-rules (a.write || is_given a.patch_out) refl trusted)

  -- A value of `attempt` on a result is the result's.
  resolved_is :
      (trusted : TrustedConfig)
      → resolve_trusted h a.flags a.repo env ≡ ok trusted
      → Triple I
          (attempt c
            (λ e. codes "jitgen run: " ++ c.failure_text e)
            (of_result (resolve_trusted h a.flags a.repo env)))
          (λ t w. I w × (t ≡ trusted))
          (λ code. I)
  unfolding attempt or_fail of_result
  resolved_is trusted e = record {
    run = λ w i. of_call (resolve_trusted h a.flags a.repo env) e w i;
  }
    where
      of_call :
          (r : Result ConfigFailure TrustedConfig)
          → r ≡ ok trusted
          → (w : W) → I w
          → Post
              (λ t w. I w × (t ≡ trusted))
              (λ code. I)
              (or_fail c (λ e. codes "jitgen run: " ++ c.failure_text e) (r, w))
      of_call (ok t) k w i = (i, ok_inj t trusted k)
      of_call (err x) k w i = absurd (ground arith)

  -- When the effective mode is `catch`, wherever that was set, the command keeps whatever the two
  -- streams and the run keep, with every outcome: it writes neither into the repository nor a patch file.
  pub cmd_run-report_only :
      (trusted : TrustedConfig)
      → resolve_trusted h a.flags a.repo env ≡ ok trusted
      → trusted.mode ≡ catch
      → (w : W) → I w
      → I (cmd_run c f h env a w).1
  unfolding cmd_run
  cmd_run-report_only trusted effective is_catch w i = of_end _ (kept.run w i)
    where
      kept : Kept (cmd_run c f h env a)
      kept =
          Triple-bind
            (attempt c (λ e. codes "jitgen run: " ++ c.failure_text e)
              (of_result (resolve_trusted h a.flags a.repo env)))
            _ (resolved_is trusted effective)
            λ t. record {
              run = λ w (i, e).
                  (Kept-catch t (ap (λ (x : TrustedConfig). x.mode) e ∙ is_catch)).run w i;
            }

      of_end : (r : Result ℕ (Unit {0}) × W) → Post (λ u. I) (λ code. I) r → I r.1
      of_end (ok u, w) p = p
      of_end (err code, w) p = p
