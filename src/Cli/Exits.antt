-- ===== src/Cli/Exits.antt =====
-- The exit codes of the command.
use jitgen.Cli.Explained.{
  Emitted, Exit, Explained, Explained-bind, Explained-emit, Explained-eprint, Explained-pure,
  IsEffective, Reported, attempted, config_failed, gated, misused, run_failed, stopped,
}
use jitgen.Cli.Run.{
  Console, RunArgs, attempt, cmd_run, conclude, emit, eprint, exit_code, is_given, note, note_if,
  print_gate_summary, refuse_rules, run_and_emit, stop, validate_output_rules, wants_empty_run_hint,
  wants_modifiers_note,
}
use jitgen.Core.Model.{Mode, catch, harden}
use jitgen.Orchestrator.Config.{ConfigHost, resolve_trusted}
use jitgen.Orchestrator.Gate.{GateVerdict, advisory, disabled, is_failure, pass, triggered}
use jitgen.Prelude.{
  Bool, Option, false, if◌then◌else◌, inl, inr, not, refl, true, ℕ, ◌++◌, ◌||◌, ◌≡◌, ◌⊎◌,
}
use jitgen.Prelude.Effect.{Post, pure}
use jitgen.Prelude.Float.{Float}
use jitgen.Prelude.Result.{Result, err, ok}
use jitgen.Prelude.Str.{Text, codes}
use jitgen.Report.Model.{RunReport}
use jitgen.Sandbox.Os.{of_result}
use jitgen.Sandbox.Policy.{TrustedConfig}

module _ {W F : Type 0} (f : Float F) (h : ConfigHost) (env : Text → Option Text) (c : Console W F)
    (a : RunArgs F) where
  Explained-note : (text : Text) → Explained f h env c a (note c text) (λ u. Unit)
  unfolding note
  Explained-note text = record { run = λ w u. tt }

  Explained-note_if :
      (t : Bool) (text : Text) → Explained f h env c a (note_if c t text) (λ u. Unit)
  unfolding note_if
  Explained-note_if true text = Explained-note text
  Explained-note_if false text = Explained-pure f h env c a tt tt

  Explained-summary :
      (v : GateVerdict F) (x : F) → Explained f h env c a (print_gate_summary c v x) (λ u. Unit)
  unfolding print_gate_summary
  Explained-summary disabled x = Explained-pure f h env c a tt tt
  Explained-summary pass x = Explained-pure f h env c a tt tt
  Explained-summary (advisory fs) x = Explained-note _
  Explained-summary (triggered fs) x = Explained-note _

  Explained-refusal : Exit f h env c a 2 → Explained f h env c a (refuse_rules c) (λ u. Unit)
  unfolding refuse_rules
  Explained-refusal e =
      Explained-bind f h env c a (λ u. Unit) (eprint c _) _ (Explained-eprint f h env c a _)
        λ u p. stopped f h env c a e

  -- What code 0 says: a report was put out, and its verdict does not fail the command.
  abbrev pub Succeeded : Type 0
  Succeeded =
      (verdict : GateVerdict F) × Reported f h env c a verdict × (is_failure verdict ≡ false)

  Explained-conclude :
      (trusted : TrustedConfig) (made : RunReport F) (verdict : GateVerdict F)
      → Reported f h env c a verdict
      → Explained f h env c a (conclude c a trusted made verdict) (λ u. Succeeded)
  unfolding conclude
  Explained-conclude trusted made verdict reported =
      Explained-bind f h env c a (λ u. Unit)
        (note_if c (wants_empty_run_hint c trusted made) c.empty_run_hint) _
        (Explained-note_if (wants_empty_run_hint c trusted made) c.empty_run_hint)
        λ u p.
          Explained-bind f h env c a (λ u. Unit)
            (note_if c (wants_modifiers_note c a) c.modifiers_note) _
            (Explained-note_if (wants_modifiers_note c a) c.modifiers_note)
            λ u q.
              Explained-bind f h env c a (λ u. Unit) (print_gate_summary c verdict a.fail_threshold)
                _ (Explained-summary verdict a.fail_threshold)
                λ u r. of_verdict (is_failure verdict) refl
    where
      of_verdict :
          (t : Bool)
          → is_failure verdict ≡ t
          → Explained f h env c a (if t then stop c 3 else pure tt) (λ u. Succeeded)
      of_verdict true e = stopped f h env c a (gated verdict reported e)
      of_verdict false e = Explained-pure f h env c a tt (verdict, reported, e)

  Explained-run :
      (trusted : TrustedConfig)
      → IsEffective f h env c a trusted
      → Explained f h env c a (run_and_emit c f a trusted) (λ u. Succeeded)
  unfolding run_and_emit
  Explained-run trusted effective =
      Explained-bind f h env c a
        (λ made. (w : W) × ((c.run a.repo a.base a.head trusted w).0 ≡ ok made))
        (attempt c (λ e. codes "jitgen run: " ++ e) (c.run a.repo a.base a.head trusted)) _
        (attempted f h env c a (λ e. codes "jitgen run: " ++ e) (c.run a.repo a.base a.head trusted)
          λ w e failed. run_failed trusted w e effective failed)
        λ made (w, produced).
          Explained-bind f h env c a (Emitted f h env c a made) (emit c f a made) _
            (Explained-emit f h env c a made)
            λ verdict emitted. Explained-conclude trusted made verdict (record {
              trusted = trusted;
              effective = effective;
              made = made;
              before = w;
              produced = produced;
              emitted = emitted;
            })

  -- When the mode is `catch`, the rules refuse both outputs.
  Explained-rules :
      (trusted : TrustedConfig)
      → IsEffective f h env c a trusted
      → Explained f h env c a
          (if validate_output_rules trusted.mode a.write (is_given a.patch_out)
            then pure tt
            else refuse_rules c)
          (λ u. Unit)
  unfolding validate_output_rules
  Explained-rules trusted effective = of_mode trusted.mode refl
    where
      of_refused :
          (t : Bool)
          → (t ≡ true → Exit f h env c a 2)
          → Explained f h env c a (if not t then pure tt else refuse_rules c) (λ u. Unit)
      of_refused true k = Explained-refusal (k refl)
      of_refused false k = Explained-pure f h env c a tt tt

      of_mode :
          (m : Mode)
          → trusted.mode ≡ m
          → Explained f h env c a
              (if validate_output_rules m a.write (is_given a.patch_out)
                then pure tt
                else refuse_rules c)
              (λ u. Unit)
      of_mode harden e = Explained-pure f h env c a tt tt
      of_mode catch e = of_refused (a.write || is_given a.patch_out) (misused trusted effective e)

  Explained-cmd_run : Explained f h env c a (cmd_run c f h env a) (λ u. Succeeded)
  unfolding cmd_run of_result
  Explained-cmd_run =
      Explained-bind f h env c a (λ trusted. (w : W) × IsEffective f h env c a trusted)
        (attempt c (λ e. codes "jitgen run: " ++ c.failure_text e)
          (of_result (resolve_trusted h a.flags a.repo env)))
        _
        (attempted f h env c a (λ e. codes "jitgen run: " ++ c.failure_text e)
          (of_result (resolve_trusted h a.flags a.repo env)) λ w e failed. config_failed e failed)
        λ trusted (w, effective).
          Explained-bind f h env c a (λ u. Unit)
            (if validate_output_rules trusted.mode a.write (is_given a.patch_out)
              then pure tt
              else refuse_rules c)
            _ (Explained-rules trusted effective) λ u p. Explained-run trusted effective

  -- The command ends with 0, and then the run under the effective settings gave a report that was
  -- put out where the arguments ask for it, and the verdict is no failure; or it ends with a code that
  -- is explained: 1 a call that failed, 101 a print that failed on one of the two streams, 2 an output
  -- to the repository or a patch file asked for while the effective mode is `catch`, and 3 a failing
  -- verdict over a report of the run that was put out.
  pub cmd_run-Exit :
      (w : W)
      → ((exit_code (cmd_run c f h env a w) ≡ 0) × Succeeded)
        ⊎ Exit f h env c a (exit_code (cmd_run c f h env a w))
  cmd_run-Exit w = of_end (cmd_run c f h env a w) (Explained-cmd_run.run w tt)
    where
      of_end :
          (r : Result ℕ (Unit {0}) × W)
          → Post (λ x v. Succeeded) (λ code v. Exit f h env c a code) r
          → ((exit_code r ≡ 0) × Succeeded) ⊎ Exit f h env c a (exit_code r)
      of_end (ok u, v) p = inl (refl, p)
      of_end (err code, v) p = inr p
