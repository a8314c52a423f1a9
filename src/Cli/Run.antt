-- ===== src/Cli/Run.antt =====
-- crates/jitgen-cli/src/cli.rs: the command `run`, behind clap's reading of the arguments.
-- An early return with an exit code is the error of an `Exec`. The two streams, the writing of the
-- patch file and into the repository, the run and the formats are a parameter.
use jitgen.Core.Model.{Mode, catch, harden}
use jitgen.Orchestrator.Config.{ConfigFailure, ConfigHost, PathOf, TrustedFlags, resolve_trusted}
use jitgen.Orchestrator.Gate.{
  Baseline, GateError, GateVerdict, advisory, disabled, gate_exit_code, is_failure, parse_inner,
  triggered,
}
use jitgen.Prelude.{
  Bool, List, Option, [], false, if◌then◌else◌, is_empty, length, none, not, some, true, ℕ, ◌&&◌,
  ◌*◌, ◌++◌, ◌||◌, ◌∷◌,
}
use jitgen.Prelude.Effect.{Exec, pure, ◌>>=◌}
use jitgen.Prelude.Float.{Float}
use jitgen.Prelude.Result.{Result, err, ok}
use jitgen.Prelude.Str.{Text, codes, show_nat}
use jitgen.Report.Escape.{sanitize_line}
use jitgen.Report.Model.{RunReport}
use jitgen.Sandbox.Os.{of_result}
use jitgen.Sandbox.Policy.{ProviderConfig, TrustedConfig, mock}

pub data Format : Type 0 where
  human json markdown patch junit sarif : Format

pub record RunArgs (F : Type 0) : Type 0 where
  pub flags : TrustedFlags
  pub repo : PathOf
  pub base : Text
  pub head : Text
  pub write : Bool
  pub patch_out : Option Text
  pub format : Format
  pub fail_on_catch : Bool
  pub fail_threshold : F
  pub baseline : Option Text
  pub warn_only : Bool

-- `stdout` and `stderr` write a text, which may fail; `run` is `run_jit_generation`, `apply` is
-- `apply_to_repo`, `read_baseline` the file that `Baseline::from_file` reads, `hint` `user_hint`, and
-- `empty_run_hint`, `modifiers_note` and `summary` are texts.
pub record Console (W F : Type 0) : Type 0 where
  pub stdout : Text → Exec W Text (Unit {0})
  pub stderr : Text → Exec W Text (Unit {0})
  pub write_patch : Text → Text → Exec W Text (Unit {0})
  pub apply : PathOf → RunReport F → Exec W Text (List Text)
  pub run : PathOf → (base head : Text) → TrustedConfig → Exec W Text (RunReport F)
  pub render : RunReport F → Format → Text
  pub read_baseline : Text → Result Text Text
  pub failure_text : ConfigFailure → Text
  pub gate_text : GateError → Text
  pub hint : Text → Text
  pub empty_run_hint : Text
  pub modifiers_note : Text
  pub summary : GateVerdict F → F → Text

abbrev pub error_msg_cap : ℕ
error_msg_cap = 8 * 1024

unfoldable pub safe_for_terminal : Text → ℕ → Text
unfolding sanitize_line
safe_for_terminal msg max = sanitize_line msg max

unfoldable pub validate_output_rules : Mode → (write patch_out : Bool) → Bool
validate_output_rules catch write patch_out = not (write || patch_out)
validate_output_rules harden write patch_out = true

abbrev pub is_given : {A : Type 0} → Option A → Bool
is_given none = false
is_given (some a) = true

abbrev pub catch_refusal : Text
catch_refusal =
    codes
      "--write/--patch-out are invalid with --mode catch (catch mode is report-only; catching tests fail by design and cannot land)"

module _ {W F : Type 0} (c : Console W F) where
  unfoldable pub printed : Result Text (Unit {0}) × W → Result ℕ (Unit {0}) × W
  printed (ok u, w) = (ok tt, w)
  printed (err e, w) = (err 101, w)

  -- `let _ = writeln!(stderr, ...)`, which goes on when the stream fails.
  unfoldable pub note : Text → Exec W ℕ (Unit {0})
  note text w = (ok tt, (c.stderr text w).1)

  -- `eprintln!`, which panics when the stream fails.
  unfoldable pub eprint : Text → Exec W ℕ (Unit {0})
  unfolding printed
  eprint text w = printed (c.stderr text w)

  unfoldable pub stop : {A : Type 0} → ℕ → Exec W ℕ A
  stop code w = (err code, w)

  -- `fail`.
  unfoldable pub fail : {A : Type 0} → Text → Exec W ℕ A
  unfolding ◌>>=◌ note eprint stop safe_for_terminal
  fail msg = do _ ← eprint (safe_for_terminal msg error_msg_cap); _ ← note (c.hint msg); stop 1

  -- What a call returns, or `fail` with its error behind a prefix.
  unfoldable pub or_fail : {E A : Type 0} → (E → Text) → Result E A × W → Result ℕ A × W
  unfolding fail
  or_fail text (ok a, w) = (ok a, w)
  or_fail text (err e, w) = fail (text e) w

  unfoldable pub attempt : {E A : Type 0} → (E → Text) → Exec W E A → Exec W ℕ A
  unfolding or_fail
  attempt text m w = or_fail text (m w)

  -- `println!`, which panics when the stream fails.
  unfoldable pub print : Text → Exec W ℕ (Unit {0})
  unfolding printed
  print text w = printed (c.stdout text w)

  unfoldable pub print_all : List Text → Exec W ℕ (Unit {0})
  unfolding ◌>>=◌ pure print safe_for_terminal
  print_all [] = pure tt
  print_all (path ∷ paths) = do
    _ ← print (codes "  " ++ safe_for_terminal path 512)
    print_all paths

  baseline_of : Result Text Text → Result Text Baseline
  unfolding parse_inner
  baseline_of (err e) = err e
  baseline_of (ok text) = elim (parse_inner text) [ ok b ↦ ok b | err e ↦ err (c.gate_text e) ]

  -- `Baseline::from_file`, or `Baseline::empty`.
  unfoldable pub load_baseline : Option Text → Result Text Baseline
  unfolding baseline_of
  load_baseline none = ok (record { entries = [] })
  load_baseline (some path) = baseline_of (c.read_baseline path)

  unfoldable pub gate : Float F → RunArgs F → RunReport F → Exec W ℕ (GateVerdict F)
  unfolding ◌>>=◌ pure attempt of_result load_baseline gate_exit_code
  gate f a made = do
    b ← attempt (λ e. codes "jitgen run: " ++ e) (of_result (load_baseline a.baseline))
    pure (gate_exit_code f made a.fail_threshold b a.warn_only true)

  -- The artifact first, then the gate.
  unfoldable pub emit_then_gate : Float F → RunArgs F → RunReport F → Exec W ℕ (GateVerdict F)
  unfolding ◌>>=◌ pure attempt gate
  emit_then_gate f a made = do
    _ ←
        attempt (λ e. codes "jitgen run: cannot write report: " ++ e)
          (c.stdout (c.render made a.format))
    if not a.fail_on_catch then pure disabled else gate f a made

  unfoldable pub write_tests : RunArgs F → RunReport F → Exec W ℕ (GateVerdict F)
  unfolding ◌>>=◌ pure attempt print print_all show_nat
  write_tests a made = do
    written ← attempt (λ e. codes "jitgen run: --write failed: " ++ e) (c.apply a.repo made)
    _ ← print (
        codes "jitgen: wrote " ++ show_nat (length written) ++ codes " test file(s) into the repo:")
    _ ← print_all written
    pure disabled

  unfoldable pub write_patch_file : Text → RunReport F → Exec W ℕ (GateVerdict F)
  unfolding ◌>>=◌ pure attempt print safe_for_terminal
  write_patch_file out made = do
    _ ←
        attempt (λ e. codes "jitgen run: cannot write patch to " ++ out ++ codes ": " ++ e)
          (c.write_patch out (c.render made patch))
    _ ← print (codes "jitgen: wrote patch to " ++ safe_for_terminal out 512)
    pure disabled

  unfoldable pub emit : Float F → RunArgs F → RunReport F → Exec W ℕ (GateVerdict F)
  unfolding write_tests write_patch_file emit_then_gate
  emit f a made =
      if a.write then write_tests a made else elim a.patch_out as (λ o. Exec W ℕ (GateVerdict F)) [
        | some out ↦ write_patch_file out made
        | none ↦ emit_then_gate f a made
      ]

  -- `if let Some(hint) = ... { writeln!(stderr, hint) }`.
  unfoldable pub note_if : Bool → Text → Exec W ℕ (Unit {0})
  unfolding note pure
  note_if t text = if t then note text else pure tt

  is_mock : ProviderConfig → Bool
  is_mock p = elim p.kind [ mock ↦ true | other ↦ not p.real_llm ]

  is_harden : Mode → Bool
  is_harden harden = true
  is_harden catch = false

  -- `mock_empty_run_hint`, whether it has a text.
  unfoldable pub wants_empty_run_hint : TrustedConfig → RunReport F → Bool
  unfolding is_mock is_harden
  wants_empty_run_hint trusted made =
      is_mock trusted.provider
      && is_harden made.mode
      && not (not (is_empty made.accepted_list) || not (is_empty made.catches_list))

  -- `gate_modifiers_without_master_note`, whether it has a text.
  unfoldable pub wants_modifiers_note : RunArgs F → Bool
  wants_modifiers_note a = not a.fail_on_catch && (a.warn_only || is_given a.baseline)

  -- `print_gate_summary`: nothing without findings.
  unfoldable pub print_gate_summary : GateVerdict F → F → Exec W ℕ (Unit {0})
  unfolding note pure
  print_gate_summary (advisory fs) threshold = note (c.summary (advisory fs) threshold)
  print_gate_summary (triggered fs) threshold = note (c.summary (triggered fs) threshold)
  print_gate_summary verdict threshold = pure tt

  -- The notes and the exit code behind the artifact.
  unfoldable pub conclude :
      RunArgs F → TrustedConfig → RunReport F → GateVerdict F → Exec W ℕ (Unit {0})
  unfolding ◌>>=◌ note_if wants_empty_run_hint wants_modifiers_note print_gate_summary is_failure
      stop pure
  conclude a trusted made verdict = do
    _ ← note_if (wants_empty_run_hint trusted made) c.empty_run_hint
    _ ← note_if (wants_modifiers_note a) c.modifiers_note
    _ ← print_gate_summary verdict a.fail_threshold
    if is_failure verdict then stop 3 else pure tt

  unfoldable pub refuse_rules : Exec W ℕ (Unit {0})
  unfolding ◌>>=◌ eprint stop safe_for_terminal
  refuse_rules = do
    _ ← eprint (safe_for_terminal (codes "jitgen run: " ++ catch_refusal) error_msg_cap)
    stop 2

  unfoldable pub run_and_emit : Float F → RunArgs F → TrustedConfig → Exec W ℕ (Unit {0})
  unfolding ◌>>=◌ attempt emit conclude
  run_and_emit f a trusted = do
    made ← attempt (λ e. codes "jitgen run: " ++ e) (c.run a.repo a.base a.head trusted)
    verdict ← emit f a made
    conclude a trusted made verdict

  unfoldable pub cmd_run :
      Float F → ConfigHost → (Text → Option Text) → RunArgs F → Exec W ℕ (Unit {0})
  unfolding ◌>>=◌ attempt of_result resolve_trusted validate_output_rules refuse_rules pure
      run_and_emit
  cmd_run f h env a = do
    trusted ←
        attempt (λ e. codes "jitgen run: " ++ c.failure_text e)
          (of_result (resolve_trusted h a.flags a.repo env))
    _ ←
        if validate_output_rules trusted.mode a.write (is_given a.patch_out)
        then pure tt
        else refuse_rules
    run_and_emit f a trusted

-- The process's exit code.
abbrev pub exit_code : {W : Type 0} → Result ℕ (Unit {0}) × W → ℕ
exit_code (ok u, w) = 0
exit_code (err code, w) = code
