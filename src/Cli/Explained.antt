-- ===== src/Cli/Explained.antt =====
-- What an exit code of the command says, and the calls and the output that lead to one.
use jitgen.Cli.Run.{
  Console, RunArgs, attempt, emit, emit_then_gate, eprint, error_msg_cap, fail, gate, is_given,
  load_baseline, note, or_fail, patch, print, print_all, printed, safe_for_terminal, stop,
  write_patch_file, write_tests,
}
use jitgen.Core.Model.{catch}
use jitgen.Orchestrator.Config.{ConfigFailure, ConfigHost, resolve_trusted}
use jitgen.Orchestrator.Gate.{Baseline, GateVerdict, disabled, gate_exit_code, is_failure}
use jitgen.Prelude.{
  Bool, List, Option, [], ap, false, if◌then◌else◌, inl, inr, none, not, refl, some, true, ℕ, ◌++◌,
  ◌||◌, ◌∷◌, ◌≡◌, ◌⊎◌,
}
use jitgen.Prelude.Effect.{Exec, Post, Triple, Triple-bind, Triple-pure, pure, ◌>>=◌}
use jitgen.Prelude.Float.{Float}
use jitgen.Prelude.Result.{Result, err, ok}
use jitgen.Prelude.Str.{Text, codes}
use jitgen.Report.Model.{RunReport}
use jitgen.Sandbox.Os.{of_result}
use jitgen.Sandbox.Policy.{TrustedConfig}

module _ {W F : Type 0} (f : Float F) (h : ConfigHost) (env : Text → Option Text) (c : Console W F)
    (a : RunArgs F) where
  -- The settings that the run works with.
  abbrev pub IsEffective : TrustedConfig → Type 0
  IsEffective trusted = resolve_trusted h a.flags a.repo env ≡ ok trusted

  -- What was put out of a report before its verdict was given.
  pub data Emitted (made : RunReport F) : GateVerdict F → Type 0 where
    applied :
        (paths : List Text) (w : W)
        → a.write ≡ true
        → (c.apply a.repo made w).0 ≡ ok paths
        → Emitted made disabled
    patched :
        (out : Text) (w : W)
        → a.write ≡ false
        → a.patch_out ≡ some out
        → (c.write_patch out (c.render made patch) w).0 ≡ ok tt
        → Emitted made disabled
    ungated :
        (w : W)
        → a.write ≡ false
        → a.patch_out ≡ none
        → (c.stdout (c.render made a.format) w).0 ≡ ok tt
        → a.fail_on_catch ≡ false
        → Emitted made disabled
    judged :
        (w : W) (b : Baseline)
        → a.write ≡ false
        → a.patch_out ≡ none
        → (c.stdout (c.render made a.format) w).0 ≡ ok tt
        → a.fail_on_catch ≡ true
        → load_baseline c a.baseline ≡ ok b
        → Emitted made (gate_exit_code f made a.fail_threshold b a.warn_only true)

  -- A report of the run under the effective settings, put out.
  pub record Reported (verdict : GateVerdict F) : Type 0 where
    pub trusted : TrustedConfig
    pub effective : IsEffective trusted
    pub made : RunReport F
    pub before : W
    pub produced : (c.run a.repo a.base a.head trusted before).0 ≡ ok made
    pub emitted : Emitted made verdict

  -- A call of the command that failed.
  pub data Failed : Type 0 where
    config_failed : (e : ConfigFailure) → resolve_trusted h a.flags a.repo env ≡ err e → Failed
    run_failed :
        (trusted : TrustedConfig) (w : W) (e : Text)
        → IsEffective trusted
        → (c.run a.repo a.base a.head trusted w).0 ≡ err e
        → Failed
    apply_failed :
        (made : RunReport F) (w : W) (e : Text)
        → a.write ≡ true
        → (c.apply a.repo made w).0 ≡ err e
        → Failed
    patch_failed :
        (out : Text) (made : RunReport F) (w : W) (e : Text)
        → a.patch_out ≡ some out
        → (c.write_patch out (c.render made patch) w).0 ≡ err e
        → Failed
    report_failed :
        (made : RunReport F) (w : W) (e : Text)
        → (c.stdout (c.render made a.format) w).0 ≡ err e
        → Failed
    baseline_failed :
        (e : Text) → a.fail_on_catch ≡ true → load_baseline c a.baseline ≡ err e → Failed

  -- What a code other than 0 says.
  pub data Exit : ℕ → Type 0 where
    runtime_error : Failed → Exit 1
    panicked :
        (text e : Text) (w : W)
        → ((c.stdout text w).0 ≡ err e) ⊎ ((c.stderr text w).0 ≡ err e)
        → Exit 101
    misused :
        (trusted : TrustedConfig)
        → IsEffective trusted
        → trusted.mode ≡ catch
        → (a.write || is_given a.patch_out) ≡ true
        → Exit 2
    gated : (verdict : GateVerdict F) → Reported verdict → is_failure verdict ≡ true → Exit 3

  -- Started anywhere: a value has `Q`, and a code is explained.
  abbrev pub Explained : {A : Type 0} → Exec W ℕ A → (A → Type 0) → Type 0
  Explained m Q = Triple (λ w. Unit {0}) m (λ x w. Q x) (λ code w. Exit code)

  pub Explained-bind :
      {A B : Type 0} {Q : B → Type 0} (P : A → Type 0) (m : Exec W ℕ A) (k : A → Exec W ℕ B)
      → Explained m P
      → ((x : A) → P x → Explained (k x) Q)
      → Explained (m >>= k) Q
  Explained-bind P m k t n = Triple-bind m k t λ x. record { run = λ w p. (n x p).run w tt }

  -- A line that is printed, or the stream's failure.
  of_printed :
      (text : Text) (w : W) (r : Result Text (Unit {0}) × W)
      → ((e : Text) → r.0 ≡ err e → ((c.stdout text w).0 ≡ err e) ⊎ ((c.stderr text w).0 ≡ err e))
      → Post (λ x v. Unit {0}) (λ code v. Exit code) (printed c r)
  unfolding printed
  of_printed text w (ok x, v) k = tt
  of_printed text w (err y, v) k = panicked text y w (k y refl)

  pub Explained-eprint : (text : Text) → Explained (eprint c text) (λ u. Unit)
  unfolding eprint printed
  Explained-eprint text = record { run = λ w u. of_printed text w (c.stderr text w) (λ e p. inr p) }

  Explained-print : (text : Text) → Explained (print c text) (λ u. Unit)
  unfolding print printed
  Explained-print text = record { run = λ w u. of_printed text w (c.stdout text w) (λ e p. inl p) }

  pub stopped :
      {A : Type 0} {Q : A → Type 0} {code : ℕ} → Exit code → Explained (stop c {A = A} code) Q
  unfolding stop
  stopped e = record { run = λ w u. e }

  Explained-line : (text : Text) → Explained (note c text) (λ u. Unit)
  unfolding note
  Explained-line text = record { run = λ w u. tt }

  Explained-fail : {A : Type 0} {Q : A → Type 0} (msg : Text) → Failed → Explained (fail c msg) Q
  unfolding fail
  Explained-fail msg failed =
      Explained-bind (λ u. Unit) (eprint c (safe_for_terminal msg error_msg_cap)) _
        (Explained-eprint _)
        λ u p.
          Explained-bind (λ u. Unit) (note c (c.hint msg)) _ (Explained-line (c.hint msg))
            λ u q. stopped (runtime_error failed)

  -- A value of a call is one that the call gave at some world, and so is an error.
  pub attempted :
      {E A : Type 0} (text : E → Text) (m : Exec W E A)
      → ((w : W) (e : E) → (m w).0 ≡ err e → Failed)
      → Explained (attempt c text m) (λ x. (w : W) × ((m w).0 ≡ ok x))
  unfolding attempt or_fail
  attempted {E = E} {A = A} text m failed = record { run = λ w u. of_call w (m w) refl }
    where
      of_call :
          (w : W) (r : Result E A × W)
          → m w ≡ r
          → Post (λ x v. (w : W) × ((m w).0 ≡ ok x)) (λ code v. Exit code) (or_fail c text r)
      of_call w (ok x, v) e = (w, ap (λ r. r.0) e)
      of_call w (err y, v) e =
          (Explained-fail {Q = λ x. (w : W) × ((m w).0 ≡ ok x)} (text y)
              (failed w y (ap (λ r. r.0) e))).run
            v tt

  pub Explained-pure : {A : Type 0} {Q : A → Type 0} (x : A) → Q x → Explained (pure x) Q
  Explained-pure x q = Triple-pure x λ w u. q

  Explained-all : (paths : List Text) → Explained (print_all c paths) (λ u. Unit)
  unfolding print_all
  Explained-all [] = Explained-pure tt tt
  Explained-all (p ∷ ps) =
      Explained-bind (λ u. Unit) (print c _) _ (Explained-print _) λ u v. Explained-all ps

  module _ (made : RunReport F) where
    Explained-gate :
        (w : W)
        → a.write ≡ false
        → a.patch_out ≡ none
        → (c.stdout (c.render made a.format) w).0 ≡ ok tt
        → a.fail_on_catch ≡ true
        → Explained (gate c f a made) (Emitted made)
    unfolding gate of_result
    Explained-gate w no_write no_patch out on =
        Explained-bind (λ b. (w : W) × (load_baseline c a.baseline ≡ ok b))
          (attempt c (λ e. codes "jitgen run: " ++ e) (of_result (load_baseline c a.baseline)))
          (λ b. pure (gate_exit_code f made a.fail_threshold b a.warn_only true))
          (attempted (λ e. codes "jitgen run: " ++ e) (of_result (load_baseline c a.baseline))
            λ w e failed. baseline_failed e on failed)
          λ b (v, loaded). Explained-pure _ (judged w b no_write no_patch out on loaded)

    Explained-emit_then_gate :
        a.write ≡ false → a.patch_out ≡ none → Explained (emit_then_gate c f a made) (Emitted made)
    unfolding emit_then_gate
    Explained-emit_then_gate no_write no_patch =
        Explained-bind (λ u. (w : W) × ((c.stdout (c.render made a.format) w).0 ≡ ok u))
          (attempt c (λ e. codes "jitgen run: cannot write report: " ++ e)
            (c.stdout (c.render made a.format)))
          _
          (attempted (λ e. codes "jitgen run: cannot write report: " ++ e)
            (c.stdout (c.render made a.format)) λ w e failed. report_failed made w e failed)
          λ u out. of_switch a.fail_on_catch refl out
      where
        of_switch :
            (t : Bool)
            → a.fail_on_catch ≡ t
            → ((v : W) × ((c.stdout (c.render made a.format) v).0 ≡ ok tt))
            → Explained (if not t then pure disabled else gate c f a made) (Emitted made)
        of_switch true e (w, out) = Explained-gate w no_write no_patch out e
        of_switch false e (w, out) = Explained-pure disabled (ungated w no_write no_patch out e)

    Explained-write_tests : a.write ≡ true → Explained (write_tests c a made) (Emitted made)
    unfolding write_tests
    Explained-write_tests wanted =
        Explained-bind (λ p. (w : W) × ((c.apply a.repo made w).0 ≡ ok p))
          (attempt c (λ e. codes "jitgen run: --write failed: " ++ e) (c.apply a.repo made)) _
          (attempted (λ e. codes "jitgen run: --write failed: " ++ e) (c.apply a.repo made)
            λ w e failed. apply_failed made w e wanted failed)
          λ paths (w, done).
            Explained-bind (λ u. Unit) (print c _) _ (Explained-print _)
              λ u q.
                Explained-bind (λ u. Unit) (print_all c paths) _ (Explained-all paths)
                  λ u r. Explained-pure disabled (applied paths w wanted done)

    Explained-write_patch :
        (out : Text)
        → a.write ≡ false
        → a.patch_out ≡ some out
        → Explained (write_patch_file c out made) (Emitted made)
    unfolding write_patch_file
    Explained-write_patch out no_write wanted =
        Explained-bind (λ u. (w : W) × ((c.write_patch out (c.render made patch) w).0 ≡ ok u))
          (attempt c (λ e. codes "jitgen run: cannot write patch to " ++ out ++ codes ": " ++ e)
            (c.write_patch out (c.render made patch)))
          _
          (attempted (λ e. codes "jitgen run: cannot write patch to " ++ out ++ codes ": " ++ e)
            (c.write_patch out (c.render made patch))
            λ w e failed. patch_failed out made w e wanted failed)
          λ u (w, done).
            Explained-bind (λ u. Unit) (print c _) _ (Explained-print _)
              λ u q. Explained-pure disabled (patched out w no_write wanted done)

    pub Explained-emit : Explained (emit c f a made) (Emitted made)
    unfolding emit
    Explained-emit = of_out a.write a.patch_out refl refl
      where
        of_out :
            (t : Bool) (o : Option Text)
            → a.write ≡ t
            → a.patch_out ≡ o
            → Explained
                (if t then write_tests c a made else elim o as (λ o. Exec W ℕ (GateVerdict F)) [
                  | some out ↦ write_patch_file c out made
                  | none ↦ emit_then_gate c f a made
                ])
                (Emitted made)
        of_out true o e p = Explained-write_tests e
        of_out false (some out) e p = Explained-write_patch out e p
        of_out false none e p = Explained-emit_then_gate e p
