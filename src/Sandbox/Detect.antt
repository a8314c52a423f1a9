-- ===== src/Sandbox/Detect.antt =====
-- crates/jitgen-sandbox/src/detect.rs: probing the host for backends. Times are in milliseconds.
-- `listen` binds the live listener, checks that it can be reached, and gives its port.
pub mod Proof
use jitgen.Prelude.{
  Bool, List, Option, [], false, if◌then◌else◌, leb, none, not, some, suc, true, zero, ℕ, ◌&&◌, ◌*◌,
  ◌++◌, ◌+◌, ◌==◌, ◌||◌, ◌∷◌,
}
use jitgen.Prelude.Result.{Result, err, ok}
use jitgen.Prelude.Str.{Text, codes, contains, show_nat}
use jitgen.Sandbox.Backend.{
  Backend, TargetOs, Tier, availability_probe, behavioral_net_probe, container,
  has_silent_degradation_mode, linux, netns_helper, os_candidates, stderr_shows_silent_degradation,
  tier,
}
use jitgen.Sandbox.Capture.{collected}
use jitgen.Sandbox.Os.{Os, err_stream, out_stream}
use jitgen.Sandbox.Run.{kill_process_group, resolve_now, rounds_until}

abbrev probe_timeout : ℕ
probe_timeout = 5000

abbrev probe_stream_cap : ℕ
probe_stream_cap = 16 * 1024

abbrev pub sentinel_net_ok : Text
sentinel_net_ok = codes "NET_OK"

abbrev pub sentinel_net_denied : Text
sentinel_net_denied = codes "NET_DENIED"

abbrev sentinel_no_probe_tool : Text
sentinel_no_probe_tool = codes "NO_PROBE_TOOL"

pub record ProbeOutcome : Type 0 where
  pub success : Bool
  pub stdout : Text
  pub stderr : Text

unfoldable pub probe_is_available : Backend → ProbeOutcome → Bool
unfolding stderr_shows_silent_degradation
probe_is_available b outcome =
    outcome.success && not (stderr_shows_silent_degradation b outcome.stderr)

pub data NetVerdict : Type 0 where
  denied net_open inconclusive : NetVerdict

verdict_eq : NetVerdict → NetVerdict → Bool
verdict_eq denied denied = true
verdict_eq net_open net_open = true
verdict_eq inconclusive inconclusive = true
verdict_eq a b = false

loopback_probe_body : ℕ → Text
unfolding show_nat
loopback_probe_body port =
    codes "if command -v nc >/dev/null 2>&1; then nc -z -w 1 127.0.0.1 "
    ++ show_nat port
    ++ codes " >/dev/null 2>&1 && echo "
    ++ sentinel_net_ok
    ++ codes " || echo "
    ++ sentinel_net_denied
    ++ codes "; elif command -v bash >/dev/null 2>&1; then bash -c 'exec 3<>/dev/tcp/127.0.0.1/"
    ++ show_nat port
    ++ codes "' >/dev/null 2>&1 && echo "
    ++ sentinel_net_ok
    ++ codes " || echo "
    ++ sentinel_net_denied
    ++ codes "; else echo "
    ++ sentinel_no_probe_tool
    ++ codes "; fi"

unfoldable pub net_probe_script : ℕ → Text
unfolding loopback_probe_body
net_probe_script port =
    codes "PATH=/usr/bin:/bin:/usr/sbin:/sbin; export PATH; " ++ loopback_probe_body port

unfoldable pub net_probe_verdict : Text → NetVerdict
unfolding contains
net_probe_verdict stdout =
    if contains stdout sentinel_net_ok
    then net_open
    else if contains stdout sentinel_net_denied
    then denied
    else inconclusive

pub record BehavioralProbe : Type 0 where
  pub outcome : ProbeOutcome
  pub control_verdict : NetVerdict
  pub isolated_verdict : NetVerdict

unfoldable pub behavioral_probe_confirms_isolation : Backend → BehavioralProbe → Bool
unfolding verdict_eq probe_is_available
behavioral_probe_confirms_isolation b p =
    verdict_eq p.control_verdict net_open
    && probe_is_available b p.outcome
    && verdict_eq p.isolated_verdict denied

unfoldable pub behavioral_probe_shows_degradation : Backend → BehavioralProbe → Bool
unfolding verdict_eq stderr_shows_silent_degradation
behavioral_probe_shows_degradation b p =
    stderr_shows_silent_degradation b p.outcome.stderr || verdict_eq p.isolated_verdict net_open

module _ {W : Type 0} (os : Os W) (lossy : List ℕ → Text) (listen : W → Option ℕ × W) where
  succeeded : Option ℕ → Bool
  succeeded none = false
  succeeded (some code) = code == 0

  -- The waiting loop of `probe`: whether the child exited with success in time.
  probe_loop : ℕ → ℕ → ℕ → W → Bool × W
  unfolding succeeded
  probe_loop zero child deadline w = (false, os.kill child w)
  probe_loop (suc fuel) child deadline w =
      let (ended, w1) = os.try_wait child w in
      let later = probe_loop fuel child deadline (os.sleep 20 w1) in
      elim ended [
        | err e ↦ (false, w1)
        | ok o ↦ elim o [
          | some status ↦ (succeeded status.code, w1)
          | none ↦ if leb deadline (os.now w1) then (false, os.kill child w1) else later
        ]
      ]

  -- The group is swept and the child reaped; then both streams are collected.
  probed : ℕ → Bool × W → ProbeOutcome × W
  unfolding collected kill_process_group
  probed child (success, w) =
      let (reaped, w1) = os.wait child (kill_process_group os child w) in
      let ((outs, out_done), w2) = os.reads child out_stream w1 in
      let ((errs, err_done), w3) = os.reads child err_stream w2 in
      (
        record {
          success = success;
          stdout = lossy (collected probe_stream_cap outs out_done).0;
          stderr = lossy (collected probe_stream_cap errs err_done).0;
        },
        w3,
      )

  probe_spawned : ℕ → Result Text ℕ × W → ProbeOutcome × W
  unfolding probe_loop probed
  probe_spawned bound (err e, w) = (record { success = false; stdout = []; stderr = [] }, w)
  probe_spawned bound (ok child, w) =
      let deadline = os.now w + bound in
      probed child (probe_loop (rounds_until os deadline w) child deadline w)

  -- `probe`; its deadline is taken behind the spawn.
  unfoldable pub probe : Text → List Text → Bool → W → ProbeOutcome × W
  unfolding probe_spawned
  probe program args inherit_env w = probe_spawned probe_timeout (
      os.spawn
        (record {
          program = program;
          args = args;
          cwd = none;
          env = if inherit_env then none else some [];
          own_group = true;
          captured = true;
        })
        w)

  is_container : Tier → Bool
  is_container container = true
  is_container other = false

  probe_backend : Backend → W → Option ProbeOutcome × W
  unfolding availability_probe resolve_now probe is_container tier
  probe_backend b w = elim (availability_probe b) [
    | none ↦ (none, w)
    | some (program, args) ↦ elim (resolve_now os program w) [
      | none ↦ (none, w)
      | some absolute ↦
          let (outcome, w1) = probe absolute args (is_container (tier b)) w in (some outcome, w1)
    ]
  ]

  -- The control run and the isolated run of the same script.
  unfoldable pub behavioral_runs : Text → Text → List Text → W → BehavioralProbe × W
  unfolding probe net_probe_verdict
  behavioral_runs script absolute args w =
      let (control, w1) = probe (codes "/bin/sh") (codes "-c" ∷ script ∷ []) false w in
      let (outcome, w2) = probe absolute args false w1 in
      (
        record {
          outcome = outcome;
          control_verdict = net_probe_verdict control.stdout;
          isolated_verdict = net_probe_verdict outcome.stdout;
        },
        w2,
      )

  -- `probe_behavioral` with a live listener.
  behavioral_at : Backend → Option ℕ × W → Option BehavioralProbe × W
  unfolding behavioral_net_probe net_probe_script resolve_now behavioral_runs
  behavioral_at b (none, w) = (none, w)
  behavioral_at b (some port, w) = elim (behavioral_net_probe b (net_probe_script port)) [
    | none ↦ (none, w)
    | some (program, args) ↦ elim (resolve_now os program w) [
      | none ↦ (none, w)
      | some absolute ↦
          let (p, w1) = behavioral_runs (net_probe_script port) absolute args w in (some p, w1)
    ]
  ]

  unfoldable pub probe_behavioral : Backend → W → Option BehavioralProbe × W
  unfolding behavioral_at
  probe_behavioral b w = behavioral_at b (listen w)

  confirms : Backend → Option BehavioralProbe → Bool
  unfolding behavioral_probe_confirms_isolation
  confirms b none = false
  confirms b (some p) = behavioral_probe_confirms_isolation b p

  shows : Backend → Option BehavioralProbe → Bool
  unfolding behavioral_probe_shows_degradation
  shows b none = false
  shows b (some p) = behavioral_probe_shows_degradation b p

  passes : Backend → Option ProbeOutcome → Bool
  unfolding probe_is_available
  passes b none = false
  passes b (some outcome) = probe_is_available b outcome

  unfoldable pub available : Backend → W → Bool × W
  unfolding has_silent_degradation_mode probe_behavioral probe_backend confirms passes
  available b w =
      let (p, w1) = probe_behavioral b w in
      let (outcome, w2) = probe_backend b w in
      if has_silent_degradation_mode b then (confirms b p, w1) else (passes b outcome, w2)

  -- `backend_silently_degrades`.
  unfoldable pub backend_silently_degrades : Backend → W → Bool × W
  unfolding has_silent_degradation_mode probe_behavioral shows
  backend_silently_degrades b w =
      let (p, w1) = probe_behavioral b w in
      if has_silent_degradation_mode b then (shows b p, w1) else (false, w)

  unfoldable pub detect_among : List Backend → W → List Backend × W
  unfolding available
  detect_among [] w = ([], w)
  detect_among (b ∷ bs) w =
      let (here, w1) = available b w in
      let (rest, w2) = detect_among bs w1 in (if here then b ∷ rest else rest, w2)

  -- `detect`, on the operating system of the build.
  unfoldable pub detect : TargetOs → W → List Backend × W
  unfolding detect_among os_candidates
  detect target w = detect_among (os_candidates target) w

  unfoldable pub netns_helper_available : TargetOs → W → Bool × W
  unfolding available
  netns_helper_available linux w = available netns_helper w
  netns_helper_available other w = (false, w)
