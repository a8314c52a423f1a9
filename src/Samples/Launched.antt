-- ===== src/Samples/Launched.antt =====
-- A scripted operating system whose state is its clock, and what follows for runs on it.
use jitgen.Core.Model.{Redaction}
use jitgen.Prelude.{
  List, Option, [], arith, false, if◌then◌else◌, ltb, none, some, suc, true, zero, ℕ, ◌++◌, ◌+◌,
  ◌∷◌, ◌≡◌,
}
use jitgen.Prelude.Result.{ok}
use jitgen.Prelude.Str.{Text, codes}
use jitgen.Samples.Sandboxed.{parent_sample, plan_sample, policy_sample}
use jitgen.Sandbox.Backend.{netns_helper}
use jitgen.Sandbox.Capstone.{Files, RunRequest, Sandbox, absent}
use jitgen.Sandbox.Capstone.Whole.{Sandboxed}
use jitgen.Sandbox.Command.{start_sentinel}
use jitgen.Sandbox.Os.{Os, Read, Stream, chunk, err_stream, out_stream}
use jitgen.Sandbox.Policy.{argv}
use jitgen.Sandbox.Run.{wait_loop}
use jitgen.Sandbox.Run.Waiting.{Ticking, wait_loop-fuel}

-- Children end with code 1 at 40 ms, after the sentinel line and one more.
abbrev os_sample : Os ℕ
os_sample = record {
  is_executable = λ p w. true;
  spawn = λ l w. (ok 7, w + 1);
  try_wait = λ child w.
      (ok (if ltb w 40 then none else some (record { code = some 1; signal = none })), w);
  wait = λ child w. (ok (record { code = some 1; signal = none }), w);
  kill = λ child w. w;
  status = λ l w. w;
  now = λ w. w;
  sleep = λ d w. w + suc d;
  reads = λ child stream w.
      ((chunk (start_sentinel ++ 10 ∷ codes "panicked" ++ 10 ∷ []) ∷ [], true), w);
}

abbrev ticking_sample : Ticking os_sample
ticking_sample = record { looks = λ child w. omega arith; sleeps = λ w. omega arith }

abbrev unredacted : Text → Redaction
unredacted s = record { text = s; redacted = false }

wait_loop-fuel_example :
    wait_loop os_sample 101 7 plan_sample 100 0 ≡ wait_loop os_sample 500 7 plan_sample 100 0
wait_loop-fuel_example =
    wait_loop-fuel os_sample ticking_sample 7 plan_sample 100 101 500 0 (omega arith) (omega arith)

abbrev files_sample : Files ℕ
files_sample = record {
  canonicalize = λ p w. ok p;
  symlink_metadata = λ p w. absent;
  create_dir = λ p w. (ok tt, w);
  process_env = λ w. parent_sample;
}

abbrev sandbox_sample : Sandbox
sandbox_sample = record { backend = netns_helper; policy = policy_sample; warnings = [] }

abbrev request_sample : RunRequest
request_sample = record {
  command = argv (codes "cargo") (codes "test" ∷ []);
  overlay_root = codes "/w/overlay";
  state_root = codes "/w/state";
  instance_id = codes "run-1_c0";
  run_as = none;
}

abbrev listen_sample : ℕ → Option ℕ × ℕ
listen_sample w = (some 4711, w)

-- A launcher that cuts the network: the script reaches the listener only as the control.
abbrev os_cutting : Os ℕ
os_cutting = record os_sample {
  spawn = λ l w. (ok w, suc w);
  try_wait = λ child w. (ok (some (record { code = some 0; signal = none })), w);
  reads = λ child stream w. ((reads_of child stream, true), w);
}
  where
    reads_of : ℕ → Stream → List Read
    reads_of zero out_stream = chunk (codes "NET_OK") ∷ []
    reads_of (suc n) out_stream = chunk (codes "NET_DENIED") ∷ []
    reads_of n err_stream = []
