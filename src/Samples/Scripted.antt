-- ===== src/Samples/Scripted.antt =====
-- A scripted host: one reply, tests that pass on base and fail on mutants, and a chosen head outcome.
use jitgen.Core.Classify.{strong_catch}
use jitgen.Core.Model.{
  CatchExecution, ContextBundle, ExecOutcome, ExecutionResult, Mode, TestCandidate, dodgy_diff,
  failed, function, passed,
}
use jitgen.Feedback.Assess.{AssessConfig, Json, assess}
use jitgen.Feedback.Host.{
  FeedbackError, Host, Keeps, Prompt, Run, Variant, ask, base, execute, execute_existing, head,
  mutant, ran, ran_existing,
}
use jitgen.Feedback.Intent.{GenTarget, Prompts}
use jitgen.Feedback.Repair.Sound.{Screened}
use jitgen.Feedback.Strategy.{StrategyConfig}
use jitgen.Llm.Validate.{validate_candidate}
use jitgen.Orchestrator.Process.{RankedTarget, RunConfig}
use jitgen.Prelude.{[], false, none, refl, some, suc, true, ℕ, ◌≡◌}
use jitgen.Prelude.Effect.{map_err}
use jitgen.Prelude.Result.{ok}
use jitgen.Prelude.Str.{Text, codes, is_whitespace, len, lower_char}
use jitgen.Samples.Numbers.{tenths}

abbrev pub reply : Text
reply = codes "```\npath: src/a.rs\nassert_eq!(1, 1);\n```\n"

abbrev pub result_of : ExecOutcome → ExecutionResult
result_of o = record {
  outcome = o;
  exit_code = some 0;
  duration_ms = 1;
  truncated = false;
  stdout = [];
  stderr = codes "assertion failed: expected 1";
}

abbrev pub on_variant : ExecOutcome → Variant → ExecutionResult
on_variant o base = result_of passed
on_variant o head = result_of o
on_variant o (mutant m) = result_of failed

abbrev pub answer : ExecOutcome → Run → ExecutionResult
answer o (ran c v) = on_variant o v
answer o (ran_existing v) = result_of passed

-- The world counts the calls; `redact` changes nothing.
abbrev pub scripted : ExecOutcome → Host ℕ
scripted o = record {
  generate = λ req w. (ok reply, suc w);
  run_candidate = λ c v w. (ok (on_variant o v), suc w);
  run_existing = λ v w. (ok (result_of passed), suc w);
  redact = λ s. record { text = s; redacted = false };
}

abbrev pub Nothing : ℕ → Type 0
Nothing w = Unit

abbrev pub Never : FeedbackError → ℕ → Type 0
Never e w = ⊥

-- No call fails, and each run is answered by the script.
pub scripted-Keeps :
    (o : ExecOutcome) → Keeps (scripted o) Nothing Screened (λ u r. r ≡ answer o u) Never
unfolding ask execute execute_existing map_err
scripted-Keeps o = record {
  generates = λ req. record { run = λ w p. tt };
  runs = λ c v s. record { run = λ w p. (tt, refl) };
  probes = λ v. record { run = λ w p. (tt, refl) };
}

abbrev pub blank_prompt : Prompt
blank_prompt = record { system = []; user = [] }

abbrev pub prompts : Prompts
prompts = record {
  harden_prompt = λ c. blank_prompt;
  dodgy_diff_prompt = λ c. blank_prompt;
  infer_risks_prompt = λ c. blank_prompt;
  make_mutants_prompt = λ c rs. blank_prompt;
  killing_test_prompt = λ c m. blank_prompt;
  judge_prompt = λ t. blank_prompt;
  render_prompt = λ c m s l hs. blank_prompt;
}

-- A JSON reader that finds nothing.
abbrev pub json : Json ℕ Text
json = record { from_str = λ s. none; get = λ j k. none; as_f64 = λ j. none; as_str = λ j. none }

abbrev pub context : ContextBundle
context = record {
  target = codes "t1";
  items = [];
  budget = record { max_tokens = 100; max_files = 4; max_bytes_per_file = 1000 };
  redacted = false;
}

abbrev pub gen_target : GenTarget
gen_target = record { language = codes "rust"; symbol = none; rel_path = codes "tests/a.rs" }

abbrev pub ranked : RankedTarget ℕ
ranked = record {
  target = record {
    id = codes "t1";
    adapter = codes "rust";
    path = codes "src/a.rs";
    symbol = some (codes "f");
    kind = function;
    span = record { start = 3; end = 5 };
    risk = 5;
  };
  score = 5;
  rationale = [];
}

abbrev pub budgets : StrategyConfig
budgets = record { num_candidates = 2; max_mutants = 3 }

abbrev pub thresholds : AssessConfig ℕ
thresholds = record { strong_threshold = 7; weak_threshold = 3 }

abbrev pub config : Mode → RunConfig ℕ
config m = record {
  mode = m;
  strategy = dodgy_diff;
  strategy_cfg = budgets;
  max_attempts = 2;
  reruns = 2;
  assess_cfg = thresholds;
  real_llm = true;
  surface_evidence = true;
}

abbrev pub candidate : TestCandidate
candidate = record {
  target = codes "t1";
  rel_path = codes "tests/a.rs";
  source = codes "x";
  test_name = none;
  attempt = 0;
}

abbrev pub weak_pair : CatchExecution
weak_pair = record { base = result_of passed; head = result_of failed }

pub candidate-Screened : Screened candidate
unfolding validate_candidate lower_char len is_whitespace
candidate-Screened = refl

pub weak_pair-strong :
    (assess tenths json
      (some (scripted failed).generate)
      (scripted failed).redact
      prompts.judge_prompt
      weak_pair
      true
      (some context)
      thresholds
      0).0.decision
    ≡ strong_catch
unfolding assess lower_char
weak_pair-strong = refl

pub weak_pair-strong_alone :
    (assess tenths json {W = ℕ} none
      (scripted failed).redact
      prompts.judge_prompt
      weak_pair
      true
      (some context)
      thresholds
      0).0.decision
    ≡ strong_catch
unfolding assess lower_char
weak_pair-strong_alone = refl
