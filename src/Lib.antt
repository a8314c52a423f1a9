-- ===== src/Lib.antt =====
-- Verification of jitgen, which generates tests for the changes of a git repository, runs them in a
-- sandbox on the parent and on the changed revision, and reports or lands what they show.
--
-- Program and files (paths are from the repository's root):
-- - Prelude: shared types and lemmas. Prelude.Str has Rust strings as lists of Unicode scalar values,
--   with byte lengths and character boundaries; Prelude.Effect has calls of an outside world that
--   return a value or an error and leave a world behind, with total-correctness triples about them;
--   Prelude.Float has the `f64` operations as a parameter, with the IEEE 754 facts that proofs use.
--   Prelude.Paths has Rust's path components on Unix, Prelude.Split the lemmas of splitting and
--   joining, Prelude.TextMap a sorted map of texts, Prelude.Numbers Rust's parsing of unsigned
--   integers, and Prelude.Int the integers that stand for an `i64`.
-- - Core: crates/jitgen-core (modes, classes, candidates, mutants, contexts, ranges, targets), and in
--   Core.Config its config.rs, the untrusted settings of a repository.
-- - Adapters: crates/jitgen-adapters/src/glob.rs, both loops of the pattern matcher.
-- - Intake: crates/jitgen-gitintake/src/filter.rs, and of intake.rs the path guard, the reading of
--   blobs and (Intake.Diff) the diff of two revisions with its caps, with git2 as a parameter.
-- - Sandbox: crates/jitgen-sandbox/src. Policy and Backend model policy.rs and backend.rs; Env and
--   DenyList model env.rs, the environment of the child; Sbpl, Command and Plans model sbpl.rs and
--   command.rs, the checks of a request and the argument vector of every backend; Which and User model
--   which.rs and user.rs; Capture and Run model run.rs, the watchdog, the captured streams and the
--   report; Detect models detect.rs, the probes of the host; Capstone models sandbox.rs, the whole run
--   of a request; Classify models classify.rs, and Pairing joins it to `from_catch`. Os has the
--   operations of std::process, std::fs and std::time as a parameter.
-- - Llm: crates/jitgen-llm/src/{util,parse,validate}.rs.
-- - Context: crates/jitgen-context/src/packager.rs, the budget of a prompt's context.
-- - Feedback: crates/jitgen-feedback. Host has the provider, the executor, the redactor and their
--   errors as a parameter; Flake, Minimize, Repair, Llmstep, Intent and Strategy model flake.rs,
--   minimize.rs, repair.rs, llmstep.rs, strategy/intent_aware.rs and strategy/mod.rs; Rules and Assess
--   model assess/.
-- - Report: crates/jitgen-report/src/{model,escape}.rs.
-- - Materialize: crates/jitgen-materialize/src/placement.rs.
-- - Orchestrator: crates/jitgen-orchestrator. Process models process.rs and composes the parts above:
--   generation, repair, flake filter, assessment, landing and reporting. Gate models gate.rs. Drive
--   models the loop over targets of run.rs, with its checkpoints, and the report's assembly. Patch
--   models patchapply.rs, the application of a unified diff. Checkout models checkout.rs, the files
--   of a revision written into an overlay, with the file system as a parameter. Config models
--   config.rs, the trusted settings of a run, and Select models targetsel.rs, the ranking of targets.
-- - Cli: crates/jitgen-cli/src/cli.rs, the command `run` behind clap's reading of the arguments, with
--   the console and the stages of a run as a parameter.
-- - State: crates/jitgen-state/src/{model,store,fsutil}.rs: step and artifact tables, files and the
--   index of runs. Drive's world is this state beside the world of the provider and the executor.
-- - Samples: concrete inputs and a scripted host, at which the theorems are applied.
--
-- State and effects: a function that calls the provider or the executor is an `Exec`, a function
-- from a world to a result and the next world. `Keeps` states what a proof knows of the world: an
-- invariant that each call keeps, provided that only screened candidates are run, what is recorded
-- of each run, and what holds when a call fails. A theorem about an `Exec` covers every answer of
-- the provider and every result of the sandbox. Mutable outcomes of the source are passed along and
-- returned.
--
-- Stored outcomes: `serde_json` without `float_roundtrip` does not promise that a float reads back as it
-- was written, and it writes a NaN or an infinity as `null`. So what the checkpoints assume of it
-- (`StoresOutcomes` in Orchestrator/Drive/Stored.antt) is that an outcome whose probabilities are finite
-- reads back with every part but these as it was.
--
-- Numbers: `usize`, `u32` and `u16` are natural numbers, with the cast to `u16` of an attempt
-- written out as `% 2 ^ 16`, the ends of a diff's hunks as `% 2 ^ 32`, and `saturating_add` with
-- its bound. Most loops are structural recursion on a list or on the rounds that are left. These
-- run on fuel: the loops that wait for a process, with the rounds until their deadline, which are
-- enough for the watchdog when sleeping moves the clock on; the matcher of patterns, for which
-- (length of the text + 1) * (length of the pattern + 1) rounds are enough; and the loop over a
-- diff's lines, for which their number is enough.
--
-- Not modelled: the git and file systems below their calls, the opening of repositories, HTTP,
-- serde, the redaction rules, prompt texts, symbol extraction, the exporters' layout, the texts of
-- hints and the other commands of the command line. Prompt texts and redaction are arbitrary
-- functions.
pub mod Adapters
pub mod Cli
pub mod Context
pub mod Core
pub mod Feedback
pub mod Intake
pub mod Llm
pub mod Materialize
pub mod Orchestrator
pub mod Prelude
pub mod Report
pub mod Samples
pub mod Sandbox
pub mod State
