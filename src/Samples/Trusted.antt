-- ===== src/Samples/Trusted.antt =====
-- A diff, a configuration and a command line, and what follows for them.
use mathlib.Core.List.{IsChain, Perm}
use jitgen.Cli.Exits.{Succeeded, cmd_run-Exit}
use jitgen.Cli.Explained.{Exit}
use jitgen.Cli.ReportOnly.{KeepsReporting, cmd_run-report_only}
use jitgen.Cli.Run.{Console, RunArgs, cmd_run, exit_code, patch}
use jitgen.Core.Change.{ChangeSet, Target, renamed_file}
use jitgen.Core.Config.{
  RepoConfig, Yaml, grammar_warning, key_warning, max_repo_config_bytes, parse_yaml,
}
use jitgen.Core.Config.Screened.{GrammarAllowed, Warned, parse_yaml-Warned}
use jitgen.Core.Model.{SymbolKind, catch, function, hunk}
use jitgen.Intake.Blob.{git_failure}
use jitgen.Intake.Diff.{
  DiffDelta, DiffEvent, GitDiff, collect_file_changes, collect_from, delta_renamed, diff_revisions,
  file_event, hunk_event, nothing_collected,
}
use jitgen.Intake.Diff.Admitted.{IntakeBounds, diff_revisions-IntakeBounds}
use jitgen.Intake.Diff.Indexed.{collect_file_changes-scan}
use jitgen.Intake.Diff.Scan.{find_scanned}
use jitgen.Orchestrator.Config.{ConfigHost, PathOf, TrustedFlags, default_trusted, resolve_trusted}
use jitgen.Orchestrator.Config.Resolved.{Resolved}
use jitgen.Orchestrator.Process.{RankedTarget}
use jitgen.Orchestrator.Select.{Scoring, rank_one, select}
use jitgen.Orchestrator.Select.Ranked.{InOrder, select-Ranked}
use jitgen.Prelude.{
  All, List, Option, [], arith, false, if◌then◌else◌, length, ltb, map, none, refl, some, suc, take,
  true, ℕ, ◌+◌, ◌∷◌, ◌≡◌, ◌≤◌, ◌⊎◌,
}
use jitgen.Prelude.Paths.{normal, root_dir}
use jitgen.Prelude.Result.{err, ok, ◌>>=◌}
use jitgen.Prelude.Str.{Text, codes, len, lower_char, text_eq}
use jitgen.Samples.Numbers.{tenths}
use jitgen.Sandbox.Policy.{TrustedConfig}

abbrev renamed_file_delta : DiffDelta
renamed_file_delta = record {
  status = delta_renamed;
  old_file = some (codes "src/.env");
  new_file = some (codes "src/a.rs");
}

abbrev some_events : List DiffEvent
some_events = file_event renamed_file_delta ∷ hunk_event renamed_file_delta 3 2 ∷ []

abbrev no_error : Option Text
no_error = none

abbrev sample_diff : GitDiff
sample_diff = record {
  commit_of = λ rev. some rev;
  find_tree = λ oid. ok tt;
  tree_diff = λ base head. ok 1;
  find_similar = λ base head. ok (some_events, none);
}

abbrev sample_changes : ChangeSet
sample_changes = record {
  base = codes "b";
  head = codes "h";
  files =
      record {
        path = codes "src/a.rs";
        old_path = none;
        kind = renamed_file;
        hunks = record { start = 3; end = 4 } ∷ [];
      }
      ∷ [];
}

diff_test : diff_revisions sample_diff (codes "b") (codes "h") ≡ ok sample_changes
unfolding diff_revisions lower_char
diff_test = refl

diff_revisions-IntakeBounds_example : IntakeBounds sample_changes
diff_revisions-IntakeBounds_example =
    diff_revisions-IntakeBounds sample_diff (codes "b") (codes "h") sample_changes diff_test

collect_file_changes-scan_example : collect_file_changes some_events no_error ≡ (
    collect_from find_scanned some_events nothing_collected >>= λ c. elim no_error [
      | none ↦ ok c.files
      | some e ↦ err (git_failure e)
    ])
collect_file_changes-scan_example = collect_file_changes-scan some_events no_error

-- A value is the list of its keys.
abbrev keys_only : Yaml (List Text)
keys_only = record {
  value_of = λ text. ok (codes "shell" ∷ codes "argv" ∷ []);
  keys = λ v. v;
  config_of = λ v. ok (record {
    id = none;
    extensions = [];
    include = [];
    exclude = [];
    test_argv = [];
    grammar = some (codes "go");
    prompt_hints = [];
  });
}

abbrev no_settings : RepoConfig
no_settings = record {
  id = none;
  extensions = [];
  include = [];
  exclude = [];
  test_argv = [];
  grammar = none;
  prompt_hints = [];
}

abbrev two_warnings : List Text
two_warnings = key_warning (codes "shell") ∷ grammar_warning (codes "go") ∷ []

parse_yaml_test : parse_yaml keys_only (codes "shell: x") ≡ ok (no_settings, two_warnings)
unfolding parse_yaml
parse_yaml_test = refl

parse_yaml-Warned_example :
    (len (codes "shell: x") ≤ max_repo_config_bytes)
    × GrammarAllowed none
    × All (Warned two_warnings) (codes "shell" ∷ codes "argv" ∷ [])
parse_yaml-Warned_example =
    parse_yaml-Warned keys_only (codes "shell: x") (codes "shell" ∷ codes "argv" ∷ []) no_settings
      two_warnings refl parse_yaml_test

abbrev plain_host : ConfigHost
plain_host = record {
  absolute = λ p. some p;
  canonicalize = λ p. none;
  exists = λ p. false;
  read_text = λ p. ok [];
  from_yaml = λ text. ok default_trusted;
  debug = λ text. text;
  display = λ p. [];
}

abbrev catch_env : Text → Option Text
catch_env var = if text_eq var (codes "JITGEN_MODE") then some (codes "catch") else none

abbrev no_flags : TrustedFlags
no_flags = record {
  config_file = some (root_dir ∷ normal (codes "etc") ∷ []);
  mode = none;
  strategy = none;
  sandbox_backend = none;
  unsafe_local_execution = none;
  shell_allowed = none;
  state_dir = none;
  max_tests = some 3;
  real_llm = none;
  env_allowlist_extra = none;
  docker_image = none;
}

abbrev sample_root : PathOf
sample_root = root_dir ∷ normal (codes "repo") ∷ []

abbrev catching : TrustedConfig
catching = record default_trusted { mode = catch; max_tests = 3 }

resolve_test : resolve_trusted plain_host no_flags sample_root catch_env ≡ ok catching
unfolding resolve_trusted text_eq default_trusted
resolve_test = refl

-- The world is what was written to a file or the repository.
abbrev sample_console : Console ℕ ℕ
sample_console = record {
  stdout = λ text w. (ok tt, w);
  stderr = λ text w. (ok tt, w);
  write_patch = λ path text w. (ok tt, suc w);
  apply = λ repo made w. (ok [], suc w);
  run = λ repo base head trusted w. (err (codes "no repository"), w);
  render = λ made format. [];
  read_baseline = λ path. ok [];
  failure_text = λ e. [];
  gate_text = λ e. [];
  hint = λ text. [];
  empty_run_hint = [];
  modifiers_note = [];
  summary = λ v x. [];
}

abbrev writing_args : RunArgs ℕ
writing_args = record {
  flags = no_flags;
  repo = sample_root;
  base = codes "b";
  head = codes "h";
  write = true;
  patch_out = none;
  format = patch;
  fail_on_catch = true;
  fail_threshold = 0;
  baseline = none;
  warn_only = false;
}

cmd_run_test : exit_code (cmd_run sample_console tenths plain_host catch_env writing_args 0) ≡ 2
unfolding cmd_run text_eq default_trusted
cmd_run_test = refl

cmd_run-Exit_example :
    ((exit_code (cmd_run sample_console tenths plain_host catch_env writing_args 0) ≡ 0)
      × Succeeded tenths plain_host catch_env sample_console writing_args)
    ⊎ Exit tenths plain_host catch_env sample_console writing_args
        (exit_code (cmd_run sample_console tenths plain_host catch_env writing_args 0))
cmd_run-Exit_example = cmd_run-Exit tenths plain_host catch_env sample_console writing_args 0

console_keeps : KeepsReporting sample_console (λ w. w ≡ 0)
console_keeps = record {
  stdout = λ text w e. e;
  stderr = λ text w e. e;
  runs = λ repo base head trusted w e. e;
}

cmd_run-report_only_example :
    (cmd_run sample_console tenths plain_host catch_env writing_args 0).1 ≡ 0
cmd_run-report_only_example =
    cmd_run-report_only tenths plain_host catch_env sample_console writing_args (λ w. w ≡ 0)
      console_keeps catching resolve_test refl 0 refl

abbrev whole_numbers : Scoring ℕ
whole_numbers = record {
  add = ◌+◌;
  div = λ x y. x;
  of_nat = λ n. n;
  point_one_five = 1;
  point_three_five = 3;
  point_seven = 7;
  point_nine = 9;
  fifty = 50;
}

abbrev target_at : Text → SymbolKind → Target ℕ
target_at path kind = record {
  id = path;
  adapter = codes "rust";
  path = path;
  symbol = none;
  kind = kind;
  span = record { start = 1; end = 1 };
  risk = 5;
}

abbrev two_targets : List (Target ℕ)
two_targets = target_at (codes "b.rs") hunk ∷ target_at (codes "a.rs") function ∷ []

ltb-asymm : (x y : ℕ) → ltb x y ≡ true → ltb y x ≡ false
ltb-asymm x y h = ground arith

select-Ranked_example :
    (order : List (RankedTarget ℕ)) × (Perm order (map (rank_one tenths whole_numbers) two_targets)
      × (IsChain (InOrder tenths) order
          × ((select tenths whole_numbers two_targets 1 ≡ take 1 order)
              × (length (select tenths whole_numbers two_targets 1) ≤ 1))))
select-Ranked_example = select-Ranked tenths whole_numbers (λ x y h. ltb-asymm x y h) two_targets 1

select_test :
    map (λ (r : RankedTarget ℕ). r.target.path) (select tenths whole_numbers two_targets 1)
    ≡ codes "a.rs" ∷ []
unfolding select
select_test = refl
