-- ===== src/Llm/Validate.antt =====
-- crates/jitgen-llm/src/validate.rs: the static screen that every candidate passes before it runs.
use jitgen.Llm.Prefix.{char_prefix}
use jitgen.Prelude.{Bool, List, [], filter, is_empty, map, not, ℕ, ◌*◌, ◌++◌, ◌||◌, ◌∷◌}
use jitgen.Prelude.Str.{Text, codes, contains, is_whitespace, to_ascii_lowercase}

abbrev pub max_validate_bytes : ℕ
max_validate_bytes = 512 * 1024

pub record ValidationResult : Type 0 where
  pub accepted : Bool
  pub issues : List Text

-- A needle in lower case, with the reason it is dangerous.
abbrev pub dangerous : List (Text × Text)
dangerous =
    (codes "rm -rf", codes "destructive shell command")
    ∷ (codes "remove_dir_all", codes "recursive filesystem deletion")
    ∷ (codes "shutil.rmtree", codes "recursive filesystem deletion")
    ∷ (codes ".rmsync", codes "recursive filesystem deletion")
    ∷ (codes "os.system", codes "shell execution")
    ∷ (codes "subprocess.", codes "process spawning")
    ∷ (codes "child_process", codes "process spawning")
    ∷ (codes "command::new", codes "process spawning")
    ∷ (codes "processbuilder", codes "process spawning (java)")
    ∷ (codes "getruntime", codes "Runtime.exec (java)")
    ∷ (codes ".popen", codes "process spawning (python)")
    ∷ (codes "/etc/passwd", codes "sensitive file access")
    ∷ (codes "/.ssh/", codes "ssh key access")
    ∷ (codes ".aws/credentials", codes "credential access")
    ∷ (codes "import socket", codes "raw network access")
    ∷ (codes "net.connect", codes "raw network access")
    ∷ []

-- `lower.chars().filter(|c| !c.is_whitespace())`.
unfoldable pub collapse : Text → Text
unfolding is_whitespace
collapse s = filter (λ c. not (is_whitespace c)) s

flagged : Text → Text × Text → Bool
unfolding contains collapse
flagged lower (needle, why) = contains lower needle || contains (collapse lower) needle

issue : Text × Text → Text
issue (needle, why) = codes "dangerous construct '" ++ needle ++ codes "' (" ++ why ++ codes ")"

unfoldable pub validate_candidate : Text → ValidationResult
unfolding flagged issue char_prefix
validate_candidate source =
    let lower = to_ascii_lowercase (char_prefix source max_validate_bytes) in
    let issues = map issue (filter (flagged lower) dangerous) in
    record { accepted = is_empty issues; issues = issues }
