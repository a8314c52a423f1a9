-- ===== src/Orchestrator/Checkout.antt =====
-- crates/jitgen-orchestrator/src/checkout.rs: the files of a revision written into an overlay.
-- Here the paths of a tree and the bytes of a file, with their caps; Overlay writes them.
pub mod Overlay
pub mod Loaded
pub mod Bounded
use jitgen.Context.Packager.Budget.{total_bytes}
use jitgen.Intake.Blob.{Git, GitError, TreeEntry, blob_size_at, is_safe_rel, read_blob_at_capped}
use jitgen.Intake.Filter.{is_ignored}
use jitgen.Prelude.{
  Bool, List, Option, [], false, if◌then◌else◌, leb, length, ltb, none, not, some, suc, ℕ, ◌&&◌,
  ◌*◌, ◌++◌, ◌+◌, ◌-◌, ◌^◌, ◌||◌, ◌∷◌,
}
use jitgen.Prelude.Result.{Result, err, guard, ok, ◌>>=◌}
use jitgen.Prelude.Str.{Text, codes, show_nat}
use jitgen.Report.Escape.{cap, sanitize_line}

pub data CheckoutError : Type 0 where
  refused : (what detail : Text) → CheckoutError
  git_error : GitError → CheckoutError
  git2_error io_failure : Text → CheckoutError

pub record CheckoutCaps : Type 0 where
  pub per_file_bytes : ℕ
  pub total_bytes : ℕ
  pub materialized_files : ℕ
  pub tree_entries : ℕ

abbrev pub production : CheckoutCaps
production = record {
  per_file_bytes = 64 * 1024 * 1024;
  total_bytes = 2 * 1024 * 1024 * 1024;
  materialized_files = 50000;
  tree_entries = 2000000;
}

-- The path that an entry of the walk adds.
kept_path : Bool → TreeEntry → Option Text
unfolding is_ignored is_safe_rel
kept_path reject_unsafe e = elim e.name [
  | none ↦ none
  | some name ↦
      let rel = e.dir ++ name in
      if e.is_blob && not (is_ignored rel) && (not reject_unsafe || is_safe_rel rel)
      then some rel
      else none
]

-- How the callbacks of a walk end.
pub data Walked : Type 0 where
  entries_exceeded files_exceeded : Walked
  completed : List Text → Walked

module _ (file_cap entry_cap : ℕ) (reject_unsafe : Bool) where
  walk_from : List TreeEntry → ℕ → List Text → Walked
  unfolding kept_path
  walk_from [] raw_entries paths = completed paths
  walk_from (e ∷ es) raw_entries paths =
      let next = walk_from es (suc raw_entries) in
      if ltb entry_cap (suc raw_entries)
      then entries_exceeded
      else elim (kept_path reject_unsafe e) [
        | none ↦ next paths
        | some rel ↦
            let found = next (paths ++ rel ∷ []) in
            if ltb file_cap (length (paths ++ rel ∷ [])) then files_exceeded else found
      ]

of_walk : Text → ℕ → ℕ → Option Text → Walked → Result CheckoutError (List Text)
unfolding show_nat
of_walk what file_cap entry_cap e entries_exceeded = err (
    refused what
      (codes "tree walk exceeds the " ++ show_nat entry_cap ++ codes "-entry checkout cap"))
of_walk what file_cap entry_cap e files_exceeded =
    err
      (refused what (codes "tree exceeds the " ++ show_nat file_cap ++ codes "-file checkout cap"))
of_walk what file_cap entry_cap none (completed paths) = ok paths
of_walk what file_cap entry_cap (some e) (completed paths) = err (git2_error e)

unfoldable pub of_git : {A : Type 0} → Result GitError A → Result CheckoutError A
of_git (ok a) = ok a
of_git (err e) = err (git_error e)

unfoldable pub of_git2 : {A : Type 0} → Result Text A → Result CheckoutError A
of_git2 (ok a) = ok a
of_git2 (err e) = err (git2_error e)

unfoldable pub safe_path_for_error : Text → Text
unfolding sanitize_line
safe_path_for_error rel = sanitize_line rel 256

-- `u64::saturating_add`.
unfoldable pub saturating_add : ℕ → ℕ → ℕ
saturating_add a b = if ltb (a + b) (2 ^ 64) then a + b else 2 ^ 64 - 1

over_file : ℕ → ℕ → Text → Text
unfolding show_nat safe_path_for_error
over_file size cap rel =
    codes "file is "
    ++ show_nat size
    ++ codes " bytes, exceeding the "
    ++ show_nat cap
    ++ codes "-byte per-file checkout cap (at "
    ++ safe_path_for_error rel
    ++ codes ")"

unfoldable pub over_total : ℕ → Text → Text
unfolding show_nat safe_path_for_error
over_total cap rel =
    codes "checkout total exceeds the "
    ++ show_nat cap
    ++ codes "-byte checkout cap (at "
    ++ safe_path_for_error rel
    ++ codes ")"

module _ (g : Git) (oid : Text) where
  unfoldable pub collect_blob_paths : Text → ℕ → ℕ → Bool → Result CheckoutError (List Text)
  unfolding of_git2 of_walk walk_from
  collect_blob_paths what file_cap entry_cap reject_unsafe = do
    _ ← of_git2 (g.find_tree oid)
    of_walk what file_cap entry_cap (g.walk_error oid)
        (walk_from file_cap entry_cap reject_unsafe (g.entries oid) 0 [])

  unfoldable pub list_tree_paths : Result CheckoutError (List Text)
  unfolding collect_blob_paths
  list_tree_paths =
      collect_blob_paths (codes "snapshot") production.materialized_files production.tree_entries
        false

  -- The checks of one file's size, the total with it, and its bytes.
  module _ (caps : CheckoutCaps) where
    budgeted : Text → ℕ → Option ℕ → Result CheckoutError (ℕ × Option (List ℕ))
    unfolding of_git read_blob_at_capped saturating_add over_file over_total
    budgeted rel total none = ok (total, none)
    budgeted rel total (some size) = do
      _ ←
          guard (leb size caps.per_file_bytes)
            (refused (codes "overlay") (over_file size caps.per_file_bytes rel))
      let sum = saturating_add total size
      _ ←
          guard (leb sum caps.total_bytes)
            (refused (codes "overlay") (over_total caps.total_bytes rel))
      bytes ← of_git (read_blob_at_capped g oid rel caps.per_file_bytes)
      ok (sum, bytes)

    unfoldable pub load_file : Text → ℕ → Result CheckoutError (ℕ × Option (List ℕ))
    unfolding of_git blob_size_at budgeted
    load_file rel total = do size ← of_git (blob_size_at g oid rel); budgeted rel total size
