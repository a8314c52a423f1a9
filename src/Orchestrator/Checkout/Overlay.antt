-- ===== src/Orchestrator/Checkout/Overlay.antt =====
-- crates/jitgen-orchestrator/src/checkout.rs: writing the files below the overlay's root.
-- The file system is a parameter; reading it leaves it as it is.
use jitgen.Intake.Blob.{Git, reject_unsafe_rel}
use jitgen.Orchestrator.Checkout.{
  CheckoutCaps, CheckoutError, collect_blob_paths, io_failure, load_file, of_git, production,
  refused,
}
use jitgen.Prelude.{
  Bool, List, Option, [], false, if◌then◌else◌, length, none, some, suc, true, ℕ, ◌++◌, ◌==◌, ◌∷◌,
}
use jitgen.Prelude.Effect.{Exec, map_err, pure, raise, ◌>>=◌}
use jitgen.Prelude.Paths.{Component, cur_dir, normal, path_components, push}
use jitgen.Prelude.Result.{Result, err, ok}
use jitgen.Prelude.Str.{Text, codes, text_eq}
use jitgen.Sandbox.Os.{of_result, read_off}

-- What `symlink_metadata` finds: nothing, another error, or the kind of the file.
pub data Stat : Type 0 where
  missing symlink directory special : Stat
  stat_error : Text → Stat
  regular : ℕ → Stat

pub record Disk (W : Type 0) : Type 0 where
  pub stat : Text → W → Stat
  pub read : Text → W → Result Text (List ℕ)
  pub write : Text → List ℕ → Exec W Text (Unit {0})
  pub create_dir : Text → Exec W Text (Unit {0})

abbrev pub symlink_err : Text → CheckoutError
symlink_err p = refused (codes "overlay path") (codes "refusing to follow symlink at " ++ p)

-- All but the last.
unfoldable pub front : {A : Type 0} → List A → List A
front [] = []
front (x ∷ []) = []
front (x ∷ y ∷ xs) = x ∷ front (y ∷ xs)

module _ {W : Type 0} (disk : Disk W) where
  unfoldable pub ensure_dir : Text → Exec W CheckoutError (Unit {0})
  unfolding ◌>>=◌ read_off raise pure map_err
  ensure_dir cur = do
    found ← read_off (disk.stat cur)
    elim found as (λ s. Exec W CheckoutError (Unit {0})) [
      | symlink ↦ raise (symlink_err cur)
      | directory ↦ pure tt
      | missing ↦ map_err io_failure (disk.create_dir cur)
      | stat_error e ↦ raise (io_failure e)
      | special ↦
          raise (refused (codes "overlay path") (codes "non-directory component at " ++ cur))
      | regular n ↦
          raise (refused (codes "overlay path") (codes "non-directory component at " ++ cur))
    ]

  unfoldable pub create_dirs : Text → Text → List Component → Exec W CheckoutError (Unit {0})
  unfolding ◌>>=◌ pure raise push ensure_dir
  create_dirs rel cur [] = pure tt
  create_dirs rel cur (normal s ∷ cs) = do
    _ ← ensure_dir (push cur s)
    create_dirs rel (push cur s) cs
  create_dirs rel cur (cur_dir ∷ cs) = create_dirs rel cur cs
  create_dirs rel cur (other ∷ cs) = raise (refused (codes "overlay path") rel)

  -- `Path::parent` has all components but the last.
  unfoldable pub create_parents : Text → Text → Exec W CheckoutError (Unit {0})
  unfolding create_dirs path_components front
  create_parents root rel = create_dirs rel root (front (path_components rel))

  unfoldable pub same_content : Text → List ℕ → Exec W CheckoutError Bool
  unfolding ◌>>=◌ pure map_err text_eq
  same_content dest bytes = do
    content ← map_err io_failure (λ w. (disk.read dest w, w))
    pure (text_eq content bytes)

  -- Whether an existing file of that length has the bytes.
  unfoldable pub identical : Text → ℕ → List ℕ → Exec W CheckoutError Bool
  unfolding pure same_content
  identical dest n bytes = if n == length bytes then same_content dest bytes else pure false

  unfoldable pub install : Text → List ℕ → Stat → Exec W CheckoutError (Unit {0})
  unfolding ◌>>=◌ pure raise map_err identical
  install dest bytes symlink = raise (symlink_err dest)
  install dest bytes (regular n) = do
    same ← identical dest n bytes
    if same then pure tt else map_err io_failure (disk.write dest bytes)
  install dest bytes missing = map_err io_failure (disk.write dest bytes)
  install dest bytes (stat_error e) = raise (io_failure e)
  install dest bytes other =
      raise (refused (codes "overlay") (codes "non-regular file blocks checkout at " ++ dest))

  unfoldable pub write_confined : Text → Text → List ℕ → Exec W CheckoutError (Unit {0})
  unfolding ◌>>=◌ create_parents push read_off install
  write_confined root rel bytes = do
    _ ← create_parents root rel
    found ← read_off (disk.stat (push root rel))
    install (push root rel) bytes found

  unfoldable pub write_file : Text → Text → List ℕ → Exec W CheckoutError (Unit {0})
  unfolding ◌>>=◌ of_result of_git reject_unsafe_rel write_confined
  write_file root rel bytes = do
    _ ← of_result (of_git (reject_unsafe_rel rel))
    write_confined root rel bytes

  module _ (g : Git) (oid root : Text) (caps : CheckoutCaps) where
    -- The loop over the paths.
    unfoldable pub write_files : List Text → (written total : ℕ) → Exec W CheckoutError ℕ
    unfolding ◌>>=◌ pure of_result load_file write_confined
    write_files [] written total = pure written
    write_files (rel ∷ rels) written total = do
      (total, bytes) ← of_result (load_file g oid caps rel total)
      elim bytes as (λ b. Exec W CheckoutError ℕ) [
        | none ↦ write_files rels written total
        | some b ↦ do _ ← write_confined root rel b; write_files rels (suc written) total
      ]

    unfoldable pub checkout_revision_with_caps : Exec W CheckoutError ℕ
    unfolding ◌>>=◌ of_result collect_blob_paths write_files
    checkout_revision_with_caps = do
      paths ← of_result (
          collect_blob_paths g oid (codes "overlay") caps.materialized_files caps.tree_entries true)
      write_files paths 0 0

  unfoldable pub checkout_revision : Git → Text → Text → Exec W CheckoutError ℕ
  unfolding checkout_revision_with_caps
  checkout_revision g oid root = checkout_revision_with_caps g oid root production

  of_read : Result Text (List ℕ) → Result CheckoutError (Option (List ℕ))
  of_read (ok b) = ok (some b)
  of_read (err e) = err (io_failure e)

  read_found : Text → Stat → Exec W CheckoutError (Option (List ℕ))
  unfolding pure raise of_read
  read_found dest symlink = raise (symlink_err dest)
  read_found dest (regular n) = λ w. (of_read (disk.read dest w), w)
  read_found dest (stat_error e) = raise (io_failure e)
  read_found dest other = pure none

  unfoldable pub read_overlay_file : Text → Text → Exec W CheckoutError (Option (List ℕ))
  unfolding ◌>>=◌ of_result of_git reject_unsafe_rel read_off push read_found
  read_overlay_file root rel = do
    _ ← of_result (of_git (reject_unsafe_rel rel))
    found ← read_off (disk.stat (push root rel))
    read_found (push root rel) found
