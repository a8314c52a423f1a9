-- ===== src/Intake/Blob.antt =====
-- crates/jitgen-gitintake/src/intake.rs: the path guard, and reading blobs of a revision.
-- The calls of git2 are a parameter; an error of git2 is its text.
use jitgen.Intake.Filter.{is_ignored}
use jitgen.Prelude.{
  Bool, List, Option, [], any, false, if◌then◌else◌, is_empty, leb, none, not, some, true, ℕ, ◌&&◌,
  ◌*◌, ◌==◌, ◌||◌, ◌∷◌, ◌≡◌,
}
use jitgen.Prelude.Paths.{Component, cur_dir, normal, path_components}
use jitgen.Prelude.Result.{Result, err, guard, ok, ◌>>=◌}
use jitgen.Prelude.Str.{Text, codes, ends_with}

abbrev max_blob_bytes : ℕ
max_blob_bytes = 2 * 1024 * 1024

pub data GitError : Type 0 where
  unsafe_path ignored_path bad_revision too_many_hunks git_failure : Text → GitError
  too_large diff_too_large : ℕ → GitError

-- An entry that a walk of a tree calls back with; the name is none when it is no UTF-8.
pub record TreeEntry : Type 0 where
  pub dir : Text
  pub name : Option Text
  pub is_blob : Bool

-- `find_commit(oid)?.tree()?`, the entries that `Tree::walk` in preorder then calls back with, the
-- error of its own with which it ends behind them, `Tree::get_path` with whether the entry is a blob,
-- `Odb::read_header` and `find_blob`.
pub record Git : Type 0 where
  pub find_tree : Text → Result Text (Unit {0})
  pub entries : Text → List TreeEntry
  pub walk_error : Text → Option Text
  pub get_path : Text → Text → Option (Text × Bool)
  pub read_header : Text → Result Text ℕ
  pub find_blob : Text → Result Text (List ℕ)

unfoldable pub git : {A : Type 0} → Result Text A → Result GitError A
git (ok a) = ok a
git (err e) = err (git_failure e)

has_drive_prefix : Text → Bool
has_drive_prefix (c ∷ d ∷ s) = d == b':' && (leb b'a' c && leb c b'z' || leb b'A' c && leb c b'Z')
has_drive_prefix s = false

-- The loop over the components, and whether it has seen a plain one.
only_inward : Bool → List Component → Bool
only_inward saw_normal [] = saw_normal
only_inward saw_normal (normal s ∷ cs) = only_inward true cs
only_inward saw_normal (cur_dir ∷ cs) = only_inward saw_normal cs
only_inward saw_normal (other ∷ cs) = false

unfoldable pub is_safe_rel : Text → Bool
unfolding ends_with has_drive_prefix path_components only_inward
is_safe_rel rel =
    not (is_empty rel || any (λ c. c == 92) rel)
    && not (ends_with rel (codes "/"))
    && not (has_drive_prefix rel)
    && only_inward false (path_components rel)

-- A path that the policy lets through: no `..`, not absolute, not a directory, not ignored.
pub record Readable (rel : Text) : Type 0 where
  pub safe : is_safe_rel rel ≡ true
  pub kept : is_ignored rel ≡ false

unfoldable pub reject_unsafe_rel : Text → Result GitError (Unit {0})
unfolding is_safe_rel
reject_unsafe_rel rel = if is_safe_rel rel then ok tt else err (unsafe_path rel)

-- The entry of a path, when it is a blob.
blob_of : Option (Text × Bool) → Option Text
blob_of none = none
blob_of (some (id, is_blob)) = if is_blob then some id else none

module _ (g : Git) (oid : Text) where
  unfoldable pub resolve_blob_oid : Text → Result GitError (Option Text)
  unfolding reject_unsafe_rel is_ignored git blob_of
  resolve_blob_oid rel_path = do
    _ ← reject_unsafe_rel rel_path
    _ ← guard (not (is_ignored rel_path)) (ignored_path rel_path)
    _ ← git (g.find_tree oid)
    ok (blob_of (g.get_path oid rel_path))

  unfoldable pub size_of : Option Text → Result GitError (Option ℕ)
  unfolding git
  size_of none = ok none
  size_of (some id) = do size ← git (g.read_header id); ok (some size)

  unfoldable pub blob_size_at : Text → Result GitError (Option ℕ)
  unfolding resolve_blob_oid size_of
  blob_size_at rel_path = do found ← resolve_blob_oid rel_path; size_of found

  unfoldable pub content_of : ℕ → Option Text → Result GitError (Option (List ℕ))
  unfolding git
  content_of max_bytes none = ok none
  content_of max_bytes (some id) = do
    size ← git (g.read_header id)
    _ ← guard (leb size max_bytes) (too_large size)
    content ← git (g.find_blob id)
    ok (some content)

  unfoldable pub read_blob_at_capped : Text → ℕ → Result GitError (Option (List ℕ))
  unfolding resolve_blob_oid content_of
  read_blob_at_capped rel_path max_bytes = do
    found ← resolve_blob_oid rel_path
    content_of max_bytes found

  unfoldable pub read_blob_at : Text → Result GitError (Option (List ℕ))
  unfolding read_blob_at_capped
  read_blob_at rel_path = read_blob_at_capped rel_path max_blob_bytes
