-- ===== src/Intake/Diff.antt =====
-- crates/jitgen-gitintake/src/intake.rs: the changes between two revisions.
-- git2's diff is a parameter. Its callbacks are events in their order.
pub mod Files
pub mod Admitted
pub mod Scan
pub mod Indexed
use jitgen.Core.Change.{
  ChangeKind, ChangeSet, CoreError, FileChange, LineRange, added_file, deleted_file, modified_file,
  new_range, renamed_file,
}
use jitgen.Feedback.Host.{base, head}
use jitgen.Intake.Blob.{
  GitError, bad_revision, diff_too_large, git, git_failure, is_safe_rel, too_many_hunks,
}
use jitgen.Intake.Filter.{is_ignored}
use jitgen.Prelude.{
  List, Option, [], if◌then◌else◌, leb, length, ltb, none, not, some, suc, zero, ℕ, ◌%◌, ◌++◌, ◌+◌,
  ◌-◌, ◌==◌, ◌^◌, ◌||◌, ◌∷◌,
}
use jitgen.Prelude.Result.{Result, err, guard, ok, ◌>>=◌}
use jitgen.Prelude.Str.{Text, codes, show_nat, text_eq}

abbrev pub max_changed_files : ℕ
max_changed_files = 5000

abbrev pub max_hunks_per_file : ℕ
max_hunks_per_file = 1000

abbrev pub max_total_hunks : ℕ
max_total_hunks = 100000

pub data DeltaStatus : Type 0 where
  delta_added delta_deleted delta_renamed delta_copied delta_untracked delta_other : DeltaStatus

-- A path is none when it is missing or no UTF-8.
pub record DiffDelta : Type 0 where
  pub status : DeltaStatus
  pub old_file : Option Text
  pub new_file : Option Text

pub data DiffEvent : Type 0 where
  file_event : DiffDelta → DiffEvent
  hunk_event : DiffDelta → (new_start new_lines : ℕ) → DiffEvent

-- `revparse_single` with `peel_to_commit`, the number of deltas of `diff_tree_to_tree`, and what
-- `find_similar` and `foreach` then give: the events, and an error of the walk itself.
pub record GitDiff : Type 0 where
  pub commit_of : Text → Option Text
  pub find_tree : Text → Result Text (Unit {0})
  pub tree_diff : Text → Text → Result Text ℕ
  pub find_similar : Text → Text → Result Text (List DiffEvent × Option Text)

unfoldable pub kind_of_change : DeltaStatus → ChangeKind
kind_of_change delta_added = added_file
kind_of_change delta_copied = added_file
kind_of_change delta_untracked = added_file
kind_of_change delta_deleted = deleted_file
kind_of_change delta_renamed = renamed_file
kind_of_change delta_other = modified_file

-- The old path of a deletion, else the new one.
unfoldable pub changed_path : DiffDelta → Option Text
changed_path d = elim d.status [ delta_deleted ↦ d.old_file | other ↦ d.new_file ]

unfoldable pub delta_head_path : DiffDelta → Option Text
unfolding changed_path is_ignored
delta_head_path d = elim (changed_path d) [
  | none ↦ none
  | some path ↦ if is_ignored path then none else some path
]

-- What is told of the old path; nothing at all when the change is to be dropped.
unfoldable pub rename_source : DeltaStatus → Option Text → Option (Option Text)
unfolding is_safe_rel is_ignored
rename_source delta_renamed (some op) =
    if not (is_safe_rel op) then none else if is_ignored op then some none else some (some op)
rename_source status op = some none

unfoldable pub change_of : Text → ChangeKind → Option (Option Text) → Option FileChange
change_of path kind none = none
change_of path kind (some old) =
    some (record { path = path; old_path = old; kind = kind; hunks = [] })

unfoldable pub file_change_from_delta : DiffDelta → Option FileChange
unfolding changed_path is_ignored is_safe_rel change_of kind_of_change rename_source
file_change_from_delta d = elim (changed_path d) [
  | none ↦ none
  | some path ↦
      if is_ignored path || not (is_safe_rel path)
      then none
      else change_of path (kind_of_change d.status) (rename_source d.status d.old_file)
]

-- The files, the position of each path's first file, and the hunks seen.
pub record Collecting : Type 0 where
  pub files : List FileChange
  pub index : List (Text × ℕ)
  pub total_hunks : ℕ

unfoldable pub index_get : List (Text × ℕ) → Text → Option ℕ
unfolding text_eq
index_get [] p = none
index_get ((q, i) ∷ index) p = let rest = index_get index p in if text_eq q p then some i else rest

-- `entry(path).or_insert(pos)`.
unfoldable pub or_insert : List (Text × ℕ) → Text → ℕ → List (Text × ℕ)
unfolding index_get
or_insert index p i = elim (index_get index p) [ some j ↦ index | none ↦ (p, i) ∷ index ]

unfoldable pub file_step : Option FileChange → Collecting → Collecting
unfolding or_insert
file_step none c = c
file_step (some f) c = record {
  files = c.files ++ f ∷ [];
  index = or_insert c.index f.path (length c.files);
  total_hunks = c.total_hunks;
}

-- `files[i].hunks.push(range)`, within the cap of a file.
unfoldable pub push_hunk :
    Text → List FileChange → ℕ → LineRange → Result GitError (List FileChange)
unfolding show_nat
push_hunk path [] i range = ok []
push_hunk path (f ∷ fs) zero range =
    if leb max_hunks_per_file (length f.hunks)
    then err (
        too_many_hunks (
          path
          ++ codes " exceeds the "
          ++ show_nat max_hunks_per_file
          ++ codes "-hunk per-file intake cap"))
    else ok (record f { hunks = f.hunks ++ range ∷ [] } ∷ fs)
push_hunk path (f ∷ fs) (suc i) range = do rest ← push_hunk path fs i range; ok (f ∷ rest)

unfoldable pub too_many_total : GitError
unfolding show_nat
too_many_total = too_many_hunks (
    codes "more than "
    ++ show_nat max_total_hunks
    ++ codes " hunks across the diff exceeds the intake cap")

-- `find` is the position of the file that a path's hunks belong to.
module _ (find : Collecting → Text → Option ℕ) where
  unfoldable pub attribute : Text → LineRange → Collecting → Option ℕ → Result GitError Collecting
  unfolding push_hunk
  attribute path range c none = ok c
  attribute path range c (some i) = do
    files ← push_hunk path c.files i range
    ok (record c { files = files })

  unfoldable pub hunk_at :
      Option Text → Result CoreError LineRange → Collecting → Result GitError Collecting
  unfolding attribute
  hunk_at none range c = ok c
  hunk_at (some path) (err e) c = ok c
  hunk_at (some path) (ok range) c = attribute path range c (find c path)

  -- The end of the range is computed in `u32`.
  unfoldable pub event_step : DiffEvent → Collecting → Result GitError Collecting
  unfolding file_step file_change_from_delta hunk_at delta_head_path new_range too_many_total
  event_step (file_event d) c = ok (file_step (file_change_from_delta d) c)
  event_step (hunk_event d new_start new_lines) c =
      let counted = record c { total_hunks = c.total_hunks + 1 } in
      if ltb max_total_hunks (c.total_hunks + 1)
      then err too_many_total
      else if new_lines == 0
      then ok counted
      else hunk_at (delta_head_path d) (new_range new_start ((new_start + new_lines - 1) % 2 ^ 32))
          counted

  unfoldable pub collect_from : List DiffEvent → Collecting → Result GitError Collecting
  unfolding event_step
  collect_from [] c = ok c
  collect_from (e ∷ es) c = do c ← event_step e c; collect_from es c

-- `index.get(&path)`.
unfoldable pub find_indexed : Collecting → Text → Option ℕ
unfolding index_get
find_indexed c path = index_get c.index path

abbrev pub nothing_collected : Collecting
nothing_collected = record { files = []; index = []; total_hunks = 0 }

-- An abort of a callback is reported by its own error; else the walk's error counts.
unfoldable pub collect_file_changes :
    List DiffEvent → Option Text → Result GitError (List FileChange)
unfolding collect_from find_indexed
collect_file_changes events walk_error = do
  c ← collect_from find_indexed events nothing_collected
  elim walk_error [ none ↦ ok c.files | some e ↦ err (git_failure e) ]

module _ (g : GitDiff) where
  unfoldable pub resolve_commit : Text → Result GitError Text
  resolve_commit rev = elim (g.commit_of rev) [ none ↦ err (bad_revision rev) | some oid ↦ ok oid ]

  unfoldable pub diff_revisions : Text → Text → Result GitError ChangeSet
  unfolding resolve_commit git collect_file_changes
  diff_revisions base_rev head_rev = do
    base_oid ← resolve_commit base_rev
    head_oid ← resolve_commit head_rev
    _ ← git (g.find_tree base_oid)
    _ ← git (g.find_tree head_oid)
    raw_deltas ← git (g.tree_diff base_oid head_oid)
    _ ← guard (leb raw_deltas max_changed_files) (diff_too_large raw_deltas)
    (events, walk_error) ← git (g.find_similar base_oid head_oid)
    files ← collect_file_changes events walk_error
    _ ← guard (leb (length files) max_changed_files) (diff_too_large (length files))
    ok (record { base = base_oid; head = head_oid; files = files })
