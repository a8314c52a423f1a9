-- ===== src/Intake/Diff/Files.antt =====
-- What a changed file that is admitted holds.
use jitgen.Core.Change.{ChangeKind, FileChange, LineRange}
use jitgen.Intake.Blob.{Readable, is_safe_rel}
use jitgen.Intake.Diff.{
  DeltaStatus, DiffDelta, change_of, changed_path, delta_added, delta_copied, delta_deleted,
  delta_other, delta_renamed, delta_untracked, file_change_from_delta, kind_of_change,
  max_hunks_per_file, rename_source,
}
use jitgen.Intake.Filter.{is_ignored}
use jitgen.Prelude.{
  All, Bool, List, Option, [], arith, false, if_cases, if◌then◌else◌, length, none, not, not→true,
  refl, some, true, ℕ, ◌++◌, ◌+◌, ◌||◌, ◌∷◌, ◌≡◌, ◌≤◌,
}
use jitgen.Prelude.Str.{Text}

abbrev pub Source : Option Text → Type 0
Source none = Unit
Source (some old) = Readable old

abbrev pub ValidRange : LineRange → Type 0
ValidRange r = (1 ≤ r.start) × (r.start ≤ r.end)

pub record Admitted (f : FileChange) : Type 0 where
  pub path : Readable f.path
  pub source : Source f.old_path
  pub few : length f.hunks ≤ max_hunks_per_file
  pub ranges : All ValidRange f.hunks

abbrev pub hunks_of : List FileChange → ℕ
hunks_of [] = 0
hunks_of (f ∷ fs) = length f.hunks + hunks_of fs

abbrev pub AdmittedOption : Option FileChange → Type 0
AdmittedOption none = Unit
AdmittedOption (some f) = Admitted f × (length f.hunks ≡ 0)

abbrev SourceOption : Option (Option Text) → Type 0
SourceOption none = Unit
SourceOption (some old) = Source old

rename_source-Source : (s : DeltaStatus) (o : Option Text) → SourceOption (rename_source s o)
unfolding rename_source
rename_source-Source delta_renamed (some op) =
    if_cases SourceOption (not (is_safe_rel op)) _ _ (λ e. tt)
      λ e.
        if_cases SourceOption (is_ignored op) _ _ (λ i. tt)
          λ i. record { safe = not→true (is_safe_rel op) e; kept = i }
rename_source-Source delta_renamed none = tt
rename_source-Source delta_added o = tt
rename_source-Source delta_deleted o = tt
rename_source-Source delta_copied o = tt
rename_source-Source delta_untracked o = tt
rename_source-Source delta_other o = tt

change_of-Admitted :
    (path : Text) (kind : ChangeKind) (o : Option (Option Text))
    → Readable path
    → SourceOption o
    → AdmittedOption (change_of path kind o)
unfolding change_of
change_of-Admitted path kind none r s = tt
change_of-Admitted path kind (some old) r s =
    (record { path = r; source = s; few = omega arith; ranges = tt }, refl)

or_not : (a b : Bool) → (a || not b) ≡ false → (a ≡ false) × (b ≡ true)
or_not a b h = ground arith

pub file_change-Admitted : (d : DiffDelta) → AdmittedOption (file_change_from_delta d)
unfolding file_change_from_delta
file_change-Admitted d = of_path (changed_path d)
  where
    of_path :
        (o : Option Text)
        → AdmittedOption (elim o [
          | none ↦ none
          | some path ↦
              if is_ignored path || not (is_safe_rel path)
              then none
              else change_of path (kind_of_change d.status) (rename_source d.status d.old_file)
        ])
    of_path none = tt
    of_path (some path) =
        if_cases AdmittedOption (is_ignored path || not (is_safe_rel path)) _ _ (λ e. tt)
          λ e.
            let (unignored, is_safe) = or_not (is_ignored path) (is_safe_rel path) e in
            change_of-Admitted path (kind_of_change d.status) _
              (record { safe = is_safe; kept = unignored })
              (rename_source-Source d.status d.old_file)

pub hunks_of-append : (fs gs : List FileChange) → hunks_of (fs ++ gs) ≡ hunks_of fs + hunks_of gs
hunks_of-append [] gs = omega arith
hunks_of-append (f ∷ fs) gs = let ih = hunks_of-append fs gs in omega (arith, ih)
