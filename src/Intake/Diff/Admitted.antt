-- ===== src/Intake/Diff/Admitted.antt =====
-- What a change set holds.
use jitgen.Core.Change.{ChangeSet, CoreError, FileChange, LineRange, new_range}
use jitgen.Intake.Blob.{GitError, diff_too_large, git, git_failure}
use jitgen.Intake.Diff.{
  Collecting, DiffEvent, GitDiff, attribute, collect_file_changes, collect_from, delta_head_path,
  diff_revisions, event_step, file_change_from_delta, file_event, file_step, find_indexed, hunk_at,
  hunk_event, max_changed_files, max_hunks_per_file, max_total_hunks, nothing_collected, push_hunk,
  resolve_commit,
}
use jitgen.Intake.Diff.Files.{
  Admitted, AdmittedOption, ValidRange, file_change-Admitted, hunks_of, hunks_of-append,
}
use jitgen.Prelude.{
  All, All-append, List, Option, [], arith, false, if_cases, leb, leb→le, length, ltb, none, refl,
  some, subst, suc, zero, ℕ, ◌%◌, ◌++◌, ◌+◌, ◌-◌, ◌==◌, ◌^◌, ◌∷◌, ◌≡◌, ◌≤◌,
}
use jitgen.Prelude.Result.{Result, bind_ok, err, guard, guard_ok, ok, ok_inj, ◌>>=◌}
use jitgen.Prelude.Str.{Text}

-- The files of a collection are admitted, and their hunks are among those that it has seen.
abbrev Good : Collecting → Type 0
Good c =
    All Admitted c.files × ((hunks_of c.files ≤ c.total_hunks) × (c.total_hunks ≤ max_total_hunks))

abbrev GoodResult : Result GitError Collecting → Type 0
GoodResult (err e) = Unit
GoodResult (ok c) = Good c

file_step-Good :
    (o : Option FileChange) (c : Collecting) → AdmittedOption o → Good c → Good (file_step o c)
unfolding file_step
file_step-Good none c a g = g
file_step-Good (some f) c (a, e) (all_files, (some_hunks, few)) = (
  All-append Admitted c.files (f ∷ []) all_files (a, tt),
  (let sum = hunks_of-append c.files (f ∷ []) in omega (arith, sum, e, some_hunks), few),
)

-- One hunk more, in one file.
abbrev Pushed : List FileChange → Result GitError (List FileChange) → Type 0
Pushed fs (err e) = Unit
Pushed fs (ok gs) = All Admitted gs × (hunks_of gs ≤ suc (hunks_of fs))

length-snoc : {A : Type 0} (xs : List A) (x : A) → length (xs ++ x ∷ []) ≡ suc (length xs)
length-snoc [] x = refl
length-snoc (y ∷ xs) x = let ih = length-snoc xs x in omega (arith, ih)

behind-Pushed :
    (f : FileChange) (fs : List FileChange) (r : Result GitError (List FileChange))
    → Admitted f
    → Pushed fs r
    → Pushed (f ∷ fs) (r >>= λ rest. ok (f ∷ rest))
behind-Pushed f fs (err e) a p = tt
behind-Pushed f fs (ok gs) a (g, l) = ((a, g), omega (arith, l))

push_hunk-Pushed :
    (path : Text) (fs : List FileChange) (i : ℕ) (range : LineRange)
    → ValidRange range
    → All Admitted fs
    → Pushed fs (push_hunk path fs i range)
unfolding push_hunk
push_hunk-Pushed path [] i range v a = (tt, omega arith)
push_hunk-Pushed path (f ∷ fs) zero range v (a, rest) =
    if_cases (Pushed (f ∷ fs)) (leb max_hunks_per_file (length f.hunks)) _ _ (λ e. tt)
      λ e.
        let longer = length-snoc f.hunks range in
        let fits = leb_false max_hunks_per_file (length f.hunks) e in
        (
          (
            record {
              path = a.path;
              source = a.source;
              few = omega (arith, longer, fits);
              ranges = All-append ValidRange f.hunks (range ∷ []) a.ranges (v, tt);
            },
            rest,
          ),
          omega (arith, longer),
        )
  where
    leb_false : (a b : ℕ) → leb a b ≡ false → suc b ≤ a
    leb_false a b h = ground arith
push_hunk-Pushed path (f ∷ fs) (suc i) range v (a, rest) =
    behind-Pushed f fs (push_hunk path fs i range) a (push_hunk-Pushed path fs i range v rest)

module _ (find : Collecting → Text → Option ℕ) where
  put-Good :
      (c : Collecting) (r : Result GitError (List FileChange))
      → Pushed c.files r
      → suc (hunks_of c.files) ≤ c.total_hunks
      → c.total_hunks ≤ max_total_hunks
      → GoodResult (r >>= λ files. ok (record c { files = files }))
  put-Good c (err e) p l m = tt
  put-Good c (ok gs) (a, q) l m = (a, (omega (arith, q, l), m))

  hunk_at-Good :
      (o : Option Text) (r : Result CoreError LineRange) (c : Collecting)
      → ((range : LineRange) → r ≡ ok range → ValidRange range)
      → All Admitted c.files
      → suc (hunks_of c.files) ≤ c.total_hunks
      → c.total_hunks ≤ max_total_hunks
      → GoodResult (hunk_at find o r c)
  unfolding hunk_at attribute
  hunk_at-Good none r c v a l m = (a, (omega (arith, l), m))
  hunk_at-Good (some path) (err e) c v a l m = (a, (omega (arith, l), m))
  hunk_at-Good (some path) (ok range) c v a l m = of_found (find c path)
    where
      of_found : (i : Option ℕ) → GoodResult (attribute find path range c i)
      of_found none = (a, (omega (arith, l), m))
      of_found (some i) = put-Good c _ (push_hunk-Pushed path c.files i range (v range refl) a) l m

  new_range-Valid : (a b : ℕ) (r : LineRange) → new_range a b ≡ ok r → ValidRange r
  unfolding new_range
  new_range-Valid a b r h = ground arith

  event_step-Good : (e : DiffEvent) (c : Collecting) → Good c → GoodResult (event_step find e c)
  unfolding event_step
  event_step-Good (file_event d) c g =
      file_step-Good (file_change_from_delta d) c (file_change-Admitted d) g
  event_step-Good (hunk_event d new_start new_lines) c (a, (l, m)) =
      if_cases GoodResult (ltb max_total_hunks (c.total_hunks + 1)) _ _ (λ t. tt)
        λ t.
          let fits = ltb_false max_total_hunks (c.total_hunks + 1) t in
          if_cases GoodResult (new_lines == 0) _ _ (λ z. (a, (omega (arith, l), fits)))
            λ z.
              hunk_at-Good (delta_head_path d) _ _
                (new_range-Valid new_start ((new_start + new_lines - 1) % 2 ^ 32)) a
                (omega (arith, l)) fits
    where
      ltb_false : (a b : ℕ) → ltb a b ≡ false → b ≤ a
      ltb_false a b h = ground arith

  then-Good :
      (r : Result GitError Collecting) (f : Collecting → Result GitError Collecting)
      → GoodResult r
      → ((c : Collecting) → Good c → GoodResult (f c))
      → GoodResult (r >>= f)
  then-Good (err e) f g k = tt
  then-Good (ok c) f g k = k c g

  collect_from-Good :
      (es : List DiffEvent) (c : Collecting) → Good c → GoodResult (collect_from find es c)
  unfolding collect_from
  collect_from-Good [] c g = g
  collect_from-Good (e ∷ es) c g =
      then-Good (event_step find e c) (collect_from find es) (event_step-Good e c g)
        (collect_from-Good es)

collected-Good :
    (events : List DiffEvent) (walk_error : Option Text) (files : List FileChange)
    → collect_file_changes events walk_error ≡ ok files
    → All Admitted files × (hunks_of files ≤ max_total_hunks)
unfolding collect_file_changes
collected-Good events walk_error files h =
    let (c, e, k) = bind_ok (collect_from find_indexed events nothing_collected) _ files h in
    of_walk c
      (of_good _ c
        (collect_from-Good find_indexed events nothing_collected (tt, (omega arith, omega arith)))
        e)
      walk_error k
  where
    of_good : (r : Result GitError Collecting) (c : Collecting) → GoodResult r → r ≡ ok c → Good c
    of_good (ok d) c g e = subst Good (ok_inj d c e) g
    of_good (err x) c g e = ground arith

    of_walk :
        (c : Collecting)
        → Good c
        → (w : Option Text)
        → Path
            (Result GitError (List FileChange))
            (elim w [ none ↦ ok c.files | some e ↦ err (git_failure e) ])
            (ok files)
        → All Admitted files × (hunks_of files ≤ max_total_hunks)
    of_walk c (a, (l, m)) none k =
        subst (λ fs. All Admitted fs × (hunks_of fs ≤ max_total_hunks)) (ok_inj c.files files k)
          (a, omega (arith, l, m))
    of_walk c g (some e) k = ground arith

-- What a change set guarantees to the rest of the program.
pub record IntakeBounds (cs : ChangeSet) : Type 0 where
  pub admitted : All Admitted cs.files
  pub few_files : length cs.files ≤ max_changed_files
  pub few_hunks : hunks_of cs.files ≤ max_total_hunks

-- The changes between two revisions, when they are computed, are at most 5000 files with at most
-- 100000 hunks in all. Each file has a safe path that is not ignored, at most 1000 hunks, each a range
-- of lines from 1 on, and an old path only when that is safe and not ignored.
pub diff_revisions-IntakeBounds :
    (g : GitDiff) (base_rev head_rev : Text) (cs : ChangeSet)
    → diff_revisions g base_rev head_rev ≡ ok cs
    → IntakeBounds cs
unfolding diff_revisions
diff_revisions-IntakeBounds g base_rev head_rev cs h =
    let (b, e1, k1) = bind_ok (resolve_commit g base_rev) _ cs h in
    let (d, e2, k2) = bind_ok (resolve_commit g head_rev) _ cs k1 in
    let (u, e3, k3) = bind_ok (git (g.find_tree b)) _ cs k2 in
    let (v, e4, k4) = bind_ok (git (g.find_tree d)) _ cs k3 in
    let (n, e5, k5) = bind_ok (git (g.tree_diff b d)) _ cs k4 in
    let (w, e6, k6) = bind_ok (guard (leb n max_changed_files) (diff_too_large n)) _ cs k5 in
    let (es, e7, k7) = bind_ok (git (g.find_similar b d)) _ cs k6 in
    let (files, e8, k8) = bind_ok (collect_file_changes es.0 es.1) _ cs k7 in
    let (x, e9, k9) = bind_ok (guard (leb (length files) max_changed_files) _) _ cs k8 in
    let (all_admitted, some_hunks) = collected-Good es.0 es.1 files e8 in
    let fits = guard_ok (leb (length files) max_changed_files) _ x e9 in
    subst IntakeBounds (ok_inj (record { base = b; head = d; files = files }) cs k9) (record {
      admitted = all_admitted;
      few_files = leb→le (length files) max_changed_files fits;
      few_hunks = some_hunks;
    })
