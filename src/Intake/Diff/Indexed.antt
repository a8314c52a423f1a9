-- ===== src/Intake/Diff/Indexed.antt =====
-- The index of paths against a scan of the files.
use mathlib.Core.Option
use jitgen.Core.Change.{CoreError, FileChange, LineRange, new_range}
use jitgen.Intake.Blob.{GitError, git_failure}
use jitgen.Intake.Diff.{
  Collecting, DiffEvent, attribute, collect_file_changes, collect_from, delta_head_path, event_step,
  file_change_from_delta, file_event, find_indexed, hunk_at, hunk_event, index_get,
  max_hunks_per_file, max_total_hunks, nothing_collected, push_hunk, too_many_total,
}
use jitgen.Intake.Diff.Scan.{IsIndexed, file_step-IsIndexed, find_scanned, first_with}
use jitgen.Prelude.{
  Bool, List, Option, [], ap, arith, false, if_cases, if◌then◌else◌, leb, length, ltb, none, refl,
  some, subst, suc, sym, true, zero, ℕ, ◌%◌, ◌+◌, ◌-◌, ◌==◌, ◌^◌, ◌∙◌, ◌∷◌, ◌≡◌,
}
use jitgen.Prelude.Result.{Result, err, ok, ok_inj, ◌>>=◌}
use jitgen.Prelude.Str.{Text, text_eq}

-- A hunk put into a file leaves the paths as they are.
abbrev SamePaths : List FileChange → Result GitError (List FileChange) → Type 0
SamePaths fs (err e) = Unit
SamePaths fs (ok gs) = (path : Text) → first_with gs path ≡ first_with fs path

behind-SamePaths :
    (f : FileChange) (fs : List FileChange) (r : Result GitError (List FileChange))
    → SamePaths fs r
    → SamePaths (f ∷ fs) (r >>= λ rest. ok (f ∷ rest))
unfolding first_with
behind-SamePaths f fs (err e) h = tt
behind-SamePaths f fs (ok gs) h =
    λ path. ap (λ o. if text_eq f.path path then some 0 else Option.map suc o) (h path)

push_hunk-SamePaths :
    (path : Text) (fs : List FileChange) (i : ℕ) (range : LineRange)
    → SamePaths fs (push_hunk path fs i range)
unfolding push_hunk first_with
push_hunk-SamePaths path [] i range = λ p. refl
push_hunk-SamePaths path (f ∷ fs) zero range =
    if_cases (SamePaths (f ∷ fs)) (leb max_hunks_per_file (length f.hunks)) _ _ (λ e. tt)
      λ e p. refl
push_hunk-SamePaths path (f ∷ fs) (suc i) range =
    behind-SamePaths f fs (push_hunk path fs i range) (push_hunk-SamePaths path fs i range)

-- Two results are one, and a collection among them is indexed.
abbrev Agree : Result GitError Collecting → Result GitError Collecting → Type 0
Agree r s = (r ≡ s) × ((c : Collecting) → r ≡ ok c → IsIndexed c)

ok-Agree : (c : Collecting) → IsIndexed c → Agree (ok c) (ok c)
ok-Agree c h = (refl, λ d e. subst IsIndexed (ok_inj c d e) h)

put-IsIndexed :
    (c : Collecting) (r : Result GitError (List FileChange))
    → IsIndexed c
    → SamePaths c.files r
    → (d : Collecting)
    → Path (Result GitError Collecting) (r >>= λ files. ok (record c { files = files })) (ok d)
    → IsIndexed d
put-IsIndexed c (ok gs) h p d e =
    subst IsIndexed (ok_inj (record c { files = gs }) d e) λ path. h path ∙ sym (p path)
put-IsIndexed c (err x) h p d e = ground arith

attribute-Agree :
    (path : Text) (range : LineRange) (c : Collecting) (o : Option ℕ)
    → IsIndexed c
    → Agree (attribute find_indexed path range c o) (attribute find_scanned path range c o)
unfolding attribute
attribute-Agree path range c none h = ok-Agree c h
attribute-Agree path range c (some i) h = (
  refl,
  put-IsIndexed c (push_hunk path c.files i range) h (push_hunk-SamePaths path c.files i range),
)

hunk_at-Agree :
    (o : Option Text) (r : Result CoreError LineRange) (c : Collecting)
    → IsIndexed c
    → Agree (hunk_at find_indexed o r c) (hunk_at find_scanned o r c)
unfolding hunk_at find_indexed find_scanned
hunk_at-Agree none r c h = ok-Agree c h
hunk_at-Agree (some path) (err e) c h = ok-Agree c h
hunk_at-Agree (some path) (ok range) c h =
    subst
      (λ o.
        Agree (attribute find_indexed path range c (index_get c.index path))
          (attribute find_scanned path range c o))
      (h path) (attribute-Agree path range c (index_get c.index path) h)

err-Agree : (e : GitError) → Agree (err e) (err e)
err-Agree e = (refl, λ d x. absurd (ground arith))

if-Agree :
    (t : Bool) (a b c d : Result GitError Collecting)
    → Agree a c
    → Agree b d
    → Agree (if t then a else b) (if t then c else d)
if-Agree true a b c d h k = h
if-Agree false a b c d h k = k

event_step-Agree :
    (e : DiffEvent) (c : Collecting)
    → IsIndexed c
    → Agree (event_step find_indexed e c) (event_step find_scanned e c)
unfolding event_step
event_step-Agree (file_event d) c h =
    ok-Agree _ (file_step-IsIndexed (file_change_from_delta d) c h)
event_step-Agree (hunk_event d new_start new_lines) c h =
    if-Agree (ltb max_total_hunks (c.total_hunks + 1)) _ _ _ _ (err-Agree too_many_total) (
      if-Agree (new_lines == 0) _ _ _ _ (ok-Agree _ h) (
        hunk_at-Agree (delta_head_path d)
          (new_range new_start ((new_start + new_lines - 1) % 2 ^ 32)) _ h))

then_same :
    (r s : Result GitError Collecting) (f g : Collecting → Result GitError Collecting)
    → Agree r s
    → ((c : Collecting) → IsIndexed c → f c ≡ g c)
    → (r >>= f) ≡ (s >>= g)
then_same r s f g (e, h) k = subst (λ x. (r >>= f) ≡ (x >>= g)) e (same r h)
  where
    same :
        (x : Result GitError Collecting)
        → ((c : Collecting) → x ≡ ok c → IsIndexed c)
        → (x >>= f) ≡ (x >>= g)
    same (ok c) i = k c (i c refl)
    same (err y) i = refl

collect_from-same :
    (es : List DiffEvent) (c : Collecting)
    → IsIndexed c
    → collect_from find_indexed es c ≡ collect_from find_scanned es c
unfolding collect_from
collect_from-same [] c h = refl
collect_from-same (e ∷ es) c h =
    then_same (event_step find_indexed e c) (event_step find_scanned e c)
      (collect_from find_indexed es) (collect_from find_scanned es) (event_step-Agree e c h)
      (collect_from-same es)

-- Attributing hunks by the index of paths gives what a scan for the first file with the path gives.
pub collect_file_changes-scan :
    (events : List DiffEvent) (walk_error : Option Text)
    → collect_file_changes events walk_error ≡ (
        collect_from find_scanned events nothing_collected >>= λ c. elim walk_error [
          | none ↦ ok c.files
          | some e ↦ err (git_failure e)
        ])
unfolding collect_file_changes first_with
collect_file_changes-scan events walk_error =
    ap (λ r. r >>= λ c. elim walk_error [ none ↦ ok c.files | some e ↦ err (git_failure e) ])
      (collect_from-same events nothing_collected λ path. refl)
