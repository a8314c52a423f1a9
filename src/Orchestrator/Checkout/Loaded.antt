-- ===== src/Orchestrator/Checkout/Loaded.antt =====
-- What the walk of a tree keeps, and what loading a file returns.
use jitgen.Intake.Blob.{
  Git, GitError, Readable, TreeEntry, blob_size_at, content_of, git, ignored_path, is_safe_rel,
  read_blob_at_capped, reject_unsafe_rel, resolve_blob_oid, size_of, too_large, unsafe_path,
}
use jitgen.Intake.Filter.{is_ignored}
use jitgen.Orchestrator.Checkout.{
  CheckoutCaps, Walked, budgeted, collect_blob_paths, completed, entries_exceeded, files_exceeded,
  kept_path, load_file, of_git, of_git2, of_walk, saturating_add, walk_from,
}
use jitgen.Prelude.{
  Bool, List, Option, [], ap, arith, false, if_cases, if◌then◌else◌, leb, length, ltb, none, not,
  not→false, refl, some, some_inj, subst, suc, sym, true, ℕ, ◌++◌, ◌+◌, ◌<◌, ◌^◌, ◌∙◌, ◌∷◌, ◌≡◌,
  ◌≤◌,
}
use jitgen.Prelude.Result.{Result, bind_ok, err, guard, guard_ok, ok, ok_inj}
use jitgen.Prelude.Str.{Text}
use jitgen.Report.Escape.{cap}

-- The size that git2 reads off a blob's header is that of its content.
pub record GitLaws (g : Git) : Type 0 where
  pub header_size :
      (id : Text) (n : ℕ) (b : List ℕ)
      → g.read_header id ≡ ok n
      → g.find_blob id ≡ ok b
      → length b ≡ n

module _ (file_cap : ℕ) where
  abbrev pub CappedWalk : Walked → Type 0
  CappedWalk (completed paths) = length paths ≤ file_cap
  CappedWalk other = Unit

  kept_step :
      (paths : List Text) (o : Option Text) (next : List Text → Walked)
      → ((paths : List Text) → length paths ≤ file_cap → CappedWalk (next paths))
      → length paths ≤ file_cap
      → CappedWalk (elim o [
        | none ↦ next paths
        | some rel ↦
            let found = next (paths ++ rel ∷ []) in
            if ltb file_cap (length (paths ++ rel ∷ [])) then files_exceeded else found
      ])
  kept_step paths none next k h = k paths h
  kept_step paths (some rel) next k h =
      if_cases CappedWalk (ltb file_cap (length (paths ++ rel ∷ []))) _ _ (λ e. tt)
        λ e. k (paths ++ rel ∷ []) (ground arith)

  walk_from-Capped :
      (entry_cap : ℕ) (reject_unsafe : Bool) (es : List TreeEntry) (raw : ℕ) (paths : List Text)
      → length paths ≤ file_cap
      → CappedWalk (walk_from file_cap entry_cap reject_unsafe es raw paths)
  unfolding walk_from
  walk_from-Capped entry_cap reject_unsafe [] raw paths h = h
  walk_from-Capped entry_cap reject_unsafe (e ∷ es) raw paths h =
      if_cases CappedWalk (ltb entry_cap (suc raw)) _ _ (λ t. tt)
        λ t.
          kept_step paths (kept_path reject_unsafe e)
            (walk_from file_cap entry_cap reject_unsafe es (suc raw))
            (walk_from-Capped entry_cap reject_unsafe es (suc raw)) h

of_walk-completed :
    (what : Text) (file_cap entry_cap : ℕ) (e : Option Text) (walked : Walked) (paths : List Text)
    → of_walk what file_cap entry_cap e walked ≡ ok paths
    → CappedWalk file_cap walked
    → length paths ≤ file_cap
unfolding of_walk
of_walk-completed what file_cap entry_cap e entries_exceeded paths h c = ground arith
of_walk-completed what file_cap entry_cap e files_exceeded paths h c = ground arith
of_walk-completed what file_cap entry_cap none (completed found) paths h c =
    subst (λ l. length l ≤ file_cap) (ok_inj found paths h) c
of_walk-completed what file_cap entry_cap (some e) (completed found) paths h c = ground arith

pub collect_blob_paths-length :
    (g : Git) (oid what : Text) (file_cap entry_cap : ℕ) (reject_unsafe : Bool) (paths : List Text)
    → collect_blob_paths g oid what file_cap entry_cap reject_unsafe ≡ ok paths
    → length paths ≤ file_cap
unfolding collect_blob_paths
collect_blob_paths-length g oid what file_cap entry_cap reject_unsafe paths h =
    let (u, e, k) = bind_ok (of_git2 (g.find_tree oid)) _ paths h in
    of_walk-completed what file_cap entry_cap (g.walk_error oid) _ paths k
      (walk_from-Capped file_cap entry_cap reject_unsafe (g.entries oid) 0 [] (omega arith))

git_ok : {A : Type 0} (r : Result Text A) (a : A) → git r ≡ ok a → r ≡ ok a
unfolding git
git_ok (ok b) a h = ap ok (ok_inj b a h)
git_ok (err e) a h = ground arith

of_git_ok : {A : Type 0} (r : Result GitError A) (a : A) → of_git r ≡ ok a → r ≡ ok a
unfolding of_git
of_git_ok (ok b) a h = ap ok (ok_inj b a h)
of_git_ok (err e) a h = ground arith

module _ (g : Git) (oid rel : Text) where
  resolved-Readable : (found : Option Text) → resolve_blob_oid g oid rel ≡ ok found → Readable rel
  unfolding resolve_blob_oid reject_unsafe_rel
  resolved-Readable found h =
      let (u, e, k) = bind_ok (reject_unsafe_rel rel) _ found h in
      let (v, e2, k2) = bind_ok (guard (not (is_ignored rel)) (ignored_path rel)) _ found k in
      let kept = guard_ok (not (is_ignored rel)) (ignored_path rel) v e2 in
      record { safe = rejected_safe (is_safe_rel rel) u e; kept = not→false (is_ignored rel) kept }
    where
      rejected_safe :
          (t : Bool) (u : Unit {0})
          → Path (Result GitError Unit) (if t then ok tt else err (unsafe_path rel)) (ok u)
          → t ≡ true
      rejected_safe true u e = refl
      rejected_safe false u e = ground arith

  size_some :
      (found : Option Text) (n : ℕ)
      → size_of g oid found ≡ ok (some n)
      → (id : Text) × (found ≡ some id) × (g.read_header id ≡ ok n)
  unfolding size_of
  size_some none n h = ground arith
  size_some (some id) n h =
      let (m, e, k) = bind_ok (git (g.read_header id)) _ (some n) h in
      (id, refl, git_ok (g.read_header id) m e ∙ ap ok (some_inj m n (ok_inj (some m) (some n) k)))

  content_some :
      (max : ℕ) (found : Option Text) (b : List ℕ)
      → content_of g oid max found ≡ ok (some b)
      → (id : Text) × (found ≡ some id) × (g.find_blob id ≡ ok b)
  unfolding content_of
  content_some max none b h = ground arith
  content_some max (some id) b h =
      let (m, e, k) = bind_ok (git (g.read_header id)) _ (some b) h in
      let (u, e2, k2) = bind_ok (guard (leb m max) (too_large m)) _ (some b) k in
      let (c, e3, k3) = bind_ok (git (g.find_blob id)) _ (some b) k2 in
      (id, refl, git_ok (g.find_blob id) c e3 ∙ ap ok (some_inj c b (ok_inj (some c) (some b) k3)))

  -- A size and a content that are read of one path belong together, and the path is readable.
  loaded_length :
      (laws : GitLaws g) (max n : ℕ) (b : List ℕ)
      → blob_size_at g oid rel ≡ ok (some n)
      → read_blob_at_capped g oid rel max ≡ ok (some b)
      → (length b ≡ n) × Readable rel
  unfolding blob_size_at read_blob_at_capped
  loaded_length laws max n b h k =
      let (f1, r1, s) = bind_ok (resolve_blob_oid g oid rel) (size_of g oid) (some n) h in
      let (f2, r2, c) = bind_ok (resolve_blob_oid g oid rel) (content_of g oid max) (some b) k in
      let (i1, e1, header) = size_some f1 n s in
      let (i2, e2, blob) = content_some max f2 b c in
      let same = some_inj i2 i1 (sym e2 ∙ ok_inj f2 f1 (sym r2 ∙ r1) ∙ e1) in
      (
        laws.header_size i1 n b header (subst (λ i. g.find_blob i ≡ ok b) same blob),
        resolved-Readable f1 r1,
      )

-- What loading a file with a total so far returns.
module _ (caps : CheckoutCaps) (rel : Text) (total : ℕ) where
  abbrev pub Loaded : ℕ × Option (List ℕ) → Type 0
  Loaded (sum, none) = (total ≤ sum) × (sum ≤ caps.total_bytes)
  Loaded (sum, some b) =
      (total + length b ≤ sum)
      × (sum ≤ caps.total_bytes)
      × (length b ≤ caps.per_file_bytes)
      × Readable rel

saturating_add-exact :
    (a b cap : ℕ)
    → cap + 1 < 2 ^ 64
    → leb (saturating_add a b) cap ≡ true
    → saturating_add a b ≡ a + b
unfolding saturating_add
saturating_add-exact a b cap h k = ground arith

module _ (g : Git) (laws : GitLaws g) (oid rel : Text) (caps : CheckoutCaps)
    (bounded : caps.total_bytes + 1 < 2 ^ 64) (total : ℕ) (within : total ≤ caps.total_bytes) where
  budgeted-Loaded :
      (size : Option ℕ) (a : ℕ × Option (List ℕ))
      → blob_size_at g oid rel ≡ ok size
      → budgeted g oid caps rel total size ≡ ok a
      → Loaded caps rel total a
  unfolding budgeted
  budgeted-Loaded none a e h =
      subst (Loaded caps rel total) (ok_inj (total, none) a h) (omega arith, within)
  budgeted-Loaded (some size) a e h =
      let (u, e1, k1) = bind_ok (guard (leb size caps.per_file_bytes) _) _ a h in
      let (v, e2, k2) =
        bind_ok (guard (leb (saturating_add total size) caps.total_bytes) _) _ a k1 in
      let (bytes, e3, k3) =
        bind_ok (of_git (read_blob_at_capped g oid rel caps.per_file_bytes)) _ a k2 in
      let small = guard_ok (leb size caps.per_file_bytes) _ u e1 in
      let fits = guard_ok (leb (saturating_add total size) caps.total_bytes) _ v e2 in
      let exact = saturating_add-exact total size caps.total_bytes bounded fits in
      subst (Loaded caps rel total) (ok_inj (saturating_add total size, bytes) a k3)
        (with_bytes size small fits exact e bytes (of_git_ok _ bytes e3))
    where
      with_bytes :
          (size : ℕ)
          → leb size caps.per_file_bytes ≡ true
          → leb (saturating_add total size) caps.total_bytes ≡ true
          → saturating_add total size ≡ total + size
          → blob_size_at g oid rel ≡ ok (some size)
          → (bytes : Option (List ℕ)) → read_blob_at_capped g oid rel caps.per_file_bytes ≡ ok bytes
          → Loaded caps rel total (saturating_add total size, bytes)
      with_bytes size small fits exact e none r = (ground arith, ground arith)
      with_bytes size small fits exact e (some b) r =
          let (len_b, readable) = loaded_length g oid rel laws caps.per_file_bytes size b e r in
          (ground arith, ground arith, ground arith, readable)

  pub load_file-Loaded :
      (a : ℕ × Option (List ℕ)) → load_file g oid caps rel total ≡ ok a → Loaded caps rel total a
  unfolding load_file
  load_file-Loaded a h =
      let (size, e, k) =
        bind_ok (of_git (blob_size_at g oid rel)) (budgeted g oid caps rel total) a h in
      budgeted-Loaded size a (of_git_ok _ size e) k
