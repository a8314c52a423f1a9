-- ===== src/Orchestrator/Checkout/Bounded/Counted.antt =====
-- What the whole checkout writes and returns.
use jitgen.Intake.Blob.{Git}
use jitgen.Orchestrator.Checkout.{
  CheckoutCaps, CheckoutError, collect_blob_paths, load_file, production,
}
use jitgen.Orchestrator.Checkout.Bounded.{Ends, KeepsDisk, Upto, confined}
use jitgen.Orchestrator.Checkout.Loaded.{
  GitLaws, Loaded, collect_blob_paths-length, load_file-Loaded,
}
use jitgen.Orchestrator.Checkout.Overlay.{
  Disk, checkout_revision, checkout_revision_with_caps, write_confined, write_files,
}
use jitgen.Prelude.{
  List, Option, [], arith, length, none, refl, some, suc, true, ℕ, ◌*◌, ◌+◌, ◌<◌, ◌^◌, ◌∷◌, ◌≡◌,
  ◌≤◌,
}
use jitgen.Prelude.Effect.{Exec, Post, continue, pure, ◌>>=◌}
use jitgen.Prelude.Result.{Result, err, ok}
use jitgen.Prelude.Str.{Text, codes}
use jitgen.Sandbox.Os.{of_result}

module _ {W : Type 0} (disk : Disk W) (root : Text) (caps : CheckoutCaps) (I : ℕ → W → Type 0)
    (keeps : KeepsDisk disk root caps I) where
  module _ (g : Git) (laws : GitLaws g) (oid : Text) (bounded : caps.total_bytes + 1 < 2 ^ 64) where
    -- The count returned, and the bytes written whatever the ending.
    abbrev Wrote : ℕ → Result CheckoutError ℕ × W → Type 0
    Wrote most (ok n, w) = (n ≤ most) × Upto I caps.total_bytes w
    Wrote most (err e, w) = Upto I caps.total_bytes w

    wrote_continue :
        {A : Type 0} (most sum : ℕ) (f : A → Exec W CheckoutError ℕ)
        (r : Result CheckoutError A × W)
        → sum ≤ caps.total_bytes
        → Ends disk root caps I keeps sum r
        → ((a : A) (w : W) → Upto I sum w → Wrote most (f a w))
        → Wrote most (continue f r)
    wrote_continue most sum f (ok a, w) l h k = k a w h
    wrote_continue most sum f (err e, w) l (t, (le, i)) k = (t, (omega (arith, le, l), i))

    up_to : (a b : ℕ) (w : W) → a ≤ b → Upto I a w → Upto I b w
    up_to a b w l (t, (le, i)) = (t, (omega (arith, le, l), i))

    fewer : (m n : ℕ) (r : Result CheckoutError ℕ × W) → m ≤ n → Wrote m r → Wrote n r
    fewer m n (ok k, w) l h = (omega (arith, h.0, l), h.1)
    fewer m n (err e, w) l h = h

    loaded_step :
        (rel : Text) (rels : List Text) (count total : ℕ) (w : W)
        (r : Result CheckoutError (ℕ × Option (List ℕ)))
        → ((a : ℕ × Option (List ℕ)) → r ≡ ok a → Loaded caps rel total a)
        → ((n sum : ℕ) (w : W)
            → sum ≤ caps.total_bytes
            → Upto I sum w
            → Wrote (n + length rels) (write_files disk g oid root caps rels n sum w))
        → total ≤ caps.total_bytes
        → Upto I total w
        → Wrote (count + suc (length rels)) (
            continue
              (λ (a : ℕ × Option (List ℕ)). elim a.1 as (λ b. Exec W CheckoutError ℕ) [
                | none ↦ write_files disk g oid root caps rels count a.0
                | some b ↦ write_confined disk root rel b >>= λ u.
                    write_files disk g oid root caps rels (suc count) a.0
              ])
              (r, w))
    unfolding ◌>>=◌
    loaded_step rel rels count total w (err e) l ih le h = up_to total caps.total_bytes w le h
    loaded_step rel rels count total w (ok (sum, none)) l ih le h =
        let (le2, fits) = l (sum, none) refl in
        fewer (count + length rels) (count + suc (length rels)) _ (omega arith)
          (ih count sum w fits (up_to total sum w le2 h))
    loaded_step rel rels count total w (ok (sum, some b)) l ih le h =
        let (le2, fits, small, readable) = l (sum, some b) refl in
        wrote_continue (count + suc (length rels)) sum _ _ fits
          (up_to (total + length b) sum (write_confined disk root rel b w).1 le2
            (confined disk root caps I keeps total rel b readable small w h))
          λ u x h2.
            fewer (suc count + length rels) (count + suc (length rels)) _ (omega arith)
              (ih (suc count) sum x fits h2)

    files_wrote :
        (rels : List Text) (n sum : ℕ) (w : W)
        → sum ≤ caps.total_bytes
        → Upto I sum w
        → Wrote (n + length rels) (write_files disk g oid root caps rels n sum w)
    unfolding write_files ◌>>=◌ pure of_result
    files_wrote [] n sum w le h = (omega arith, up_to sum caps.total_bytes w le h)
    files_wrote (rel ∷ rels) n sum w le h =
        loaded_step rel rels n sum w (load_file g oid caps rel sum)
          (load_file-Loaded g laws oid rel caps bounded sum le) (files_wrote rels) le h

    collected :
        (w : W) (r : Result CheckoutError (List Text))
        → ((paths : List Text) → r ≡ ok paths → length paths ≤ caps.materialized_files)
        → I 0 w
        → Wrote caps.materialized_files
            (continue (λ paths. write_files disk g oid root caps paths 0 0) (r, w))
    collected w (err e) k i = (0, (omega arith, i))
    collected w (ok paths) k i =
        fewer (0 + length paths) caps.materialized_files _
          (let l = k paths refl in omega (arith, l))
          (files_wrote paths 0 0 w (omega arith) (0, (omega arith, i)))

    capped_checkout :
        (w : W)
        → I 0 w
        → Wrote caps.materialized_files (checkout_revision_with_caps disk g oid root caps w)
    unfolding checkout_revision_with_caps ◌>>=◌ of_result
    capped_checkout w i =
        collected w
          (collect_blob_paths g oid (codes "overlay") caps.materialized_files caps.tree_entries
            true)
          (collect_blob_paths-length g oid (codes "overlay") caps.materialized_files
            caps.tree_entries true)
          i

-- However a checkout of a revision ends, it has written no more than 2 GiB, and the number of files
-- that it returns is at most 50000. Each write is of at most 64 MiB to a readable path below the root,
-- where there is nothing or a regular file, and each directory is made below the root where there is
-- nothing: what such writes and directories keep of a world, the checkout keeps. It is assumed that
-- the size in a blob's header is that of its content.
pub checkout_revision-Keeps :
    {W : Type 0} (disk : Disk W) (g : Git) (oid root : Text) (I : ℕ → W → Type 0)
    → KeepsDisk disk root production I
    → GitLaws g
    → (w : W) → I 0 w
    → Post
        (λ n w. (n ≤ 50000) × Upto I (2 * 1024 * 1024 * 1024) w)
        (λ e w. Upto I (2 * 1024 * 1024 * 1024) w)
        (checkout_revision disk g oid root w)
unfolding checkout_revision
checkout_revision-Keeps {W = W} disk g oid root I keeps laws w i =
    of_wrote (checkout_revision_with_caps disk g oid root production w)
      (capped_checkout disk root production I keeps g laws oid (omega arith) w i)
  where
    of_wrote :
        (r : Result CheckoutError ℕ × W)
        → Wrote disk root production I keeps g laws oid (omega arith) 50000 r
        → Post
            (λ n w. (n ≤ 50000) × Upto I (2 * 1024 * 1024 * 1024) w)
            (λ e w. Upto I (2 * 1024 * 1024 * 1024) w)
            r
    of_wrote (ok n, w) h = h
    of_wrote (err e, w) h = h
