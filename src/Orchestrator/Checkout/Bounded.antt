-- ===== src/Orchestrator/Checkout/Bounded.antt =====
-- Where a checkout writes, and how many bytes one file adds.
pub mod Counted
use jitgen.Intake.Blob.{Readable}
use jitgen.Orchestrator.Checkout.{CheckoutCaps, CheckoutError, io_failure, refused}
use jitgen.Orchestrator.Checkout.Overlay.{
  Disk, Stat, create_dirs, create_parents, directory, ensure_dir, front, identical, install,
  missing, regular, same_content, special, stat_error, symlink, symlink_err, write_confined,
}
use jitgen.Prelude.{
  All, Bool, List, [], arith, false, if◌then◌else◌, length, refl, subst, sym, true, ℕ, ◌++◌, ◌+◌,
  ◌==◌, ◌∷◌, ◌≡◌, ◌≤◌,
}
use jitgen.Prelude.Effect.{Exec, continue, map_end, map_err, pure, raise, ◌>>=◌}
use jitgen.Prelude.Paths.{Component, cur_dir, normal, parent_dir, path_components, push, root_dir}
use jitgen.Prelude.Paths.Joined.{Named, NamedComponent, path_components-Named}
use jitgen.Prelude.Result.{Result, err, ok}
use jitgen.Prelude.Str.{Text, codes, text_eq}
use jitgen.Sandbox.Os.{read_off}

-- The root, and names one after another below it.
pub data Below (root : Text) : Text → Type 0 where
  at_root : Below root root
  under : {path : Text} (s : Text) → Named s → Below root path → Below root (push path s)

abbrev pub Vacant : Stat → Type 0
Vacant missing = Unit
Vacant (regular n) = Unit
Vacant other = ⊥

-- What a world's file system keeps, `t` being the bytes written so far: a write of a readable path
-- below the root, over nothing but a regular file, and a directory made below the root.
pub record KeepsDisk {W : Type 0} (disk : Disk W) (root : Text) (caps : CheckoutCaps)
    (I : ℕ → W → Type 0) : Type 0 where
  pub written :
      (t : ℕ) (rel : Text) (b : List ℕ) (w : W)
      → Readable rel
      → Vacant (disk.stat (push root rel) w)
      → length b ≤ caps.per_file_bytes
      → I t w
      → I (t + length b) (disk.write (push root rel) b w).1
  pub made :
      (t : ℕ) (path : Text) (w : W)
      → Below root path
      → disk.stat path w ≡ missing
      → I t w
      → I t (disk.create_dir path w).1

-- No more than `most` bytes have been written.
abbrev pub Upto : {W : Type 0} → (ℕ → W → Type 0) → ℕ → W → Type 0
Upto I most w = (t : ℕ) × ((t ≤ most) × I t w)

module _ {W : Type 0} (disk : Disk W) (root : Text) (caps : CheckoutCaps) (I : ℕ → W → Type 0)
    (keeps : KeepsDisk disk root caps I) where
  -- Whatever the ending, at most `most` bytes have been written.
  abbrev pub Ends : {A : Type 0} → ℕ → Result CheckoutError A × W → Type 0
  Ends most r = Upto I most r.1

  Ends-mapped :
      {A : Type 0} (most : ℕ) (r : Result Text A × W)
      → Upto I most r.1
      → Ends most (map_end io_failure r)
  Ends-mapped most (ok a, w) h = h
  Ends-mapped most (err e, w) h = h

  Ends-continue :
      {A B : Type 0} (most more_bytes : ℕ) (f : A → Exec W CheckoutError B)
      (r : Result CheckoutError A × W)
      → most ≤ more_bytes
      → Ends most r
      → ((a : A) (w : W) → Upto I most w → Ends more_bytes (f a w))
      → Ends more_bytes (continue f r)
  Ends-continue most more_bytes f (ok a, w) l h k = k a w h
  Ends-continue most more_bytes f (err e, w) l (t, (le, i)) k = (t, (omega (arith, le, l), i))

  ensured :
      (most : ℕ) (path : Text) (w : W)
      → Below root path
      → Upto I most w
      → Ends most (ensure_dir disk path w)
  unfolding ensure_dir ◌>>=◌ read_off raise pure map_err
  ensured most path w b (t, (le, i)) = of_stat (disk.stat path w) refl
    where
      of_stat :
          (s : Stat)
          → disk.stat path w ≡ s
          → Ends most (
              elim s as (λ s. Exec W CheckoutError (Unit {0})) [
                | symlink ↦ raise (symlink_err path)
                | directory ↦ pure tt
                | missing ↦ map_err io_failure (disk.create_dir path)
                | stat_error e ↦ raise (io_failure e)
                | special ↦
                    raise
                      (refused (codes "overlay path") (codes "non-directory component at " ++ path))
                | regular n ↦
                    raise
                      (refused (codes "overlay path") (codes "non-directory component at " ++ path))
              ]
                w)
      of_stat missing e =
          Ends-mapped most (disk.create_dir path w) (t, (le, keeps.made t path w b e i))
      of_stat symlink e = (t, (le, i))
      of_stat directory e = (t, (le, i))
      of_stat special e = (t, (le, i))
      of_stat (stat_error x) e = (t, (le, i))
      of_stat (regular n) e = (t, (le, i))

  dirs_made :
      (most : ℕ) (rel cur : Text) (cs : List Component) (w : W)
      → All NamedComponent cs
      → Below root cur
      → Upto I most w
      → Ends most (create_dirs disk rel cur cs w)
  unfolding create_dirs ◌>>=◌ pure raise
  dirs_made most rel cur [] w n b h = h
  dirs_made most rel cur (normal s ∷ cs) w n b h =
      Ends-continue most most (λ u. create_dirs disk rel (push cur s) cs) _ (omega arith)
        (ensured most (push cur s) w (under s n.0 b) h)
        λ u w. dirs_made most rel (push cur s) cs w n.1 (under s n.0 b)
  dirs_made most rel cur (cur_dir ∷ cs) w n b h = dirs_made most rel cur cs w n.1 b h
  dirs_made most rel cur (root_dir ∷ cs) w n b h = h
  dirs_made most rel cur (parent_dir ∷ cs) w n b h = h

  front-Named : (cs : List Component) → All NamedComponent cs → All NamedComponent (front cs)
  unfolding front
  front-Named [] h = tt
  front-Named (c ∷ []) h = tt
  front-Named (c ∷ d ∷ cs) h = (h.0, front-Named (d ∷ cs) h.1)

  -- A write of a readable file adds its bytes.
  module _ (most : ℕ) (rel : Text) (bytes : List ℕ) (readable : Readable rel)
      (small : length bytes ≤ caps.per_file_bytes) where
    write-Ends :
        (w : W)
        → Vacant (disk.stat (push root rel) w)
        → Upto I most w
        → Ends (most + length bytes) (map_end io_failure (disk.write (push root rel) bytes w))
    write-Ends w v (t, (le, i)) =
        Ends-mapped (most + length bytes) (disk.write (push root rel) bytes w)
          (t + length bytes, (omega (arith, le), keeps.written t rel bytes w readable v small i))

    weaker : (w : W) → Upto I most w → Upto I (most + length bytes) w
    weaker w (t, (le, i)) = (t, (omega (arith, le), i))

    over_regular :
        (w : W)
        → Vacant (disk.stat (push root rel) w)
        → Upto I most w
        → (same : Bool)
        → Ends
            (most + length bytes)
            ((if same then pure tt else map_err io_failure (disk.write (push root rel) bytes)) w)
    unfolding pure map_err
    over_regular w v h true = weaker w h
    over_regular w v h false = write-Ends w v h

    compared :
        (w : W) (r : Result Text (List ℕ))
        → Vacant (disk.stat (push root rel) w)
        → Upto I most w
        → Ends (most + length bytes) (
            continue
              (λ same.
                if same then pure tt else map_err io_failure (disk.write (push root rel) bytes))
              (continue (λ content. pure (text_eq content bytes)) (map_end io_failure (r, w))))
    unfolding pure
    compared w (ok content) v h = over_regular w v h (text_eq content bytes)
    compared w (err e) v h = weaker w h

    installed :
        (w : W) (s : Stat)
        → disk.stat (push root rel) w ≡ s
        → Upto I most w
        → Ends (most + length bytes) (install disk (push root rel) bytes s w)
    unfolding install identical same_content ◌>>=◌ pure raise map_err
    installed w missing e h = write-Ends w (subst Vacant (sym e) tt) h
    installed w symlink e h = weaker w h
    installed w directory e h = weaker w h
    installed w special e h = weaker w h
    installed w (stat_error x) e h = weaker w h
    installed w (regular n) e h = of_length (n == length bytes)
      where
        of_length :
            (t : Bool)
            → Ends (most + length bytes) (
                continue
                  (λ same.
                    if same then pure tt else map_err io_failure (disk.write (push root rel) bytes))
                  ((if t then same_content disk (push root rel) bytes else pure false) w))
        of_length true = compared w (disk.read (push root rel) w) (subst Vacant (sym e) tt) h
        of_length false = over_regular w (subst Vacant (sym e) tt) h false

    pub confined :
        (w : W) → Upto I most w → Ends (most + length bytes) (write_confined disk root rel bytes w)
    unfolding write_confined create_parents ◌>>=◌ read_off
    confined w h =
        Ends-continue most (most + length bytes) _ _ (omega arith)
          (dirs_made most rel root (front (path_components rel)) w
            (front-Named (path_components rel) (path_components-Named rel)) at_root h)
          λ u w h2. installed w (disk.stat (push root rel) w) refl h2
