-- ===== src/Intake/Diff/Scan.antt =====
-- A scan for the first file with a path, and the index that remembers what it finds.
-- The position of the first file with a path.
use mathlib.Core.Option
use jitgen.Core.Change.{FileChange}
use jitgen.Intake.Diff.{Collecting, file_step, index_get, or_insert}
use jitgen.Prelude.{
  Bool-cases, List, Option, [], ap, if◌then◌else◌, inl, inr, length, none, refl, some, subst, suc,
  sym, ℕ, ◌++◌, ◌∙◌, ◌∷◌, ◌≡◌,
}
use jitgen.Prelude.Str.{Text, text_eq, text_eq_iff}

unfoldable pub first_with : List FileChange → Text → Option ℕ
unfolding text_eq
first_with [] path = none
first_with (f ∷ fs) path =
    let rest = first_with fs path in if text_eq f.path path then some 0 else Option.map suc rest

-- `find_indexed` without the index: the linear scan.
unfoldable pub find_scanned : Collecting → Text → Option ℕ
unfolding first_with
find_scanned c path = first_with c.files path

abbrev pub IsIndexed : Collecting → Type 0
IsIndexed c = (path : Text) → index_get c.index path ≡ first_with c.files path

-- A position found, or else another.
or_else : Option ℕ → Option ℕ → Option ℕ
or_else (some i) o = some i
or_else none o = o

map-or_else :
    (a b : Option ℕ) → or_else (Option.map suc a) (Option.map suc b) ≡ Option.map suc (or_else a b)
unfolding or_else
map-or_else (some i) b = refl
map-or_else none b = refl

last_at : FileChange → ℕ → Text → Option ℕ
unfolding text_eq
last_at f n path = if text_eq f.path path then some n else none

last_at-suc :
    (f : FileChange) (n : ℕ) (path : Text)
    → last_at f (suc n) path ≡ Option.map suc (last_at f n path)
unfolding last_at
last_at-suc f n path = elim (Bool-cases (text_eq f.path path)) [
  | inl e ↦ rw e refl
  | inr e ↦ rw e refl
]

first_with-snoc :
    (fs : List FileChange) (f : FileChange) (path : Text)
    → first_with (fs ++ f ∷ []) path ≡ or_else (first_with fs path) (last_at f (length fs) path)
unfolding first_with last_at or_else
first_with-snoc [] f path = elim (Bool-cases (text_eq f.path path)) [
  | inl e ↦ rw e refl
  | inr e ↦ rw e refl
]
first_with-snoc (g ∷ fs) f path = elim (Bool-cases (text_eq g.path path)) [
  | inl e ↦ rw e refl
  | inr e ↦
      rw (e, first_with-snoc fs f path)
        (sym (map-or_else (first_with fs path) (last_at f (length fs) path))
          ∙ ap (or_else (Option.map suc (first_with fs path)))
              (sym (last_at-suc f (length fs) path)))
]

or_else-none : (a : Option ℕ) → or_else a none ≡ a
unfolding or_else
or_else-none (some i) = refl
or_else-none none = refl

-- Behind a path that is found, the same path is not looked for.
covered :
    (index : List (Text × ℕ)) (f : FileChange) (n i : ℕ) (q : Text)
    → index_get index f.path ≡ some i
    → index_get index q ≡ or_else (index_get index q) (last_at f n q)
unfolding last_at or_else
covered index f n i q e = elim (Bool-cases (text_eq f.path q)) [
  | inl t ↦
      let found = subst (λ p. index_get index p ≡ some i) ((text_eq_iff f.path q).0 t) e in
      rw found refl
  | inr t ↦ rw t (sym (or_else-none (index_get index q)))
]

entered :
    (index : List (Text × ℕ)) (f : FileChange) (n : ℕ) (q : Text)
    → index_get index f.path ≡ none
    → index_get ((f.path, n) ∷ index) q ≡ or_else (index_get index q) (last_at f n q)
unfolding last_at or_else index_get
entered index f n q e = elim (Bool-cases (text_eq f.path q)) [
  | inl t ↦
      let found = subst (λ p. index_get index p ≡ none) ((text_eq_iff f.path q).0 t) e in
      rw (t, found) refl
  | inr t ↦ rw t (sym (or_else-none (index_get index q)))
]

or_insert-get :
    (index : List (Text × ℕ)) (f : FileChange) (n : ℕ) (q : Text)
    → index_get (or_insert index f.path n) q ≡ or_else (index_get index q) (last_at f n q)
unfolding or_insert
or_insert-get index f n q = of_found (index_get index f.path) refl
  where
    of_found :
        (o : Option ℕ)
        → index_get index f.path ≡ o
        → index_get (elim o [ some j ↦ index | none ↦ (f.path, n) ∷ index ]) q
          ≡ or_else (index_get index q) (last_at f n q)
    of_found (some i) e = covered index f n i q e
    of_found none e = entered index f n q e

pub file_step-IsIndexed :
    (o : Option FileChange) (c : Collecting) → IsIndexed c → IsIndexed (file_step o c)
unfolding file_step
file_step-IsIndexed none c h path = h path
file_step-IsIndexed (some f) c h path =
    or_insert-get c.index f (length c.files) path
    ∙ ap (λ o. or_else o (last_at f (length c.files) path)) (h path)
    ∙ sym (first_with-snoc c.files f path)
