-- ===== src/Prelude/TextMap.antt =====
-- Rust's `BTreeMap<String, String>`: rows in the order of their keys.
use jitgen.Prelude.{
  All, Bool, Bool-cases, List, Option, [], false, if_cases, if◌then◌else◌, inl, inr, ltb, none,
  some, true, ◌&&◌, ◌==◌, ◌||◌, ◌∷◌, ◌≡◌,
}
use jitgen.Prelude.Str.{Text, text_eq, text_eq_iff, text_eq_refl}

abbrev pub TextMap : Type 0
TextMap = List (Text × Text)

-- `<` on strings: UTF-8 orders as the scalar values do.
unfoldable pub text_lt : Text → Text → Bool
text_lt s [] = false
text_lt [] (d ∷ t) = true
text_lt (c ∷ s) (d ∷ t) = ltb c d || c == d && text_lt s t

unfoldable pub map_get : TextMap → Text → Option Text
unfolding text_eq
map_get [] k = none
map_get ((j, v) ∷ m) k = let rest = map_get m k in if text_eq j k then some v else rest

unfoldable pub map_insert : TextMap → Text → Text → TextMap
unfolding text_eq text_lt
map_insert [] k v = (k, v) ∷ []
map_insert ((j, u) ∷ m) k v =
    let rest = map_insert m k v in
    if text_eq j k then (k, v) ∷ m else if text_lt k j then (k, v) ∷ (j, u) ∷ m else (j, u) ∷ rest

pub get-insert : (m : TextMap) (k v : Text) → map_get (map_insert m k v) k ≡ some v
unfolding map_get map_insert
get-insert [] k v = rw (text_eq_refl k)
get-insert ((j, u) ∷ m) k v = elim (Bool-cases (text_eq j k)) [
  | inl e ↦ rw (e, text_eq_refl k)
  | inr e ↦ elim (Bool-cases (text_lt k j)) [
    | inl l ↦ rw (e, l, text_eq_refl k)
    | inr l ↦ rw (e, l, e, get-insert m k v)
  ]
]

pub get-insert_other :
    (m : TextMap) (k l v : Text) → text_eq k l ≡ false → map_get (map_insert m k v) l ≡ map_get m l
unfolding map_get map_insert
get-insert_other [] k l v n = rw n
get-insert_other ((j, u) ∷ m) k l v n = elim (Bool-cases (text_eq j k)) [
  | inl e ↦ rw (e, n, (text_eq_iff j k).0 e, n)
  | inr e ↦ elim (Bool-cases (text_lt k j)) [
    | inl h ↦ rw (e, h, n)
    | inr h ↦ rw (e, h, get-insert_other m k l v n)
  ]
]

-- What every row has is kept by an insertion of a row that has it.
pub All-insert :
    (P : Text × Text → Type 0) (m : TextMap) (k v : Text)
    → All P m
    → P (k, v)
    → All P (map_insert m k v)
unfolding map_insert
All-insert P [] k v h p = (p, tt)
All-insert P ((j, u) ∷ m) k v (q, h) p =
    if_cases (All P) (text_eq j k) _ _ (λ e. (p, h))
      λ e. if_cases (All P) (text_lt k j) _ _ (λ l. (p, (q, h))) λ l. (q, All-insert P m k v h p)
