-- ===== src/Prelude/Split.antt =====
-- What `split`, `join` and `filter` do to each other.
use jitgen.Prelude.{
  ==_iff, All, Bool, Bool-cases, List, [], any, ap, append_assoc, arith, false, filter, if_cases,
  inl, inr, is_empty, refl, true, ℕ, ◌++◌, ◌==◌, ◌∙◌, ◌∷◌, ◌≡◌,
}
use jitgen.Prelude.Str.{Text, glue, join, split}

glue-append :
    (c : ℕ) (ps qs : List Text) → is_empty ps ≡ false → glue c (ps ++ qs) ≡ glue c ps ++ qs
unfolding glue
glue-append c [] qs h = ground arith
glue-append c (p ∷ ps) qs h = refl

split-nonempty : (sep : ℕ) (s : Text) → is_empty (split sep s) ≡ false
unfolding split glue
split-nonempty sep [] = refl
split-nonempty sep (c ∷ s) =
    if_cases (λ (l : List Text). is_empty l ≡ false) (c == sep) _ _ (λ e. refl)
      λ e. of_glue (split sep s)
  where
    of_glue : (ps : List Text) → is_empty (glue c ps) ≡ false
    of_glue [] = refl
    of_glue (p ∷ ps) = refl

-- A separator parts the pieces of what stands before it from those of what stands behind it.
pub split-append : (sep : ℕ) (a b : Text) → split sep (a ++ sep ∷ b) ≡ split sep a ++ split sep b
unfolding split
split-append sep [] b = rw ((==_iff sep sep).1 refl) refl
split-append sep (c ∷ a) b = elim (Bool-cases (c == sep)) [
  | inl e ↦ rw (e, split-append sep a b)
  | inr e ↦
      rw (e, split-append sep a b, glue-append c (split sep a) (split sep b) (split-nonempty sep a))
]

-- A text without the separator is the only piece of itself.
pub split-free : (sep : ℕ) (s : Text) → any (λ c. c == sep) s ≡ false → split sep s ≡ s ∷ []
unfolding split glue
split-free sep [] h = refl
split-free sep (c ∷ s) h =
    let here : (c == sep) ≡ false = ground arith in
    let later : any (λ d. d == sep) s ≡ false = ground arith in rw (here, split-free sep s later)

-- No piece holds the separator.
pub split-pieces : (sep : ℕ) (s : Text) → All (λ p. any (λ c. c == sep) p ≡ false) (split sep s)
unfolding split
split-pieces sep [] = (refl, tt)
split-pieces sep (c ∷ s) =
    if_cases (All (λ p. any (λ d. d == sep) p ≡ false)) (c == sep) _ _
      (λ e. (refl, split-pieces sep s)) λ e. of_glue e (split sep s) (split-pieces sep s)
  where
    of_glue :
        (c == sep) ≡ false
        → (ps : List Text) → All (λ p. any (λ d. d == sep) p ≡ false) ps
        → All (λ p. any (λ d. d == sep) p ≡ false) (glue c ps)
    of_glue e [] h = (ground arith, tt)
    of_glue e (p ∷ ps) h = (ground arith, h.1)

-- Pieces without the separator are found again in their join.
pub split-join :
    (sep : ℕ) (p : Text) (ps : List Text)
    → All (λ q. any (λ c. c == sep) q ≡ false) (p ∷ ps)
    → split sep (join (sep ∷ []) (p ∷ ps)) ≡ p ∷ ps
unfolding join
split-join sep p [] h = split-free sep p h.0
split-join sep p (q ∷ ps) h =
    ap (split sep) (append_assoc p (sep ∷ []) (join (sep ∷ []) (q ∷ ps)))
    ∙ split-append sep p (join (sep ∷ []) (q ∷ ps))
    ∙ rw (split-free sep p h.0, split-join sep q ps h.1)

module _ {A : Type 0} where
  pub filter-append :
      (f : A → Bool) (xs ys : List A) → filter f (xs ++ ys) ≡ filter f xs ++ filter f ys
  filter-append f [] ys = refl
  filter-append f (x ∷ xs) ys = elim (Bool-cases (f x)) [
    | inl e ↦ rw (e, filter-append f xs ys)
    | inr e ↦ rw (e, filter-append f xs ys)
  ]

  -- A member of the filtered list has what the members had, and passes the test.
  pub All-filter :
      (P : A → Type 0) (f : A → Bool) (xs : List A)
      → All P xs
      → All (λ x. P x × (f x ≡ true)) (filter f xs)
  All-filter P f [] h = tt
  All-filter P f (x ∷ xs) h =
      if_cases (All (λ y. P y × (f y ≡ true))) (f x) _ _ (λ e. ((h.0, e), All-filter P f xs h.1))
        λ e. All-filter P f xs h.1
