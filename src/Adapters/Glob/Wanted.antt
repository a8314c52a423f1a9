-- ===== src/Adapters/Glob/Wanted.antt =====
-- What a pattern should match, with no order of search in it.
use jitgen.Prelude.{Bool, List, [], arith, false, inl, inr, true, ◌∷◌, ◌≡◌, ◌⊎◌}

module _ {P S : Type 0} (is_star : P → Bool) (accepts : P → S → Bool) where
  -- A star stands for any run of items, and any other pattern item for one that it accepts.
  pub data Matches : List P → List S → Type 0 where
    ended : Matches [] []
    one :
        {q : P} {x : S} {p : List P} {s : List S}
        → is_star q ≡ false
        → accepts q x ≡ true
        → Matches p s
        → Matches (q ∷ p) (x ∷ s)
    leave : {q : P} {p : List P} {s : List S} → is_star q ≡ true → Matches p s → Matches (q ∷ p) s
    more :
        {q : P} {x : S} {p : List P} {s : List S}
        → is_star q ≡ true
        → Matches (q ∷ p) s
        → Matches (q ∷ p) (x ∷ s)

  pub one_inv :
      {q : P} {x : S} {p : List P} {s : List S}
      → is_star q ≡ false
      → Matches (q ∷ p) (x ∷ s)
      → (accepts q x ≡ true) × Matches p s
  one_inv n (one e a d) = (a, d)
  one_inv n (leave e d) = ground arith
  one_inv n (more e d) = ground arith

  pub star_inv :
      {q : P} {x : S} {p : List P} {s : List S}
      → is_star q ≡ true
      → Matches (q ∷ p) (x ∷ s)
      → Matches p (x ∷ s) ⊎ Matches (q ∷ p) s
  star_inv t (one e a d) = ground arith
  star_inv t (leave e d) = inl d
  star_inv t (more e d) = inr d
