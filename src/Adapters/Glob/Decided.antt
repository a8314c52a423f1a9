-- ===== src/Adapters/Glob/Decided.antt =====
-- The loops decide what a pattern should match.
use jitgen.Adapters.Glob.{Back, Outcome, only_stars, retry, rounds, star_first}
use jitgen.Adapters.Glob.Wanted.{Matches, ended, leave, more, one, one_inv, star_inv}
use jitgen.Prelude.{
  Bool, List, [], all, and_split, arith, false, if_cases, inl, inr, length, none, refl, some, suc,
  true, zero, ℕ, ◌*◌, ◌+◌, ◌<◌, ◌↔◌, ◌∷◌, ◌≡◌, ◌≤◌, ◌⊎◌,
}

module _ {P S : Type 0} (is_star : P → Bool) (accepts : P → S → Bool) where
  abbrev pub M : List P → List S → Type 0
  M p s = Matches is_star accepts p s

  -- The pattern matches the text behind some run of its items.
  abbrev Skips : List P → List S → Type 0
  Skips p [] = M p []
  Skips p (x ∷ s) = M p (x ∷ s) ⊎ Skips p s

  Skips-none : (p : List P) (s : List S) → M p s → Skips p s
  Skips-none p [] d = d
  Skips-none p (x ∷ s) d = inl d

  star→Skips : (q : P) (p : List P) (s : List S) → is_star q ≡ true → M (q ∷ p) s → Skips p s
  star→Skips q p [] t (leave e d) = d
  star→Skips q p (x ∷ s) t d = elim (star_inv is_star accepts t d) [
    | inl now ↦ inl now
    | inr later ↦ inr (star→Skips q p s t later)
  ]

  Skips→star : (q : P) (p : List P) (s : List S) → is_star q ≡ true → Skips p s → M (q ∷ p) s
  Skips→star q p [] t d = leave t d
  Skips→star q p (x ∷ s) t (inl d) = leave t d
  Skips→star q p (x ∷ s) t (inr d) = more t (Skips→star q p s t d)

  Skips-star : (q : P) (p : List P) (s : List S) → is_star q ≡ true → Skips (q ∷ p) s → Skips p s
  Skips-star q p [] t d = star→Skips q p [] t d
  Skips-star q p (x ∷ s) t (inl d) = star→Skips q p (x ∷ s) t d
  Skips-star q p (x ∷ s) t (inr d) = inr (Skips-star q p s t d)

  Skips-one :
      (q : P) (p : List P) (s : List S) (x : S)
      → is_star q ≡ false
      → Skips (q ∷ p) (x ∷ s)
      → Skips p s
  Skips-one q p s x n (inl d) = Skips-none p s (one_inv is_star accepts n d).1
  Skips-one q p [] x n (inr (leave e d)) = ground arith
  Skips-one q p (y ∷ s) x n (inr d) = inr (Skips-one q p s y n d)

  leave_inv : (q : P) (p : List P) → M (q ∷ p) [] → (is_star q ≡ true) × M p []
  leave_inv q p (leave e d) = (e, d)

  only_stars_iff : (p : List P) → (only_stars is_star p ≡ true) ↔ M p []
  unfolding only_stars
  only_stars_iff [] = (λ h. ended, λ d. refl)
  only_stars_iff (q ∷ p) = (
    λ h.
        let (t, rest) = and_split (is_star q) (all is_star p) h in
        leave t ((only_stars_iff p).0 rest),
    λ d. let (t, d2) = leave_inv q p d in let rest = (only_stars_iff p).1 d2 in ground arith,
  )

  module _ (G : Type 0) (k : ℕ) where
    -- The loop ended with an answer, and it is right about `G`.
    abbrev pub Answers : Outcome → Type 0
    Answers none = ⊥
    Answers (some true) = G
    Answers (some false) = ¬ G

    -- What the saved star means; `m` bounds the text that can still be retried.
    abbrev Saved : ℕ → List P → List S → Back P S → Type 0
    Saved m p s none = (G → M p s) × (length s ≤ m)
    Saved m p s (some (sp, mark)) =
        (G ↔ Skips sp mark)
        × (M sp mark → M p s)
        × (length s ≤ length mark)
        × (length mark ≤ m)
        × (length sp < k)

    record Inv (fuel m : ℕ) (p : List P) (s : List S) (back : Back P S) : Type 0 where
      now : M p s → G
      later : G → Skips p s
      saved : Saved m p s back
      short : length s ≤ m
      pattern_short : length p < k
      enough : m * k + length p < fuel

    Inv-restart :
        (fuel m : ℕ) (p : List P) (s : List S)
        → G ↔ Skips p s
        → length s ≤ m
        → length p < k
        → m * k + length p < fuel
        → Inv fuel m p s (some (p, s))
    Inv-restart fuel m p s e hs hp hf = record {
      now = λ d. e.1 (Skips-none p s d);
      later = e.0;
      saved = (e, λ d. d, omega arith, hs, hp);
      short = hs;
      pattern_short = hp;
      enough = hf;
    }

    Saved-one :
        (m : ℕ) (q : P) (x : S) (p : List P) (s : List S) (back : Back P S)
        → is_star q ≡ false
        → Saved m (q ∷ p) (x ∷ s) back
        → Saved m p s back
    Saved-one m q x p s none n (h, le) = (λ g. (one_inv is_star accepts n (h g)).1, omega arith)
    Saved-one m q x p s (some (sp, mark)) n (e, down, le, hm, hp) =
        (e, λ d. (one_inv is_star accepts n (down d)).1, omega arith, hm, hp)

    Inv-one :
        (fuel m : ℕ) (q : P) (x : S) (p : List P) (s : List S) (back : Back P S)
        → is_star q ≡ false
        → accepts q x ≡ true
        → Inv (suc fuel) m (q ∷ p) (x ∷ s) back
        → Inv fuel m p s back
    Inv-one fuel m q x p s back n a i = record {
      now = λ d. i.now (one n a d);
      later = λ g. Skips-one q p s x n (i.later g);
      saved = Saved-one m q x p s back n i.saved;
      short = let h = i.short in omega arith;
      pattern_short = let h = i.pattern_short in omega arith;
      enough = let h = i.enough in omega arith;
    }

    Inv-star :
        (fuel m : ℕ) (q : P) (p : List P) (s : List S) (back : Back P S)
        → is_star q ≡ true
        → Inv (suc fuel) m (q ∷ p) s back
        → Inv fuel m p s (some (p, s))
    Inv-star fuel m q p s back t i =
        let hs = i.short in
        let hp = i.pattern_short in
        let hf = i.enough in
        Inv-restart fuel m p s
          (λ g. Skips-star q p s t (i.later g), λ d. i.now (Skips→star q p s t d)) hs (omega arith)
          (omega arith)

    -- A retry gives up one item of the marked text, which pays for the whole pattern.
    retry-Answers :
        (fuel m : ℕ) (p : List P) (x : S) (s : List S) (back : Back P S)
        (next : List P → List S → Back P S → Outcome)
        → ((m' : ℕ) (p' : List P) (s' : List S) (b : Back P S)
            → Inv fuel m' p' s' b
            → Answers (next p' s' b))
        → Inv (suc fuel) m p (x ∷ s) back
        → ¬ M p (x ∷ s)
        → Answers (retry next back)
    unfolding retry
    retry-Answers fuel m p x s none next ih i no_match = λ g. no_match (i.saved.0 g)
    retry-Answers fuel m p x s (some (sp, [])) next ih i no_match =
        let (e, down, le, hm, hp) = i.saved in absurd (omega arith)
    retry-Answers fuel zero p x s (some (sp, y ∷ mark)) next ih i no_match =
        let (e, down, le, hm, hp) = i.saved in absurd (omega arith)
    retry-Answers fuel (suc m) p x s (some (sp, y ∷ mark)) next ih i no_match =
        let (e, down, le, hm, hp) = i.saved in
        let hf = i.enough in
        ih m sp mark (some (sp, mark)) (
          Inv-restart fuel m sp mark
            (λ g. elim (e.0 g) [ inl d ↦ absurd (no_match (down d)) | inr d ↦ d ], λ d. e.1 (inr d))
            (omega arith) hp (omega arith))

    some-Answers : (b : Bool) → (b ≡ true) ↔ G → Answers (some b)
    some-Answers true e = e.0 refl
    some-Answers false e = λ g. let t = e.1 g in ground arith

    star_first-Answers :
        (fuel m : ℕ) (p : List P) (s : List S) (back : Back P S)
        → Inv fuel m p s back
        → Answers (star_first is_star accepts fuel p s back)
    unfolding star_first
    star_first-Answers zero m p s back i = let h = i.enough in absurd (omega arith)
    star_first-Answers (suc fuel) m p [] back i =
        let (sound, complete) = only_stars_iff p in
        some-Answers (only_stars is_star p) (λ h. i.now (sound h), λ g. complete (i.later g))
    star_first-Answers (suc fuel) m [] (x ∷ s) back i =
        retry-Answers fuel m [] x s back _ (star_first-Answers fuel) i λ d. elim d [ ]
    star_first-Answers (suc fuel) m (q ∷ p) (x ∷ s) back i =
        if_cases Answers (is_star q) _ _
          (λ t. star_first-Answers fuel m p (x ∷ s) _ (Inv-star fuel m q p (x ∷ s) back t i))
          λ n.
            if_cases Answers (accepts q x) _ _
              (λ a. star_first-Answers fuel m p s back (Inv-one fuel m q x p s back n a i))
              λ a.
                retry-Answers fuel m (q ∷ p) x s back _ (star_first-Answers fuel) i
                  λ d. let (accepted_here, d2) = one_inv is_star accepts n d in ground arith

  -- The search for stars first, with its fuel, answers whether the pattern matches.
  pub star_first-Matches :
      (p : List P) (s : List S)
      → Answers (M p s) (length p + 1) (star_first is_star accepts (rounds p s) p s none)
  star_first-Matches p s =
      star_first-Answers (M p s) (length p + 1) (rounds p s) (length s) p s none (record {
        now = λ d. d;
        later = Skips-none p s;
        saved = (λ d. d, omega arith);
        short = omega arith;
        pattern_short = omega arith;
        enough = omega arith;
      })
