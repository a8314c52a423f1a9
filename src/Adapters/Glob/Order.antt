-- ===== src/Adapters/Glob/Order.antt =====
-- The two orders of the tests, and what `glob_match` answers.
use jitgen.Adapters.Glob.{
  Back, Outcome, accept_first, accepts_char, glob_match, is_globstar, is_star_char, match_segments,
  max_glob_len, max_path_len, outcome_or_false, retry, rounds, segment_match, star_first,
}
use jitgen.Adapters.Glob.Decided.{Answers, star_first-Matches}
use jitgen.Adapters.Glob.Wanted.{Matches}
use jitgen.Prelude.{
  All, Bool, List, [], any, arith, false, if◌then◌else◌, length, ltb, none, refl, some, suc, true,
  zero, ℕ, ◌+◌, ◌||◌, ◌↔◌, ◌∷◌, ◌≡◌, ◌≤◌,
}
use jitgen.Prelude.Str.{Text, len, split}

module _ {P S : Type 0} (is_star : P → Bool) (accepts : P → S → Bool) where
  -- No pattern item that accepts the text item is a star.
  abbrev Plain : S → Type 0
  Plain x = (q : P) → accepts q x ≡ true → is_star q ≡ false

  abbrev PlainBack : Back P S → Type 0
  PlainBack none = Unit
  PlainBack (some (sp, mark)) = All Plain mark

  retry-same :
      (f g : List P → List S → Back P S → Outcome) (back : Back P S)
      → ((p : List P) (s : List S) (b : Back P S) → All Plain s → PlainBack b → f p s b ≡ g p s b)
      → PlainBack back
      → retry f back ≡ retry g back
  unfolding retry
  retry-same f g none same h = refl
  retry-same f g (some (sp, [])) same h = refl
  retry-same f g (some (sp, x ∷ mark)) same h = same sp mark (some (sp, mark)) h.1 h.1

  swap-tests :
      (t a : Bool) (star onward again : Outcome)
      → (a ≡ true → t ≡ false)
      → (if a then onward else if t then star else again)
        ≡ (if t then star else if a then onward else again)
  swap-tests true true star onward again h = let no = h refl in ground arith
  swap-tests true false star onward again h = refl
  swap-tests false true star onward again h = refl
  swap-tests false false star onward again h = refl

  -- On a text of such items the order of the two tests does not matter.
  pub accept_first-same :
      (fuel : ℕ) (p : List P) (s : List S) (back : Back P S)
      → All Plain s
      → PlainBack back
      → accept_first is_star accepts fuel p s back ≡ star_first is_star accepts fuel p s back
  unfolding accept_first star_first
  accept_first-same zero p s back hs hb = refl
  accept_first-same (suc fuel) p [] back hs hb = refl
  accept_first-same (suc fuel) [] (x ∷ s) back hs hb =
      retry-same _ _ back (accept_first-same fuel) hb
  accept_first-same (suc fuel) (q ∷ p) (x ∷ s) back hs hb =
      rw
        (
          accept_first-same fuel p (x ∷ s) (some (p, x ∷ s)) hs hs,
          accept_first-same fuel p s back hs.1 hb,
          retry-same _ _ back (accept_first-same fuel) hb,
        )
        (swap-tests (is_star q) (accepts q x) _ _ _ (hs.0 q))

module _ {G : Type 0} (k : ℕ) where
  -- An answer is true exactly when its question is.
  Answers-iff :
      {P S : Type 0} (is_star : P → Bool) (accepts : P → S → Bool) (o : Outcome)
      → Answers is_star accepts G k o
      → (outcome_or_false o ≡ true) ↔ G
  Answers-iff is_star accepts none h = absurd h
  Answers-iff is_star accepts (some true) h = (λ e. h, λ g. refl)
  Answers-iff is_star accepts (some false) h = (λ e. ground arith, λ g. absurd (h g))

no_star-Plain :
    (seg : Text) → any is_star_char seg ≡ false → All (Plain is_star_char accepts_char) seg
no_star-Plain [] h = tt
no_star-Plain (c ∷ seg) h =
    let rest : any is_star_char seg ≡ false = ground arith in
    (λ q a. ground arith, no_star-Plain seg rest)

-- The loop ended with an answer: its rounds were enough.
abbrev pub Ends : Outcome → Type 0
Ends o = (b : Bool) × (o ≡ some b)

Answers-Ends :
    {P S : Type 0} (G : Type 0) (is_star : P → Bool) (accepts : P → S → Bool) (k : ℕ) (o : Outcome)
    → Answers is_star accepts G k o
    → Ends o
Answers-Ends G is_star accepts k none h = absurd h
Answers-Ends G is_star accepts k (some true) h = (true, refl)
Answers-Ends G is_star accepts k (some false) h = (false, refl)

match_segments-Ends :
    (pat path : List Text)
    → Ends (star_first is_globstar segment_match (rounds pat path) pat path none)
match_segments-Ends pat path =
    Answers-Ends _ is_globstar segment_match (length pat + 1) _
      (star_first-Matches is_globstar segment_match pat path)

segment_match-Ends :
    (pat seg : Text)
    → any is_star_char seg ≡ false
    → Ends (accept_first is_star_char accepts_char (rounds pat seg) pat seg none)
segment_match-Ends pat seg h =
    rw
      (accept_first-same is_star_char accepts_char (rounds pat seg) pat seg none
        (no_star-Plain seg h) tt)
      (Answers-Ends _ is_star_char accepts_char (length pat + 1) _
        (star_first-Matches is_star_char accepts_char pat seg))

pub match_segments_iff :
    (pat path : List Text)
    → (match_segments pat path ≡ true) ↔ Matches is_globstar segment_match pat path
unfolding match_segments
match_segments_iff pat path =
    Answers-iff (length pat + 1) is_globstar segment_match _
      (star_first-Matches is_globstar segment_match pat path)

pub segment_match_iff :
    (pat seg : Text)
    → any is_star_char seg ≡ false
    → (segment_match pat seg ≡ true) ↔ Matches is_star_char accepts_char pat seg
unfolding segment_match
segment_match_iff pat seg h =
    rw
      (accept_first-same is_star_char accepts_char (rounds pat seg) pat seg none
        (no_star-Plain seg h) tt)
      (Answers-iff (length pat + 1) is_star_char accepts_char _
        (star_first-Matches is_star_char accepts_char pat seg))

bounded_iff :
    (x y a b : ℕ) (m : Bool)
    → ((if ltb x a || ltb y b then false else m) ≡ true) ↔ ((a ≤ x) × (b ≤ y) × (m ≡ true))
bounded_iff x y a b m = ground arith

-- What a pattern and a path within the length bounds ask for.
abbrev pub Wanted : Text → Text → Type 0
Wanted pattern path =
    (len pattern ≤ max_glob_len)
    × (len path ≤ max_path_len)
    × Matches is_globstar segment_match (split b'/' pattern) (split b'/' path)

-- A pattern matches a path exactly when both are within their length bounds and the path's segments
-- match those of the pattern, `**` standing for any run of segments; and a segment without a
-- literal `*` matches a segment of the pattern exactly when its characters do, `*` standing for
-- any run of characters and `?` for any one. For such a segment the loop over characters ends with
-- an answer before its rounds run out, and the loop over segments always does.
pub glob_match-Wanted :
    (pattern path : Text)
    → ((glob_match pattern path ≡ true) ↔ Wanted pattern path)
      × ((pat seg : Text)
          → any is_star_char seg ≡ false
          → (segment_match pat seg ≡ true) ↔ Matches is_star_char accepts_char pat seg)
      × ((pat path : List Text)
          → Ends (star_first is_globstar segment_match (rounds pat path) pat path none))
      × ((pat seg : Text)
          → any is_star_char seg ≡ false
          → Ends (accept_first is_star_char accepts_char (rounds pat seg) pat seg none))
unfolding glob_match
glob_match-Wanted pattern path = (
  let segments = match_segments (split b'/' pattern) (split b'/' path) in
      let (sound, complete) = match_segments_iff (split b'/' pattern) (split b'/' path) in
      let bounds = bounded_iff max_glob_len max_path_len (len pattern) (len path) segments in
      (
        λ h. let (short, path_short, m) = bounds.0 h in (short, path_short, sound m),
        λ (short, path_short, d). bounds.1 (short, path_short, complete d),
      ),
  segment_match_iff,
  match_segments-Ends,
  segment_match-Ends,
)
