-- ===== src/Materialize/Placement/Fragment.antt =====
-- Fragments of derived file names are short words, whatever the repository's names are.
use jitgen.Materialize.Placement.{
  fragment_from, sanitize_fragment, trim_end_of, trim_matches, trim_start_of, unit_if_empty,
}
use jitgen.Prelude.{
  All, Bool, Bool-cases, [], arith, false, inl, inr, is_empty, length, refl, suc, true, zero, ℕ,
  ◌&&◌, ◌==◌, ◌||◌, ◌∷◌, ◌≡◌, ◌≤◌,
}
use jitgen.Prelude.Str.{Text, is_ascii_alphanumeric}

-- A letter, a digit or an underscore.
abbrev pub Word : ℕ → Type 0
Word c = (is_ascii_alphanumeric c || c == b'_') ≡ true

-- At most `n` characters, each of a word.
abbrev Short : ℕ → Text → Type 0
Short n s = All Word s × (length s ≤ n)

fragment_from-Short :
    (room : ℕ) (last_us : Bool) (s : Text) → Short room (fragment_from room last_us s)
unfolding fragment_from
fragment_from-Short zero last_us s = (tt, omega arith)
fragment_from-Short (suc room) last_us [] = (tt, omega arith)
fragment_from-Short (suc room) last_us (ch ∷ s) = elim (Bool-cases (is_ascii_alphanumeric ch)) [
  | inl good ↦ rw good (
      let r = fragment_from-Short room false s in ((ground (arith, good), r.0), omega (arith, r.1)))
  | inr bad ↦ rw bad (elim (Bool-cases last_us) [
    | inl again ↦ rw again (fragment_from-Short (suc room) true s)
    | inr first ↦
        rw first (let r = fragment_from-Short room true s in ((refl, r.0), omega (arith, r.1)))
  ])
]

trim_start_of-Short : (c n : ℕ) (s : Text) → Short n s → Short n (trim_start_of c s)
unfolding trim_start_of
trim_start_of-Short c n [] h = h
trim_start_of-Short c n (d ∷ s) h = elim (Bool-cases (d == c)) [
  | inl e ↦ rw e (trim_start_of-Short c n s (h.0.1, omega (arith, h.1)))
  | inr e ↦ rw e h
]

trim_end_of-Short : (c n : ℕ) (s : Text) → Short n s → Short n (trim_end_of c s)
unfolding trim_end_of
trim_end_of-Short c n [] h = h
trim_end_of-Short c zero (d ∷ s) h = absurd (omega (arith, h.1))
trim_end_of-Short c (suc n) (d ∷ s) h =
    let r = trim_end_of-Short c n s (h.0.1, omega (arith, h.1)) in
    elim (Bool-cases (d == c && is_empty (trim_end_of c s))) [
      | inl e ↦ rw e (tt, omega arith)
      | inr e ↦ rw e ((h.0.0, r.0), omega (arith, r.1))
    ]

unit_if_empty-Short :
    (n : ℕ) (s : Text)
    → 4 ≤ n
    → Short n s
    → Short n (unit_if_empty s) × (1 ≤ length (unit_if_empty s))
unfolding unit_if_empty is_ascii_alphanumeric
unit_if_empty-Short n [] p h = (((refl, (refl, (refl, (refl, tt)))), p), omega arith)
unit_if_empty-Short n (c ∷ s) p h = (h, omega arith)

-- A sanitized fragment has 1 to 64 characters, each an ASCII letter, a digit or an underscore.
pub sanitize_fragment_lem :
    (s : Text)
    → All Word (sanitize_fragment s)
      × (length (sanitize_fragment s) ≤ 64)
      × (1 ≤ length (sanitize_fragment s))
unfolding sanitize_fragment trim_matches
sanitize_fragment_lem s =
    let r = unit_if_empty-Short 64 _ (omega arith) (
      trim_end_of-Short b'_' 64 _
        (trim_start_of-Short b'_' 64 _ (fragment_from-Short 64 false s))) in
    (r.0.0, r.0.1, r.1)
