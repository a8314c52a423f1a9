-- ===== src/Orchestrator/Drive/SafeKeys.antt =====
-- The artifact of a sanitized id stands at a path that the state store accepts.
use jitgen.Orchestrator.Drive.{artifact_key, sanitize_char, sanitize_id}
use jitgen.Prelude.{
  Bool-cases, [], any, ap, arith, false, inl, inr, is_empty, length, length-append, map, refl, suc,
  sym, take, zero, ℕ, ◌++◌, ◌+◌, ◌==◌, ◌∙◌, ◌∷◌, ◌≡◌,
}
use jitgen.Prelude.Paths.{components}
use jitgen.Prelude.Result.{ok}
use jitgen.Prelude.Split.{split-append, split-free}
use jitgen.Prelude.Str.{
  Text, codes, is_ascii_alphanumeric, is_ascii_digit, lower_char, split, starts_with, text_eq,
}
use jitgen.State.Store.{safe_join}
use jitgen.State.Store.Lookup.{key_cases}

no_slash : (c : ℕ) → (sanitize_char c == b'/') ≡ false
unfolding sanitize_char lower_char is_ascii_alphanumeric is_ascii_digit
no_slash c = ground arith

slashes-sanitized : (n : ℕ) (s : Text) → any (λ c. c == b'/') (take n (map sanitize_char s)) ≡ false
slashes-sanitized zero s = refl
slashes-sanitized (suc n) [] = refl
slashes-sanitized (suc n) (c ∷ s) = rw (no_slash c) (slashes-sanitized n s)

slashes-append :
    (s t : Text)
    → any (λ c. c == b'/') s ≡ false
    → any (λ c. c == b'/') t ≡ false
    → any (λ c. c == b'/') (s ++ t) ≡ false
slashes-append [] t a b = b
slashes-append (c ∷ s) t a b =
    let later : any (λ d. d == b'/') s ≡ false = ground arith in
    ground (arith, slashes-append s t later b)

split-artifact_key :
    (id : Text)
    → any (λ c. c == b'/') id ≡ false
    → split b'/' (artifact_key id) ≡ codes "targets" ∷ (id ++ codes ".json") ∷ []
split-artifact_key id h =
    split-append b'/' (codes "targets") (id ++ codes ".json")
    ∙ ap (λ l. split b'/' (codes "targets") ++ l)
        (split-free b'/' (id ++ codes ".json") (slashes-append id (codes ".json") h refl))
    ∙ ap (λ l. l ++ (id ++ codes ".json") ∷ []) (split-free b'/' (codes "targets") refl)

not_parent : (id : Text) → text_eq (id ++ codes ".json") (codes "..") ≡ false
not_parent id = elim (key_cases (id ++ codes ".json") (codes "..")) [
  | inl same ↦ absurd (
      let e : length id + 5 ≡ 2 = sym (length-append id (codes ".json")) ∙ ap length same in
      omega (arith, e))
  | inr d ↦ d
]

-- A path of two pieces, `targets` and another.
two_pieces :
    (path q : Text)
    → starts_with path (b'/' ∷ []) ≡ false
    → split b'/' path ≡ codes "targets" ∷ q ∷ []
    → text_eq q (codes "..") ≡ false
    → safe_join path ≡ ok path
unfolding safe_join components text_eq
two_pieces path q relative e d =
    rw (e, relative)
      (elim (Bool-cases (is_empty q)) [
        | inl a ↦ rw a refl
        | inr a ↦ rw a (elim (Bool-cases (text_eq q (codes "."))) [
          | inl b ↦ rw b refl
          | inr b ↦ rw (b, d) refl
        ])
      ])

pub safe_join-artifact_key :
    (s : Text) → safe_join (artifact_key (sanitize_id s)) ≡ ok (artifact_key (sanitize_id s))
unfolding sanitize_id starts_with
safe_join-artifact_key s =
    two_pieces (artifact_key (sanitize_id s)) (sanitize_id s ++ codes ".json") refl
      (split-artifact_key (sanitize_id s) (slashes-sanitized 64 s)) (not_parent (sanitize_id s))
