-- ===== src/Sandbox/Command/Checks.antt =====
-- What the checks of a request let through.
pub mod Cwd
use mathlib.Core.Path.{ap₂}
use jitgen.Prelude.{
  ==_iff, Option, [], all, any, ap, arith, false, if_cases, is_empty, none, not, refl, some,
  some_inj, true, ℕ, ◌++◌, ◌==◌, ◌∷◌, ◌≡◌,
}
use jitgen.Prelude.Str.{Text, codes, is_ascii_digit, len, strip_prefix}
use jitgen.Sandbox.Command.{
  digits, found_at, found_at_end, id_parts, is_digest_pinned, is_lower_hex, is_uid_gid,
  pinned_parts, split_once,
}

strip_prefix-append : (s p rest : Text) → strip_prefix s p ≡ some rest → s ≡ p ++ rest
unfolding strip_prefix
strip_prefix-append s [] rest h = some_inj s rest h
strip_prefix-append [] (p ∷ ps) rest h = ground arith
strip_prefix-append (c ∷ s) (p ∷ ps) rest h =
    if_cases (λ (o : Option Text). o ≡ some rest → c ∷ s ≡ p ∷ ps ++ rest) (c == p) _ _
      (λ e k. ap₂ ◌∷◌ ((==_iff c p).0 e) (strip_prefix-append s ps rest k)) (λ e k. ground arith) h

-- The two parts with the separator between them.
abbrev Parts : Text → Text → Option (Text × Text) → Type 0
Parts sep s none = Unit
Parts sep s (some (before, after)) = s ≡ before ++ sep ++ after

found-Parts :
    (sep : Text) (c : ℕ) (s : Text) (o : Option Text) (later : Option (Text × Text))
    → strip_prefix (c ∷ s) sep ≡ o
    → Parts sep s later
    → Parts sep (c ∷ s) (found_at c o later)
unfolding found_at
found-Parts sep c s (some rest) later e h = strip_prefix-append (c ∷ s) sep rest e
found-Parts sep c s none (some (before, after)) e h = ap (λ t. c ∷ t) h
found-Parts sep c s none none e h = tt

at_end-Parts :
    (sep : Text) (o : Option Text) → strip_prefix [] sep ≡ o → Parts sep [] (found_at_end o)
unfolding found_at_end
at_end-Parts sep none e = tt
at_end-Parts sep (some rest) e = strip_prefix-append [] sep rest e

split_once-Parts : (sep s : Text) → Parts sep s (split_once sep s)
unfolding split_once
split_once-Parts sep [] = at_end-Parts sep (strip_prefix [] sep) refl
split_once-Parts sep (c ∷ s) =
    found-Parts sep c s (strip_prefix (c ∷ s) sep) (split_once sep s) refl (split_once-Parts sep s)

-- `name@sha256:` and 64 lower-case hexadecimal digits.
pub record Pinned (image : Text) : Type 0 where
  pub name : Text
  pub digest : Text
  pub parts : image ≡ name ++ codes "@sha256:" ++ digest
  pub named : is_empty name ≡ false
  pub full : len digest ≡ 64
  pub hex : all is_lower_hex digest ≡ true

pinned_parts-Pinned :
    (image : Text) (o : Option (Text × Text))
    → Parts (codes "@sha256:") image o
    → pinned_parts o ≡ true
    → Pinned image
unfolding pinned_parts
pinned_parts-Pinned image none p h = ground arith
pinned_parts-Pinned image (some (name, digest)) p h = record {
  name = name;
  digest = digest;
  parts = p;
  named = ground arith;
  full = ground arith;
  hex = ground arith;
}

-- An image that passes for digest-pinned is a name, `@sha256:` and 64 lower-case hex digits.
pub is_digest_pinned-Pinned : (image : Text) → is_digest_pinned image ≡ true → Pinned image
unfolding is_digest_pinned
is_digest_pinned-Pinned image h =
    pinned_parts-Pinned image (split_once (codes "@sha256:") image)
      (split_once-Parts (codes "@sha256:") image) h

-- Decimal digits, a colon and decimal digits, the first number not zero.
pub record NonRoot (s : Text) : Type 0 where
  pub uid : Text
  pub gid : Text
  pub parts : s ≡ uid ++ codes ":" ++ gid
  pub uid_digits : all is_ascii_digit uid ≡ true
  pub gid_digits : all is_ascii_digit gid ≡ true
  pub not_zero : any (λ b. not (b == b'0')) uid ≡ true

id_parts-NonRoot :
    (s : Text) (o : Option (Text × Text)) → Parts (codes ":") s o → id_parts o ≡ true → NonRoot s
unfolding id_parts digits
id_parts-NonRoot s none p h = ground arith
id_parts-NonRoot s (some (uid, gid)) p h = record {
  uid = uid;
  gid = gid;
  parts = p;
  uid_digits = ground arith;
  gid_digits = ground arith;
  not_zero = ground arith;
}

pub is_uid_gid-NonRoot : (s : Text) → is_uid_gid s ≡ true → NonRoot s
unfolding is_uid_gid
is_uid_gid-NonRoot s h =
    id_parts-NonRoot s (split_once (codes ":") s) (split_once-Parts (codes ":") s) h
