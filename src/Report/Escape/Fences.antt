-- ===== src/Report/Escape/Fences.antt =====
-- A code block cannot close the fence of tildes around it.
-- No three tildes in a row, behind `k` of them.
use jitgen.Prelude.{
  Bool, [], append-nil, arith, false, if_cases, if◌then◌else◌, leb, le→leb, not, refl, subst, suc,
  sym, true, zero, ℕ, ◌&&◌, ◌++◌, ◌+◌, ◌==◌, ◌∷◌, ◌≡◌, ◌≤◌,
}
use jitgen.Prelude.Str.{Text}
use jitgen.Report.Escape.{code_from, flush, md_code_block, repeated, sanitize, spaced}

pub no_fence : ℕ → Text → Bool
no_fence k [] = true
no_fence k (c ∷ s) =
    let longer = no_fence (k + 1) s in
    let again = no_fence 0 s in if c == b'~' then not (leb 2 k) && longer else again

-- A text that may stand behind two tildes.
abbrev Open : Text → Type 0
Open s = (k : ℕ) → k ≤ 2 → no_fence k s ≡ true

flush-long : (ch n : ℕ) → 3 ≤ n → flush ch n ≡ spaced ch n
unfolding flush
flush-long ch n h = rw (le→leb 3 n h) refl

spaced-closed : (n : ℕ) (s : Text) → no_fence 0 s ≡ true → no_fence 0 (spaced b'~' n ++ s) ≡ true
unfolding no_fence spaced
spaced-closed zero s h = h
spaced-closed (suc n) s h = spaced-closed n s h

flush-closed : (n : ℕ) (s : Text) → Open s → no_fence 0 (flush b'~' n ++ s) ≡ true
unfolding no_fence flush repeated
flush-closed zero s o = o 0 (omega arith)
flush-closed (suc zero) s o = o 1 (omega arith)
flush-closed (suc (suc zero)) s o = o 2 (omega arith)
flush-closed (suc (suc (suc n))) s o =
    subst (λ t. no_fence 0 (t ++ s) ≡ true)
      (sym (flush-long b'~' (suc (suc (suc n))) (omega arith)))
      (spaced-closed (suc (suc (suc n))) s (o 0 (omega arith)))

ticks-spaced : (n : ℕ) (s : Text) → no_fence 0 s ≡ true → no_fence 0 (spaced b'`' n ++ s) ≡ true
unfolding no_fence spaced
ticks-spaced zero s h = h
ticks-spaced (suc n) s h = ticks-spaced n s h

-- Backticks end a run of tildes.
ticks-Open : (n : ℕ) (s : Text) → 1 ≤ n → no_fence 0 s ≡ true → Open (flush b'`' n ++ s)
unfolding no_fence flush repeated spaced
ticks-Open zero s p h k l = absurd (omega (arith, p))
ticks-Open (suc zero) s p h k l = h
ticks-Open (suc (suc zero)) s p h k l = h
ticks-Open (suc (suc (suc n))) s p h k l =
    subst (λ t. no_fence k (t ++ s) ≡ true)
      (sym (flush-long b'`' (suc (suc (suc n))) (omega arith)))
      (ticks-spaced (suc (suc (suc n))) s h)

plain-Open : (c : ℕ) (s : Text) → (c == b'~') ≡ false → no_fence 0 s ≡ true → Open (c ∷ s)
unfolding no_fence
plain-Open c s e h k l = rw e h

-- Behind pending tildes, and behind pending backticks.
code_from-closed :
    (s : Text) (n : ℕ) → (no_fence 0 (code_from 0 n s) ≡ true) × (1 ≤ n → Open (code_from n 0 s))
unfolding code_from flush no_fence repeated
code_from-closed [] n = (
  subst (λ t. no_fence 0 t ≡ true) (append-nil (flush b'~' n)) (flush-closed n [] (λ k l. refl)),
  λ p. ticks-Open n [] p refl,
)
code_from-closed (c ∷ s) n =
    let plain : (c == b'~') ≡ false → Open (c ∷ code_from 0 0 s) =
      λ e. plain-Open c (code_from 0 0 s) e (code_from-closed s 0).0 in
    (
      if_cases (λ t. no_fence 0 t ≡ true) (c == b'`') _ _
          (λ e. flush-closed n (code_from 1 0 s) ((code_from-closed s 1).1 (omega arith)))
          (λ e.
            if_cases (λ t. no_fence 0 t ≡ true) (c == b'~') _ _
              (λ e'. (code_from-closed s (n + 1)).0)
              (λ e'. flush-closed n (c ∷ code_from 0 0 s) (plain e'))),
      λ p.
          if_cases Open (c == b'`') _ _ (λ e. (code_from-closed s (n + 1)).1 (omega arith))
            (λ e.
              if_cases Open (c == b'~') _ _
                (λ e'. ticks-Open n (code_from 0 1 s) p (code_from-closed s 1).0)
                (λ e'.
                  subst (λ t. Open (t ++ c ∷ code_from 0 0 s)) (sym (append-nil (flush b'`' n)))
                    (ticks-Open n (c ∷ code_from 0 0 s) p (plain e' 0 (omega arith))))),
    )

-- A code block never holds three tildes in a row, so it cannot close the fence of tildes that the
-- caller puts around it.
pub md_code_block-closed : (s : Text) (max : ℕ) → no_fence 0 (md_code_block s max) ≡ true
unfolding md_code_block
md_code_block-closed s max = (code_from-closed (sanitize s max) 0).0
