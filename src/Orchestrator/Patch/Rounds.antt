-- ===== src/Orchestrator/Patch/Rounds.antt =====
-- The rounds of the outer loop over a diff's lines.
use jitgen.Orchestrator.Patch.{
  BodyLine, Cursor, Hunk, added_line, apply_at, apply_from, apply_hunk, bad_line, context_line,
  expect_match, is_file_header, kind_of, mismatch, note_line, op_of, parse_hunk_header,
  removed_line, start_hunk,
}
use jitgen.Prelude.{
  Bool, List, Option, [], arith, false, if_cases, is_empty, length, ltb, none, refl, some, suc,
  true, zero, ℕ, ◌++◌, ◌||◌, ◌∷◌, ◌≡◌, ◌≤◌,
}
use jitgen.Prelude.Result.{Result, err, ok, ◌>>=◌}
use jitgen.Prelude.Str.{Text, codes, lines, strip_prefix}

-- A hunk leaves no more lines than it was given.
abbrev Leaves : ℕ → Result Text (Cursor × List Text) → Type 0
Leaves n (err e) = Unit
Leaves n (ok (c, left)) = length left ≤ n

Leaves-more : (n : ℕ) (r : Result Text (Cursor × List Text)) → Leaves n r → Leaves (suc n) r
Leaves-more n (err e) h = tt
Leaves-more n (ok (c, left)) h = omega (arith, h)

module _ (orig : List Text) (h : Hunk) where
  matched-Leaves :
      (n : ℕ) (t : Bool) (r : Result Text (Cursor × List Text))
      → Leaves n r
      → Leaves (suc n) (elim t [ true ↦ r | false ↦ err mismatch ])
  matched-Leaves n true r l = Leaves-more n r l
  matched-Leaves n false r l = tt

  kind-Leaves :
      (content : Text) (out : List Text) (i : ℕ) (k : BodyLine)
      (onward : ℕ → ℕ → Cursor → Result Text (Cursor × List Text)) (m n size : ℕ)
      → ((o n : ℕ) (c : Cursor) → Leaves size (onward o n c))
      → Leaves (suc size) (elim k [
        | context_line ↦ elim (expect_match orig i content) [
          | true ↦ onward (suc m) (suc n) (out ++ content ∷ [], suc i)
          | false ↦ err mismatch
        ]
        | removed_line ↦ elim (expect_match orig i content) [
          | true ↦ onward (suc m) n (out, suc i)
          | false ↦ err mismatch
        ]
        | added_line ↦ onward m (suc n) (out ++ content ∷ [], i)
        | note_line ↦ onward m n (out, i)
        | bad_line ↦ err (codes "bad hunk body line")
      ])
  kind-Leaves content out i context_line onward m n size ih =
      matched-Leaves size (expect_match orig i content) _ (ih (suc m) (suc n) _)
  kind-Leaves content out i removed_line onward m n size ih =
      matched-Leaves size (expect_match orig i content) _ (ih (suc m) n _)
  kind-Leaves content out i added_line onward m n size ih = Leaves-more size _ (ih m (suc n) _)
  kind-Leaves content out i note_line onward m n size ih = Leaves-more size _ (ih m n _)
  kind-Leaves content out i bad_line onward m n size ih = tt

  needed-Leaves :
      (size : ℕ) (t : Bool) (c : Cursor) (left : List Text) (r : Result Text (Cursor × List Text))
      → length left ≤ size
      → Leaves size r
      → Leaves size (elim t [ false ↦ ok (c, left) | true ↦ r ])
  needed-Leaves size true c left r l k = k
  needed-Leaves size false c left r l k = l

  apply_hunk-Leaves :
      (lines : List Text) (m n : ℕ) (c : Cursor)
      → Leaves (length lines) (apply_hunk orig h lines m n c)
  unfolding apply_hunk
  apply_hunk-Leaves [] m n c =
      if_cases (Leaves 0) (ltb m h.old_count || ltb n h.new_count) _ _ (λ e. tt) λ e. omega arith
  apply_hunk-Leaves (body ∷ lines) m n (out, i) =
      needed-Leaves (suc (length lines)) _ (out, i) (body ∷ lines) _ (omega arith)
        (kind-Leaves (op_of body).1 out i (kind_of (op_of body).0) (apply_hunk orig h lines) m n
          (length lines) (λ o p c. apply_hunk-Leaves lines o p c))

-- Two continuations that agree after what a hunk leaves make the same of it.
onward_agree :
    (size : ℕ) (r : Result Text (Cursor × List Text))
    (f g : Cursor × List Text → Result Text Cursor)
    → Leaves size r
    → ((a : Cursor × List Text) → length a.1 ≤ size → f a ≡ g a)
    → (r >>= f) ≡ (r >>= g)
onward_agree size (err e) f g l k = refl
onward_agree size (ok a) f g l k = k a l

bind_agree :
    {A : Type 0} (r : Result Text A) (f g : A → Result Text Cursor)
    → ((a : A) → f a ≡ g a)
    → (r >>= f) ≡ (r >>= g)
bind_agree (err e) f g k = refl
bind_agree (ok a) f g k = k a

module _ (orig : List Text) where
  apply_at-agree :
      (lines : List Text) (f g : List Text → Cursor → Result Text Cursor) (rest : Text) (c : Cursor)
      → ((left : List Text) (c : Cursor) → length left ≤ length lines → f left c ≡ g left c)
      → apply_at orig lines f rest c ≡ apply_at orig lines g rest c
  unfolding apply_at
  apply_at-agree lines f g rest c k = bind_agree (parse_hunk_header rest) _ _ λ h.
      bind_agree (start_hunk orig h c) _ _ λ c1.
        onward_agree (length lines) (apply_hunk orig h lines 0 0 c1) _ _
          (apply_hunk-Leaves orig h lines 0 0 c1) λ a l. k a.1 a.0 l

  line_agree :
      (o : Option Text) (t : Bool) (x y : Text → Result Text Cursor) (r s : Result Text Cursor)
      → ((rest : Text) → x rest ≡ y rest)
      → r ≡ s
      → elim o [
        | some rest ↦ x rest
        | none ↦ elim t [ true ↦ r | false ↦ err (codes "unexpected content outside a hunk") ]
      ]
        ≡ elim o [
          | some rest ↦ y rest
          | none ↦ elim t [ true ↦ s | false ↦ err (codes "unexpected content outside a hunk") ]
        ]
  line_agree (some rest) t x y r s k e = k rest
  line_agree none true x y r s k e = e
  line_agree none false x y r s k e = refl

  -- The number of lines is enough fuel: with that much or more, the result is the same.
  apply_from-fuel :
      (n m : ℕ) (lines : List Text) (c : Cursor)
      → length lines ≤ n
      → length lines ≤ m
      → apply_from n orig lines c ≡ apply_from m orig lines c
  unfolding apply_from
  apply_from-fuel zero zero [] c p q = refl
  apply_from-fuel zero (suc m) [] c p q = refl
  apply_from-fuel (suc n) zero [] c p q = refl
  apply_from-fuel (suc n) (suc m) [] c p q = refl
  apply_from-fuel zero m (line ∷ lines) c p q = absurd (omega arith)
  apply_from-fuel (suc n) zero (line ∷ lines) c p q = absurd (omega arith)
  apply_from-fuel (suc n) (suc m) (line ∷ lines) c p q =
      line_agree (strip_prefix line (codes "@@")) (is_file_header line || is_empty line)
        (λ rest. apply_at orig lines (apply_from n orig) rest c)
        (λ rest. apply_at orig lines (apply_from m orig) rest c) _ _
        (λ rest.
          apply_at-agree lines (apply_from n orig) (apply_from m orig) rest c
            λ left c l. apply_from-fuel n m left c (omega arith) (omega arith))
        (apply_from-fuel n m lines c (omega arith) (omega arith))
