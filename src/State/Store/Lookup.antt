-- ===== src/State/Store/Lookup.antt =====
-- What each operation leaves in the tables, read back by key.
use jitgen.Prelude.{
  Bool-cases, List, Option, [], ap, arith, false, inl, inr, none, refl, some, some_inj, sym, true,
  ◌++◌, ◌∙◌, ◌∷◌, ◌≡◌, ◌⊎◌,
}
use jitgen.Prelude.Str.{Text, text_eq, text_eq_iff, text_eq_refl}
use jitgen.State.Model.{StepRow}
use jitgen.State.Store.{find_file, find_step, has_step, put_file, update_steps}

-- Two keys are the same, or their comparison is false.
pub key_cases : (a b : Text) → (a ≡ b) ⊎ (text_eq a b ≡ false)
key_cases a b = elim (Bool-cases (text_eq a b)) [
  | inl e ↦ inl ((text_eq_iff a b).0 e)
  | inr e ↦ inr e
]

unfoldable pub map_row : (StepRow → StepRow) → Option StepRow → Option StepRow
map_row k none = none
map_row k (some r) = some (k r)

pub find_step-update_same :
    (key : Text) (change : StepRow → StepRow) (rows : List StepRow)
    → ((r : StepRow) → (change r).step_id ≡ r.step_id)
    → find_step key (update_steps key change rows) ≡ map_row change (find_step key rows)
unfolding find_step update_steps map_row
find_step-update_same key change [] keeps = refl
find_step-update_same key change (r ∷ rs) keeps = elim (Bool-cases (text_eq r.step_id key)) [
  | inl e ↦ rw (e, keeps r, e) refl
  | inr e ↦ rw (e, e) (find_step-update_same key change rs keeps)
]

pub find_step-update_other :
    (key other : Text) (change : StepRow → StepRow) (rows : List StepRow)
    → ((r : StepRow) → (change r).step_id ≡ r.step_id)
    → text_eq key other ≡ false
    → find_step other (update_steps key change rows) ≡ find_step other rows
unfolding find_step update_steps
find_step-update_other key other change [] keeps d = refl
find_step-update_other key other change (r ∷ rs) keeps d =
    elim (Bool-cases (text_eq r.step_id key)) [
      | inl e ↦
          let gone = rw (sym ((text_eq_iff r.step_id key).0 e)) at d in
          rw (e, keeps r, gone) (find_step-update_other key other change rs keeps d)
      | inr e ↦ rw (e, find_step-update_other key other change rs keeps d) refl
    ]

pub find_step-append :
    (key : Text) (rows : List StepRow) (r : StepRow)
    → find_step key rows ≡ none
    → text_eq r.step_id key ≡ true
    → find_step key (rows ++ r ∷ []) ≡ some r
unfolding find_step
find_step-append key [] r h e = rw e refl
find_step-append key (q ∷ rs) r h e = elim (Bool-cases (text_eq q.step_id key)) [
  | inl f ↦ absurd (ground (arith, h, f))
  | inr f ↦ rw f (find_step-append key rs r (ground (arith, h, f)) e)
]

pub find_step-append_other :
    (key : Text) (rows : List StepRow) (r : StepRow)
    → text_eq r.step_id key ≡ false
    → find_step key (rows ++ r ∷ []) ≡ find_step key rows
unfolding find_step
find_step-append_other key [] r e = rw e refl
find_step-append_other key (q ∷ rs) r e = rw (find_step-append_other key rs r e) refl

-- The row that is found has the key.
pub find_step-key :
    (key : Text) (rows : List StepRow) (r : StepRow) → find_step key rows ≡ some r → r.step_id ≡ key
unfolding find_step
find_step-key key [] r h = absurd (ground (arith, h))
find_step-key key (q ∷ rs) r h = elim (Bool-cases (text_eq q.step_id key)) [
  | inl e ↦
      (ap (λ x. x.step_id) (sym (some_inj q r (ground (arith, h, e)))))
      ∙ (text_eq_iff q.step_id key).0 e
  | inr e ↦ find_step-key key rs r (ground (arith, h, e))
]

pub has_step-found :
    (key : Text) (rows : List StepRow) (r : StepRow)
    → find_step key rows ≡ some r
    → has_step key rows ≡ true
unfolding find_step has_step
has_step-found key [] r h = absurd (ground (arith, h))
has_step-found key (q ∷ rs) r h = elim (Bool-cases (text_eq q.step_id key)) [
  | inl e ↦ rw e refl
  | inr e ↦ rw e (has_step-found key rs r (ground (arith, h, e)))
]

pub find_file-put_same :
    (key v : Text) (fs : List (Text × Text)) → find_file key (put_file key v fs) ≡ some v
unfolding find_file put_file
find_file-put_same key v [] = rw (text_eq_refl key) refl
find_file-put_same key v ((k, u) ∷ fs) = elim (Bool-cases (text_eq k key)) [
  | inl e ↦ rw (e, text_eq_refl key) refl
  | inr e ↦ rw (e, e) (find_file-put_same key v fs)
]

pub find_file-put_other :
    (key other v : Text) (fs : List (Text × Text))
    → text_eq key other ≡ false
    → find_file other (put_file key v fs) ≡ find_file other fs
unfolding find_file put_file
find_file-put_other key other v [] d = rw d refl
find_file-put_other key other v ((k, u) ∷ fs) d = elim (Bool-cases (text_eq k key)) [
  | inl e ↦ let gone = rw (sym ((text_eq_iff k key).0 e)) at d in rw (e, d, gone) refl
  | inr e ↦ rw (e, find_file-put_other key other v fs d) refl
]
