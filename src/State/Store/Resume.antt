-- ===== src/State/Store/Resume.antt =====
-- Where an interrupted run goes on.
use jitgen.Prelude.{
  All, Bool-cases, List, Option, [], arith, false, filter, inl, inr, none, not, refl, some, subst,
  sym, true, ◌∷◌, ◌≡◌, ◌⊎◌,
}
use jitgen.Prelude.Int.{int_lt, ℤ, ◌≤ℤ◌}
use jitgen.State.Model.{StepRow, is_done}
use jitgen.State.Store.{RunDb, lowest, resume_point}

-- A step that is not done.
abbrev pub Open : StepRow → Type 0
Open r = is_done r.status ≡ false

abbrev open_rows : List StepRow → List StepRow
open_rows rows = filter (λ r. not (is_done r.status)) rows

-- One of the rows.
abbrev pub Row : StepRow → List StepRow → Type 0
Row r [] = ⊥
Row r (q ∷ rows) = (r ≡ q) ⊎ Row r rows

open_rows-Row : (r : StepRow) (rows : List StepRow) → Row r (open_rows rows) → Row r rows
open_rows-Row r [] = λ m. m
open_rows-Row r (q ∷ rows) = elim (Bool-cases (is_done q.status)) [
  | inl e ↦ rw e (λ m. inr (open_rows-Row r rows m))
  | inr e ↦ rw e (λ m. elim m [ inl same ↦ inl same | inr m' ↦ inr (open_rows-Row r rows m') ])
]

-- The lowest of `b` and `rs` is at most each of them, and open if they are.
lowest_lem :
    (b : StepRow) (rs : List StepRow)
    → Open b
    → All Open rs
    → (r : StepRow) × (lowest (some b) rs ≡ some r)
      × Open r
      × ((r ≡ b) ⊎ Row r rs)
      × (r.seq ≤ℤ b.seq)
      × All (λ q. r.seq ≤ℤ q.seq) rs
unfolding lowest
lowest_lem b [] o a = (b, refl, o, inl refl, omega arith, tt)
lowest_lem b (q ∷ rs) o a = elim (Bool-cases (int_lt q.seq b.seq)) [
  | inl e ↦ rw e (
      let (r, found, open_r, row, le_q, le_rs) = lowest_lem q rs a.0 a.1 in
      (r, found, open_r, inr row, ground (arith, e, le_q), (le_q, le_rs)))
  | inr e ↦ rw e (
      let (r, found, open_r, row, le_b, le_rs) = lowest_lem b rs o a.1 in
      (
        r,
        found,
        open_r,
        elim row [ inl same ↦ inl same | inr later ↦ inr (inr later) ],
        le_b,
        (ground (arith, e, le_b), le_rs),
      ))
]

open_rows-All : (rows : List StepRow) → All Open (open_rows rows)
open_rows-All [] = tt
open_rows-All (r ∷ rs) = elim (Bool-cases (is_done r.status)) [
  | inl e ↦ rw e (open_rows-All rs)
  | inr e ↦ rw e (e, open_rows-All rs)
]

-- A bound of the open rows is a bound of every row that is open.
All-Open :
    (n : ℤ) (rows : List StepRow)
    → All (λ q. n ≤ℤ q.seq) (open_rows rows)
    → All (λ q. Open q → n ≤ℤ q.seq) rows
All-Open n [] = λ a. tt
All-Open n (r ∷ rs) = elim (Bool-cases (is_done r.status)) [
  | inl e ↦ rw e (λ a. (λ o. absurd (ground (arith, e, o)), All-Open n rs a))
  | inr e ↦ rw e (λ a. (λ o. a.0, All-Open n rs a.1))
]

none_open : (rows : List StepRow) → open_rows rows ≡ [] → All (λ q. is_done q.status ≡ true) rows
none_open [] = λ e. tt
none_open (r ∷ rs) = elim (Bool-cases (is_done r.status)) [
  | inl e ↦ rw e (λ h. (refl, none_open rs h))
  | inr e ↦ rw e (λ h. absurd (ground (arith, h)))
]

-- What the resume point tells.
abbrev pub Resumes : Option StepRow → List StepRow → Type 0
Resumes none rows = All (λ q. is_done q.status ≡ true) rows
Resumes (some r) rows = Row r rows × Open r × All (λ q. Open q → r.seq ≤ℤ q.seq) rows

lowest-Resumes :
    (rows os : List StepRow) → open_rows rows ≡ os → All Open os → Resumes (lowest none os) rows
unfolding lowest
lowest-Resumes rows [] e a = none_open rows e
lowest-Resumes rows (q ∷ os) e a =
    let (r, found, open_r, row, le_q, le_os) = lowest_lem q os a.0 a.1 in
    subst (λ o. Resumes o rows) (sym found)
      (
        open_rows-Row r rows (subst (Row r) (sym e) row),
        open_r,
        All-Open r.seq rows (subst (λ l. All (λ q. r.seq ≤ℤ q.seq) l) (sym e) (le_q, le_os)),
      )

-- The resume point, where there is one, is a row of the table that is not done and whose sequence number is
-- at most that of every step that is not done; where there is none, every step is done.
pub resume_point_lem : (db : RunDb) → Resumes (resume_point db) db.step_rows
unfolding resume_point
resume_point_lem db =
    lowest-Resumes db.step_rows (open_rows db.step_rows) refl (open_rows-All db.step_rows)
