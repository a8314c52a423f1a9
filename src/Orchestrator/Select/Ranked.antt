-- ===== src/Orchestrator/Select/Ranked.antt =====
-- What is selected.
use mathlib.Core.List.{IsChain, Perm}
use mathlib.Core.List.Perm
use jitgen.Core.Change.{Target}
use jitgen.Orchestrator.Process.{RankedTarget}
use jitgen.Orchestrator.Select.{Scoring, comes_after, insert_ranked, rank_one, select, sort_ranked}
use jitgen.Prelude.{
  Bool, Bool-cases, List, [], arith, false, if◌then◌else◌, inl, inr, length, length-take-le, map,
  refl, take, true, ℕ, ◌∷◌, ◌≡◌, ◌≤◌,
}
use jitgen.Prelude.Float.{Float}
use jitgen.Prelude.Str.{Text}
use jitgen.Prelude.TextMap.{text_lt}

text_lt-asymm : (a b : Text) → text_lt a b ≡ true → text_lt b a ≡ false
unfolding text_lt
text_lt-asymm a [] h = ground arith
text_lt-asymm [] (d ∷ t) h = refl
text_lt-asymm (c ∷ s) (d ∷ t) h = ground (arith, text_lt-asymm s t)

-- Three comparisons, each of which goes one way at most.
chained_asymm :
    (l1 l2 p1 p2 i1 i2 : Bool)
    → (l2 ≡ true → l1 ≡ false)
    → (p1 ≡ true → p2 ≡ false)
    → (i1 ≡ true → i2 ≡ false)
    → (if l1
        then false
        else if l2
        then true
        else if p1
        then true
        else if p2
        then false
        else if i1
        then true
        else if i2
        then false
        else false)
      ≡ true
    → (if l2
        then false
        else if l1
        then true
        else if p2
        then true
        else if p1
        then false
        else if i2
        then true
        else if i1
        then false
        else false)
      ≡ false
chained_asymm l1 l2 p1 p2 i1 i2 l p i h = ground arith

-- `a` may stand in front of `b`: its score is not the lower one, and where neither score is, its path
-- is not the later one, and where neither path is, its id is not the later one.
pub record InOrder {F : Type 0} (f : Float F) (a b : RankedTarget F) : Type 0 where
  pub score_high : f.lt a.score b.score ≡ false
  pub path_first : f.lt b.score a.score ≡ false → text_lt b.target.path a.target.path ≡ false
  pub id_first :
      f.lt b.score a.score ≡ false
      → text_lt a.target.path b.target.path ≡ false
      → text_lt b.target.id a.target.id ≡ false

module _ {F : Type 0} (f : Float F) (s : Scoring F)
    (asymm : (x y : F) → f.lt x y ≡ true → f.lt y x ≡ false) where
  comes_after-asymm :
      (a b : RankedTarget F) → comes_after f s a b ≡ true → comes_after f s b a ≡ false
  unfolding comes_after
  comes_after-asymm a b h =
      chained_asymm _ _ _ _ _ _ (asymm a.score b.score) (text_lt-asymm b.target.path a.target.path)
        (text_lt-asymm b.target.id a.target.id) h

  not_after-InOrder : (a b : RankedTarget F) → comes_after f s a b ≡ false → InOrder f a b
  unfolding comes_after
  not_after-InOrder a b h = record {
    score_high = ground (arith, h, asymm b.score a.score);
    path_first = λ e. ground (arith, h, e, text_lt-asymm b.target.path a.target.path);
    id_first = λ e p. ground (arith, h, e, p, text_lt-asymm b.target.id a.target.id);
  }

  put-IsChain :
      (z x : RankedTarget F) (ys : List (RankedTarget F))
      → InOrder f z x
      → IsChain (InOrder f) (z ∷ ys)
      → IsChain (InOrder f) (z ∷ insert_ranked f s x ys)
  unfolding insert_ranked
  put-IsChain z x [] p c = IsChain.cons-cons p (IsChain.singleton x)
  put-IsChain z x (y ∷ ys) p (IsChain.cons-cons q c) = elim (Bool-cases (comes_after f s x y)) [
    | inl e ↦ rw e (
        IsChain.cons-cons q
          (put-IsChain y x ys (not_after-InOrder y x (comes_after-asymm x y e)) c))
    | inr e ↦ rw e (IsChain.cons-cons p (IsChain.cons-cons (not_after-InOrder x y e) c))
  ]

  insert_ranked-IsChain :
      (x : RankedTarget F) (ys : List (RankedTarget F))
      → IsChain (InOrder f) ys
      → IsChain (InOrder f) (insert_ranked f s x ys)
  unfolding insert_ranked
  insert_ranked-IsChain x [] c = IsChain.singleton x
  insert_ranked-IsChain x (y ∷ ys) c = elim (Bool-cases (comes_after f s x y)) [
    | inl e ↦ rw e (put-IsChain y x ys (not_after-InOrder y x (comes_after-asymm x y e)) c)
    | inr e ↦ rw e (IsChain.cons-cons (not_after-InOrder x y e) c)
  ]

  insert_ranked-perm :
      (x : RankedTarget F) (ys : List (RankedTarget F)) → Perm (insert_ranked f s x ys) (x ∷ ys)
  unfolding insert_ranked
  insert_ranked-perm x [] = Perm.rfl
  insert_ranked-perm x (y ∷ ys) = elim (Bool-cases (comes_after f s x y)) [
    | inl e ↦ rw e (Perm.trans (Perm.cons y (insert_ranked-perm x ys)) (Perm.swap x y ys))
    | inr e ↦ rw e Perm.rfl
  ]

  sort_ranked-IsChain : (xs : List (RankedTarget F)) → IsChain (InOrder f) (sort_ranked f s xs)
  unfolding sort_ranked
  sort_ranked-IsChain [] = IsChain.nil
  sort_ranked-IsChain (x ∷ xs) =
      insert_ranked-IsChain x (sort_ranked f s xs) (sort_ranked-IsChain xs)

  sort_ranked-perm : (xs : List (RankedTarget F)) → Perm (sort_ranked f s xs) xs
  unfolding sort_ranked
  sort_ranked-perm [] = Perm.rfl
  sort_ranked-perm (x ∷ xs) =
      Perm.trans (insert_ranked-perm x (sort_ranked f s xs)) (Perm.cons x (sort_ranked-perm xs))

  -- The targets selected are the first `max_tests` of the ranked targets in an order by descending
  -- score: no target has a lower score than its successor, nor, where their scores do not differ, a
  -- later path, nor, where their paths do not differ either, a later id. Only the comparison of two
  -- scores is asked to go one way at most.
  pub select-Ranked :
      (targets : List (Target F)) (max_tests : ℕ)
      → (order : List (RankedTarget F)) × (Perm order (map (rank_one f s) targets)
          × (IsChain (InOrder f) order
              × ((select f s targets max_tests ≡ take max_tests order)
                  × (length (select f s targets max_tests) ≤ max_tests))))
  unfolding select
  select-Ranked targets max_tests =
      let ranked = map (rank_one f s) targets in
      (
        sort_ranked f s ranked,
        (
          sort_ranked-perm ranked,
          (sort_ranked-IsChain ranked, (refl, length-take-le max_tests (sort_ranked f s ranked))),
        ),
      )
