-- ===== src/State/Store/Index.antt =====
-- The index never mixes two runs under one id.
use jitgen.Prelude.{
  Bool, Bool-cases, List, Option, [], arith, false, if◌then◌else◌, inl, inr, none, refl, some,
  subst, sym, true, ◌++◌, ◌∙◌, ◌∷◌, ◌≡◌,
}
use jitgen.Prelude.Result.{Result, err, ok}
use jitgen.Prelude.Str.{Text, text_eq, text_eq_refl}
use jitgen.State.Model.{RunMeta, StateError}
use jitgen.State.Store.{
  RunIndex, agrees, create_checked, create_run, ensure_safe_run_id, finish_create, get_run,
  insert_if_absent, insert_run, same_run,
}

get_run-append :
    (key : Text) (runs : List RunMeta) (m : RunMeta)
    → get_run key runs ≡ none
    → get_run key (runs ++ m ∷ []) ≡ (if text_eq m.run_id key then some m else none)
unfolding get_run
get_run-append key [] m h = refl
get_run-append key (r ∷ rs) m h = elim (Bool-cases (text_eq r.run_id key)) [
  | inl e ↦ absurd (ground (arith, h, e))
  | inr e ↦ rw e (get_run-append key rs m (ground (arith, h, e)))
]

get_run-append_some :
    (key : Text) (runs : List RunMeta) (m r : RunMeta)
    → get_run key runs ≡ some r
    → get_run key (runs ++ m ∷ []) ≡ some r
unfolding get_run
get_run-append_some key [] m r h = absurd (ground (arith, h))
get_run-append_some key (q ∷ rs) m r h = elim (Bool-cases (text_eq q.run_id key)) [
  | inl e ↦ rw e (ground (arith, h, e))
  | inr e ↦ rw e (get_run-append_some key rs m r (ground (arith, h, e)))
]

same_run_refl : (m : RunMeta) → same_run m m ≡ true
unfolding same_run
same_run_refl m = ground (
  arith,
  text_eq_refl m.repo_path,
  text_eq_refl m.base_ref,
  text_eq_refl m.head_ref,
  text_eq_refl m.mode_name,
)

-- A run that was not in the index is there once it is put in.
insert-new :
    (m : RunMeta) (runs : List RunMeta) (o : Option RunMeta)
    → get_run m.run_id runs ≡ o
    → (r : RunMeta) × (get_run m.run_id (insert_if_absent m runs o) ≡ some r)
unfolding insert_if_absent
insert-new m runs none e = (m, get_run-append m.run_id runs m e ∙ rw (text_eq_refl m.run_id) refl)
insert-new m runs (some r) e = (r, e)

-- Putting a run into the index leaves the rows that were there.
insert-keeps :
    (m : RunMeta) (runs : List RunMeta) (o : Option RunMeta) (key : Text) (r : RunMeta)
    → get_run key runs ≡ some r
    → get_run key (insert_if_absent m runs o) ≡ some r
unfolding insert_if_absent
insert-keeps m runs none key r h = get_run-append_some key runs m r h
insert-keeps m runs (some q) key r h = h

finish_create-ok :
    (m : RunMeta) (idx : RunIndex) (b : Bool) (id : Text)
    → (finish_create m idx b).0 ≡ ok id
    → (b ≡ true) × ((finish_create m idx b).1 ≡ idx)
unfolding finish_create
finish_create-ok m idx true id h = (refl, refl)
finish_create-ok m idx false id h = absurd (ground (arith, h))

-- What is known of the run `m` and of every other run after a creation.
pub record Created (m : RunMeta) (before after : RunIndex) : Type 0 where
  pub row : RunMeta
  pub found : get_run m.run_id after.runs ≡ some row
  pub same : same_run row m ≡ true
  pub kept :
      (key : Text) (r : RunMeta)
      → get_run key before.runs ≡ some r
      → get_run key after.runs ≡ some r

agrees-some :
    (m r : RunMeta) (o : Option RunMeta) → o ≡ some r → agrees m o ≡ true → same_run r m ≡ true
unfolding agrees
agrees-some m r none e h = absurd (ground (arith, e))
agrees-some m r (some q) e h = ground (arith, e, h)

create_checked-ok :
    (m : RunMeta) (idx : RunIndex) (safe : Result StateError (Unit {0})) (id : Text)
    → (create_checked m idx safe).0 ≡ ok id
    → Created m idx (create_checked m idx safe).1
unfolding create_checked insert_run
create_checked-ok m idx (err e) id h = absurd (ground (arith, h))
create_checked-ok m idx (ok u) id h =
    let (agree, same_idx) = finish_create-ok m _ _ id h in
    let (r, e) = insert-new m idx.runs (get_run m.run_id idx.runs) refl in
    subst (Created m idx) (sym same_idx) (record {
      row = r;
      found = e;
      same = agrees-some m r _ e agree;
      kept = λ key q h'. insert-keeps m idx.runs (get_run m.run_id idx.runs) key q h';
    })

-- A creation that succeeds leaves a row of the run with the repository, revisions, mode and
-- schema version that were asked for, and leaves the row of every id that was there before.
pub create_run_lem :
    (m : RunMeta) (idx : RunIndex) (id : Text)
    → (create_run m idx).0 ≡ ok id
    → Created m idx (create_run m idx).1
unfolding create_run
create_run_lem m idx id h = create_checked-ok m idx (ensure_safe_run_id m.run_id) id h
