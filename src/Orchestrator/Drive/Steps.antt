-- ===== src/Orchestrator/Drive/Steps.antt =====
-- One step of the loop over targets: its publication, its end, and what is loaded of it.
use jitgen.Orchestrator.Drive.{
  Codec, RunError, after_process, artifact_key, decode_saved, found_one, lift, saved, step_key,
  update, update_by,
}
use jitgen.Orchestrator.Drive.Checkpoint.{
  At, Loadable, Loads, begun_At, finish_step-Loadable, published_At,
}
use jitgen.Orchestrator.Drive.Ops.{Both, Left, lift_sound, look_sound, update_sound}
use jitgen.Orchestrator.Drive.Stored.{AllFinite, SameOutcome, StoresOutcomes}
use jitgen.Orchestrator.Process.{RankedTarget, TargetOutcome}
use jitgen.Prelude.{Option, arith, false, none, refl, some, some_inj, subst, sym, ◌∙◌, ◌≡◌}
use jitgen.Prelude.Effect.{Exec, Post, Triple, Triple-bind, Triple-fact, Triple-if, Triple-pure}
use jitgen.Prelude.Result.{Result, err, ok, ok_inj}
use jitgen.Prelude.Str.{Text, codes}
use jitgen.State.Model.{StepRow, failed_step, is_done, succeeded}
use jitgen.State.Store.{RunDb, begin_row, begin_step, find_file, finish_step, publish_artifact}

-- The step is there and not done.
abbrev pub Busy :
    {F : Type 0}
    → Codec F
    → (Text → Text → TargetOutcome F → Type 0)
    → (id h : Text) → RunDb
    → Type 0
Busy codec Good id h db = (row : StepRow) × At codec Good id h row db × (is_done row.status ≡ false)

abbrev Stored :
    {F : Type 0}
    → Codec F
    → (Text → Text → TargetOutcome F → Type 0)
    → (id h bytes : Text) → RunDb
    → Type 0
Stored codec Good id h bytes db =
    Busy codec Good id h db × (find_file (artifact_key id) db.files ≡ some bytes)

module _ {W F : Type 0} (codec : Codec F) (config_fp : Text)
    (process : RankedTarget F → Exec W RunError (TargetOutcome F))
    (Good : Text → Text → TargetOutcome F → Type 0) (I : W → Type 0) (id h : Text) where
  publish_sound :
      (bytes kind : Text)
      → Triple
          (Both I (Busy codec Good id h))
          (update codec config_fp process
            (publish_artifact codec.sha256_hex (artifact_key id) bytes kind (step_key id)))
          (λ _ s. Both I (Stored codec Good id h bytes) s)
          (Left codec Good)
  publish_sound bytes kind =
      update_sound codec config_fp process Good I (Busy codec Good id h)
        (Stored codec Good id h bytes) _ (λ db b. b.1.loadable)
        λ db after (row, a, busy) e.
          let (a', file) = published_At codec Good id h bytes kind db after row a busy e in
          ((row, a', busy), file)

  finish_sound :
      (bytes : Text)
      → Loads codec Good id h bytes
      → Triple
          (Both I (Stored codec Good id h bytes))
          (update codec config_fp process (finish_step (step_key id) succeeded none))
          (λ _ s. Both I (Loadable codec Good) s)
          (Left codec Good)
  finish_sound bytes loads =
      update_sound codec config_fp process Good I (Stored codec Good id h bytes)
        (Loadable codec Good) _ (λ db b. b.0.1.loadable)
        λ db after ((row, a, busy), file) e.
          let (db', e', l) =
            finish_step-Loadable codec Good id h succeeded none db row a (λ done b file'.
              subst (Loads codec Good id h) (some_inj bytes b (sym file ∙ file')) loads) in
          subst (Loadable codec Good) (ok_inj db' after (sym e' ∙ e)) l

  -- A failure that is recorded, or that cannot be, leaves a loadable state.
  failed_sound :
      (error : Text) (db : RunDb) (w : W)
      → (Busy codec Good id h) db
      → Loadable codec Good
          (update codec config_fp process
            (finish_step (step_key id) failed_step (some error))
            (db, w)).1.0
  unfolding update update_by is_done
  failed_sound error db w (row, a, busy) =
      let (db', e, l) =
        finish_step-Loadable codec Good id h failed_step (some error) db row a
          (λ done. absurd (ground (arith, done))) in
      rw e l

  pub after_process_sound :
      {finite : F → Type 0}
      → StoresOutcomes codec finite
      → ((o p : TargetOutcome F) → SameOutcome o p → Good id h o → Good id h p)
      → (r : Result RunError (TargetOutcome F) × W) (db : RunDb) → (Busy codec Good id h) db
      → Post (λ o w. I w × Good id h o × AllFinite finite o) (λ e w. Unit {0}) r
      → Post
          (λ o s. Both I (Loadable codec Good) s × Good id h o)
          (Left codec Good)
          (after_process codec config_fp process id db r)
  unfolding after_process
  after_process_sound storing stays (err e, w) db busy p = failed_sound (codec.describe e) db w busy
  after_process_sound storing stays (ok o, w) db busy (i, good, fin) =
      (Triple-bind _ _
          (lift_sound codec config_fp process Good I (Busy codec Good id h) (codec.encode_outcome o)
            (λ d b. b.1.loadable))
          λ bytes. Triple-fact λ encoded.
            Triple-bind _ _ (publish_sound bytes (codes "target")) λ u.
              Triple-bind _ _
                (finish_sound bytes (
                  let (p, decoded, same) = storing.reads_back o bytes fin encoded in
                  (p, decoded, stays o p same good)))
                λ v. Triple-pure o λ s p. (p, good)).run
        (db, w) (busy, i)

  pub begin_sound :
      (row : StepRow)
      → Triple
          (Both I (At codec Good id h row))
          (update codec config_fp process (begin_step (step_key id)))
          (λ _ s. Both I (Busy codec Good id h) s)
          (Left codec Good)
  unfolding begin_row is_done
  begin_sound row =
      update_sound codec config_fp process Good I (At codec Good id h row) (Busy codec Good id h) _
        (λ db a. a.loadable)
        λ db after a e.
          let (db', e', a') = begun_At codec Good id h db row a in
          subst (Busy codec Good id h) (ok_inj db' after (sym e' ∙ e)) (begin_row row, a', refl)

  pub saved_sound :
      (row : StepRow)
      → Triple
          (Both I (At codec Good id h row))
          (saved codec config_fp process row id)
          (λ o s.
            Both I (At codec Good id h row) s
            × (((x : TargetOutcome F) → o ≡ some x → Good id h x)))
          (Left codec Good)
  unfolding saved found_one
  saved_sound row =
      Triple-if (is_done row.status) _ _
        (λ done.
          Triple-bind _ _
            (look_sound codec config_fp process Good I (At codec Good id h row)
              (λ db. find_file (artifact_key id) db.files))
            λ bytes. record {
              run = λ s p. read_end bytes s p.0.0 p.1 λ b e.
                  subst (λ x. Loads codec Good id x b) p.0.0.hashed
                    (p.0.0.loadable id row p.0.0.here done b (p.0.1 ∙ e));
            })
        (λ fresh. Triple-pure none λ s p. (p, λ x e. absurd (ground (arith, e))))
    where
      read_end :
          (bytes : Option Text) (s : RunDb × W)
          → At codec Good id h row s.0
          → I s.1
          → ((b : Text) → bytes ≡ some b → Loads codec Good id h b)
          → Post
              (λ o s.
                Both I (At codec Good id h row) s
                × (((x : TargetOutcome F) → o ≡ some x → Good id h x)))
              (Left codec Good)
              (lift codec config_fp process (decode_saved codec config_fp process bytes) s)
      read_end none s a i k = ((a, i), λ x e. absurd (ground (arith, e)))
      read_end (some b) s a i k =
          let (o, e, good) = k b refl in
          subst
            (λ r.
              Post
                (λ q s'.
                  Both I (At codec Good id h row) s'
                  × (((x : TargetOutcome F) → q ≡ some x → Good id h x)))
                (Left codec Good) (found_one codec config_fp process r, s))
            (sym e) ((a, i), λ x q. subst (Good id h) (some_inj o x q) good)
