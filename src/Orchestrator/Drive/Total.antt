-- ===== src/Orchestrator/Drive/Total.antt =====
-- The operations of one round end without an error when the collaborators do.
use jitgen.Orchestrator.Drive.{
  Codec, RunError, after_process, artifact_key, decode_saved, found_one, lift, look, require_step,
  sanitize_id, saved, step_key, update, update_by,
}
use jitgen.Orchestrator.Drive.Keys.{artifact_key-distinct}
use jitgen.Orchestrator.Drive.Ops.{Both}
use jitgen.Orchestrator.Drive.SafeKeys.{safe_join-artifact_key}
use jitgen.Orchestrator.Drive.Stored.{AllFinite, StoresOutcomes}
use jitgen.Orchestrator.Process.{RankedTarget, TargetOutcome}
use jitgen.Prelude.{Option, ap, arith, inl, inr, none, refl, some, some_inj, subst, sym, ◌∙◌, ◌≡◌}
use jitgen.Prelude.Effect.{
  Exec, Post, Triple, Triple-bind, Triple-fact, Triple-if, Triple-pure, ◌>>=◌,
}
use jitgen.Prelude.Result.{Result, err, ok, ok_inj}
use jitgen.Prelude.Str.{Text, codes}
use jitgen.State.Model.{StateError, StepRow, is_done, succeeded}
use jitgen.State.Store.{RunDb, find_file, find_step, publish_artifact, put_file, safe_join, step}
use jitgen.State.Store.Changes.{Changed, finish_step_lem, publish_artifact_lem}
use jitgen.State.Store.Lookup.{find_file-put_other, find_file-put_same, key_cases}

abbrev pub Never : {W : Type 0} → RunError → RunDb × W → Type 0
Never e s = ⊥

-- Every artifact of a target that is there can be decoded.
abbrev pub Decodable : {F : Type 0} → Codec F → RunDb → Type 0
Decodable codec db =
    (id bytes : Text)
    → find_file (artifact_key id) db.files ≡ some bytes
    → (o : _) × (codec.decode_outcome bytes ≡ ok o)

-- An outcome that can be stored.
abbrev pub Storable : {F : Type 0} → Codec F → TargetOutcome F → Type 0
Storable codec o = (bytes : Text) × (codec.encode_outcome o ≡ ok bytes)

-- The step is there beside.
abbrev pub Ready : {F : Type 0} → Codec F → Text → StepRow → RunDb → Type 0
Ready codec id row db = Decodable codec db × (find_step (step_key id) db.step_rows ≡ some row)

module _ {F : Type 0} (codec : Codec F) where
  pub Changed-Ready :
      (id : Text) (db after : RunDb) (row : StepRow)
      → Decodable codec db
      → Changed (step_key id) db after row
      → Ready codec id row after
  Changed-Ready id db after row d c = (
    λ other bytes e. d other bytes (ap (find_file (artifact_key other)) (sym c.same_files) ∙ e),
    c.here,
  )

  put_file-Decodable :
      (id bytes : Text) (o : TargetOutcome F) (db after : RunDb)
      → codec.decode_outcome bytes ≡ ok o
      → after.files ≡ put_file (artifact_key id) bytes db.files
      → Decodable codec db
      → Decodable codec after
  put_file-Decodable id bytes o db after decoded fs d other b e = elim (key_cases id other) [
    | inl same ↦ (
      o,
      subst (λ x. codec.decode_outcome x ≡ ok o)
          (some_inj bytes b (
            sym (find_file-put_same (artifact_key id) bytes db.files)
            ∙ ap (find_file (artifact_key id)) (sym fs)
            ∙ ap (λ x. find_file (artifact_key x) after.files) same
            ∙ e))
          decoded,
    )
    | inr apart ↦ d other b (
        sym (
          find_file-put_other (artifact_key id) (artifact_key other) bytes db.files
            (artifact_key-distinct id other apart))
        ∙ ap (find_file (artifact_key other)) (sym fs)
        ∙ e)
  ]

  -- A path that is accepted can be published at.
  publish_artifact-ok :
      (path bytes kind key : Text) (db : RunDb)
      → safe_join path ≡ ok path
      → (after : RunDb) × (publish_artifact codec.sha256_hex path bytes kind key db ≡ ok after)
  unfolding publish_artifact ◌>>=◌
  publish_artifact-ok path bytes kind key db e = rw e (_, refl)

module _ {W F : Type 0} (codec : Codec F) (config_fp : Text)
    (process : RankedTarget F → Exec W RunError (TargetOutcome F)) (I : W → Type 0) where
  pub update-total :
      (P Q : RunDb → Type 0) (change : RunDb → Result StateError RunDb)
      → ((db : RunDb) → P db → (after : RunDb) × (change db ≡ ok after) × Q after)
      → Triple (Both I P) (update codec config_fp process change) (λ _ s. Both I Q s) Never
  unfolding update update_by
  update-total P Q change k = record {
    run = λ (db, w) p. let (after, e, q) = k db p.0 in rw e (q, p.1);
  }

  pub lift-total :
      {A : Type 0} (P : RunDb → Type 0) (r : Result RunError A) (a : A)
      → r ≡ ok a
      → Triple (Both I P) (lift codec config_fp process r) (λ b s. Both I P s × (a ≡ b)) Never
  unfolding lift
  lift-total P (ok b) a e = record { run = λ s p. (p, sym (ok_inj b a e)) }
  lift-total P (err b) a e = absurd (ground (arith, e))

  pub look-total :
      {A : Type 0} (P : RunDb → Type 0) (get : RunDb → A)
      → Triple
          (Both I P)
          (look codec config_fp process get)
          (λ a s. Both I (λ db. P db × (get db ≡ a)) s)
          Never
  unfolding look
  look-total P get = record { run = λ (db, w) p. ((p.0, refl), p.1) }

  pub require_step-total :
      (id : Text) (found : Option StepRow)
      → Triple
          (Both I
            (λ db. ((row : StepRow) × Ready codec id row db) × (step (step_key id) db ≡ found)))
          (lift codec config_fp process (require_step codec config_fp process found))
          (λ row s. Both I (Ready codec id row) s)
          Never
  unfolding lift require_step step
  require_step-total id none = record {
    run = λ s p. absurd (ground (arith, sym p.0.1 ∙ p.0.0.1.1));
  }
  require_step-total id (some r) = record { run = λ s p. ((p.0.0.1.0, p.0.1), p.1) }

  pub saved-total :
      (id : Text) (row : StepRow)
      → Triple
          (Both I (Ready codec id row))
          (saved codec config_fp process row id)
          (λ o s. Both I (Ready codec id row) s)
          Never
  unfolding saved lift decode_saved found_one
  saved-total id row =
      Triple-if (is_done row.status) _ _
        (λ done.
          Triple-bind _ _
            (look-total (Ready codec id row) (λ db. find_file (artifact_key id) db.files))
            λ bytes. record {
              run = λ s p. decoded_end bytes s (λ b e. p.0.0.0 id b (p.0.1 ∙ e)) (p.0.0, p.1);
            })
        (λ fresh. Triple-pure none λ s p. p)
    where
      decoded_end :
          (bytes : Option Text) (s : RunDb × W)
          → ((b : Text) → bytes ≡ some b → (o : TargetOutcome F) × (codec.decode_outcome b ≡ ok o))
          → Both I (Ready codec id row) s
          → Post
              (λ o s. Both I (Ready codec id row) s)
              Never
              (decode_saved codec config_fp process bytes, s)
      decoded_end none s d p = p
      decoded_end (some b) s d p = let (o, e) = d b refl in rw e p

  pub after_process-total :
      {finite : F → Type 0}
      → StoresOutcomes codec finite
      → (s : Text) (row : StepRow) (db : RunDb) (r : Result RunError (TargetOutcome F) × W)
      → Ready codec (sanitize_id s) row db
      → Post (λ o w. (I w × Storable codec o) × AllFinite finite o) (λ e w. ⊥) r
      → Post
          (λ o s. Both I (Decodable codec) s)
          Never
          (after_process codec config_fp process (sanitize_id s) db r)
  unfolding after_process
  after_process-total storing s row db (err e, w) ready p = absurd p
  after_process-total storing s row db (ok o, w) ready ((i, (bytes, encoded)), fin) =
      let (read, decoded, kept) = storing.reads_back o bytes fin encoded in
      let id = sanitize_id s in
      (Triple-bind _ _ (lift-total (Ready codec id row) (codec.encode_outcome o) bytes encoded) λ b.
          Triple-fact λ same.
            Triple-bind _ _
              (update-total (Ready codec id row) (Ready codec id row) _ λ db ready.
                let (after, e) =
                  publish_artifact-ok codec (artifact_key id) b (codes "target") (step_key id) db
                    (safe_join-artifact_key s) in
                let (rows, fs) =
                  publish_artifact_lem codec.sha256_hex (artifact_key id) b (codes "target")
                    (step_key id) db after e in
                (
                  after,
                  e,
                  (
                    put_file-Decodable codec id b read db after
                        (ap codec.decode_outcome (sym same) ∙ decoded) fs ready.0,
                    ap (find_step (step_key id)) rows ∙ ready.1,
                  ),
                ))
              λ u.
                Triple-bind _ _
                  (update-total (Ready codec id row) (Decodable codec) _ λ db ready.
                    let (after, e, c) =
                      finish_step_lem (step_key id) succeeded none db row ready.1 in
                    (after, e, (Changed-Ready codec id db after _ ready.0 c).0))
                  λ v. Triple-pure o λ s p. p).run
        (db, w) (ready, i)
