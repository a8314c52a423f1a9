-- ===== src/Samples/Overlays.antt =====
-- A revision with one file, and a disk that counts the bytes written to it.
use jitgen.Intake.Blob.{Git}
use jitgen.Orchestrator.Checkout.{production}
use jitgen.Orchestrator.Checkout.Bounded.{KeepsDisk, Upto}
use jitgen.Orchestrator.Checkout.Bounded.Counted.{checkout_revision-Keeps}
use jitgen.Orchestrator.Checkout.Loaded.{GitLaws}
use jitgen.Orchestrator.Checkout.Overlay.{Disk, checkout_revision, missing}
use jitgen.Prelude.{[], ap, length, none, refl, some, sym, true, ℕ, ◌*◌, ◌+◌, ◌∷◌, ◌≡◌, ◌≤◌}
use jitgen.Prelude.Effect.{Post}
use jitgen.Prelude.Result.{err, ok, ok_inj}
use jitgen.Prelude.Str.{codes, lower_char}

abbrev one_file : Git
one_file = record {
  find_tree = λ oid. ok tt;
  entries = λ oid.
      record { dir = codes "src/"; name = some (codes "a.rs"); is_blob = true }
      ∷ record { dir = []; name = some (codes ".env"); is_blob = true }
      ∷ [];
  walk_error = λ oid. none;
  get_path = λ oid rel. some (rel, true);
  read_header = λ id. ok 3;
  find_blob = λ id. ok (1 ∷ 2 ∷ 3 ∷ []);
}

abbrev counting : Disk ℕ
counting = record {
  stat = λ path w. missing;
  read = λ path w. err [];
  write = λ path b w. (ok tt, w + length b);
  create_dir = λ path w. (ok tt, w);
}

one_file-GitLaws : GitLaws one_file
one_file-GitLaws = record {
  header_size = λ id n b h k. rw (sym (ok_inj 3 n h), sym (ok_inj (1 ∷ 2 ∷ 3 ∷ []) b k)) refl;
}

counting-Keeps : KeepsDisk counting (codes "/o") production (λ t w. w ≡ t)
counting-Keeps = record {
  written = λ t rel b w r v small i. ap (λ n. n + length b) i;
  made = λ t path w b m i. i;
}

checkout_revision-Keeps_example :
    Post
      (λ n w. (n ≤ 50000) × Upto (λ t w. w ≡ t) (2 * 1024 * 1024 * 1024) w)
      (λ e w. Upto (λ t w. w ≡ t) (2 * 1024 * 1024 * 1024) w)
      (checkout_revision counting one_file [] (codes "/o") 0)
checkout_revision-Keeps_example =
    checkout_revision-Keeps counting one_file [] (codes "/o") (λ t w. w ≡ t) counting-Keeps
      one_file-GitLaws 0 refl

checkout_revision_test : checkout_revision counting one_file [] (codes "/o") 0 ≡ (ok 1, 3)
unfolding checkout_revision lower_char
checkout_revision_test = refl
