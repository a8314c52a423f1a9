-- ===== src/Orchestrator/Process/Landing.antt =====
-- What a landable test is: what is written is, byte for byte, what was validated.
use jitgen.Core.Classify.{harden_pass}
use jitgen.Core.Model.{Redaction, TestCandidate}
use jitgen.Orchestrator.Process.{RankedTarget, accept_landable, accepted_as, path_is_landable}
use jitgen.Prelude.{
  Bool, [], any, arith, false, if◌then◌else◌, is_empty, not, refl, subst, true, ◌==◌, ◌∷◌, ◌≡◌,
}
use jitgen.Prelude.Result.{Result, err, ok, ok_inj}
use jitgen.Prelude.Str.{Text, starts_with, text_eq, text_eq_iff, trim}
use jitgen.Report.Escape.{strip_controls}
use jitgen.Report.Model.{AcceptedTest}

-- A text that neither redaction flags nor control stripping changes.
pub record Clean (redact : Text → Redaction) (s : Text) : Type 0 where
  pub no_secret : (redact s).redacted ≡ false
  pub no_controls : strip_controls s ≡ s

pub record Landable {F : Type 0} (redact : Text → Redaction) (rt : RankedTarget F)
    (c : TestCandidate) (t : AcceptedTest) : Type 0 where
  pub target_kept : t.target ≡ rt.target.id
  pub path_kept : t.path ≡ c.rel_path
  pub source_kept : t.source ≡ c.source
  pub class_kept : t.observed_class ≡ harden_pass
  pub source_clean : Clean redact t.source
  pub path_clean : Clean redact t.path
  pub one_line : any (λ x. x == 10) t.path ≡ false
  pub untabbed : any (λ x. x == 9) t.path ≡ false
  pub relative : starts_with t.path (b'/' ∷ []) ≡ false
  pub not_blank : is_empty (trim t.source) ≡ false

path_is_landable_lem :
    (p : Text)
    → path_is_landable p ≡ true
    → (text_eq (strip_controls p) p ≡ true)
      × (any (λ x. x == 10) p ≡ false)
      × (any (λ x. x == 9) p ≡ false)
      × (starts_with p (b'/' ∷ []) ≡ false)
unfolding path_is_landable
path_is_landable_lem p h = ground arith

-- A test that did not return early with an error.
went_on :
    {E A : Type 0} (b : Bool) (e : E) (m : Result E A) (a : A)
    → (if b then err e else m) ≡ ok a
    → (b ≡ false) × (m ≡ ok a)
went_on true e m a h = absurd (ground (arith, h))
went_on false e m a h = (refl, h)

-- A test that is accepted has the candidate's path and source unchanged and the class of a
-- hardening pass; redaction flags neither and control stripping changes neither; the source is
-- not blank, and the path has no line feed, no tab and no leading slash.
pub accept_landable_lem :
    {F : Type 0} (redact : Text → Redaction) (rt : RankedTarget F) (c : TestCandidate)
    (language : Text) (t : AcceptedTest)
    → accept_landable redact rt c language ≡ ok t
    → Landable redact rt c t
unfolding accept_landable accepted_as
accept_landable_lem redact rt c language t h =
    let (filled, h1) = went_on (is_empty (trim c.source)) _ _ t h in
    let (secret_free, h2) = went_on (redact c.source).redacted _ _ t h1 in
    let (path_secret_free, h3) = went_on (redact c.rel_path).redacted _ _ t h2 in
    let (same, h4) = went_on (not (text_eq (strip_controls c.source) c.source)) _ _ t h3 in
    let (path_fine, h5) =
      went_on (not (path_is_landable c.rel_path)) _ (ok (accepted_as redact rt c language)) t h4 in
    let fine = path_is_landable_lem c.rel_path (ground (arith, path_fine)) in
    subst (Landable redact rt c) (ok_inj (accepted_as redact rt c language) t h5) (record {
      target_kept = refl;
      path_kept = refl;
      source_kept = refl;
      class_kept = refl;
      source_clean = record {
        no_secret = secret_free;
        no_controls = (text_eq_iff _ _).0 (ground (arith, same));
      };
      path_clean = record {
        no_secret = path_secret_free;
        no_controls = (text_eq_iff _ _).0 fine.0;
      };
      one_line = fine.1;
      untabbed = fine.2;
      relative = fine.3;
      not_blank = filled;
    })
