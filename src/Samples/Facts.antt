-- ===== src/Samples/Facts.antt =====
-- What the samples are known to be.
use jitgen.Core.Change.{new_range}
use jitgen.Core.Classify.{flaky, weak_catch}
use jitgen.Core.Model.{failed, passed}
use jitgen.Orchestrator.Process.{accept_landable, accepted_as}
use jitgen.Prelude.{false, none, refl, some, ◌≡◌, ◌≢◌}
use jitgen.Prelude.Result.{ok}
use jitgen.Prelude.Str.{codes}
use jitgen.Report.Escape.{strip_controls}
use jitgen.Samples.Scripted.{candidate, ranked}
use jitgen.Sandbox.Classify.{classify}

pub weak_catch-not_flaky : weak_catch ≢ flaky
weak_catch-not_flaky h = cc

pub candidate-lands :
    accept_landable (λ s. record { text = s; redacted = false }) ranked candidate (codes "rust")
    ≡ ok (accepted_as (λ s. record { text = s; redacted = false }) ranked candidate (codes "rust"))
unfolding accept_landable strip_controls
candidate-lands = refl

pub weak_pair-exits :
    (passed
      ≡ classify (record {
        exit_code = some 0;
        signal = none;
        timed_out = false;
        build_failed = false;
        inner_never_started = false;
      }))
    × (failed
        ≡ classify (record {
          exit_code = some 1;
          signal = none;
          timed_out = false;
          build_failed = false;
          inner_never_started = false;
        }))
unfolding classify
weak_pair-exits = (refl, refl)

pub range_made : new_range 3 5 ≡ ok (record { start = 3; end = 5 })
unfolding new_range
range_made = refl
