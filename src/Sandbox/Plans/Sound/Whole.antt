-- ===== src/Sandbox/Plans/Sound/Whole.antt =====
-- The guarantees of `build_plan` as a whole.
use jitgen.Prelude.{List, [], false, is_empty, true, ◌++◌, ◌∷◌, ◌≡◌, ◌⊎◌}
use jitgen.Prelude.Result.{Result}
use jitgen.Prelude.Str.{Text, codes, starts_with}
use jitgen.Sandbox.Command.{PlanInput, SandboxPlan, valid_instance}
use jitgen.Sandbox.Command.Checks.Cwd.{Confined}
use jitgen.Sandbox.Plans.{uses_preamble, wrapped_by}
use jitgen.Sandbox.Plans.Sound.{Launched, env_for}

-- Words with a space between each two.
abbrev pub spaced : Text → List Text → Text
spaced word [] = word
spaced word (next ∷ words) = word ++ codes " " ++ spaced next words

-- The request's program and arguments, or a shell that the policy permits.
abbrev pub Requested : PlanInput → List Text → Type 0
Requested input command =
    ((input.req.shell ≡ false)
      × (command ≡ input.req.program ∷ input.req.args)
      × (is_empty input.req.program ≡ false)
      × (starts_with input.req.program (codes "-") ≡ false))
    ⊎ ((input.req.shell ≡ true)
        × (input.policy.shell_allowed ≡ true)
        × (command ≡ codes "/bin/sh" ∷ codes "-c" ∷ spaced input.req.program input.req.args ∷ []))

pub record PlanSound (input : PlanInput) (plan : SandboxPlan) : Type 0 where
  pub command : List Text
  pub requested : Requested input command
  pub launched : Launched input.backend input (wrapped_by input command) plan.program plan.args
  pub confined : Confined input.overlay_root input.req.cwd_rel plan.cwd
  pub named : valid_instance input.instance_id ≡ true
  pub environment : plan.env ≡ env_for input.backend input
  pub same_backend : plan.backend ≡ input.backend
  pub sentinel : plan.expects_start_sentinel ≡ uses_preamble input.backend
  pub signal : plan.build_signal ≡ input.req.build_signal
