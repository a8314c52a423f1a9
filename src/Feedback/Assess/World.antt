-- ===== src/Feedback/Assess/World.antt =====
-- What an assessment does to the outside world: it asks its judge, at most.
use jitgen.Core.Model.{CatchExecution, ContextBundle, Redaction}
use jitgen.Feedback.Assess.{AssessConfig, Json, assess, consult, judge, judge_answer}
use jitgen.Feedback.Host.{GenerationError, LlmRequest, Prompt}
use jitgen.Prelude.{Bool, Option, false, if◌then◌else◌, none, some, true}
use jitgen.Prelude.Effect.{Exec}
use jitgen.Prelude.Float.{Float}
use jitgen.Prelude.Result.{Result, err, ok}
use jitgen.Prelude.Str.{Text}

answer_world :
    {W F J : Type 0} (f : Float F) (json : Json F J) (redact : Text → Redaction) (I : W → Type 0)
    (r : Result GenerationError Text × W)
    → I r.1
    → I (judge_answer f json redact r).1
unfolding judge_answer
answer_world f json redact I (ok raw, w) p = p
answer_world f json redact I (err e, w) p = p

-- An assessment keeps what each question to the judge keeps.
pub assess_world :
    {W F J : Type 0} (f : Float F) (json : Json F J)
    (generate : LlmRequest → Exec W GenerationError Text) (I : W → Type 0)
    → ((req : LlmRequest) (w : W) → I w → I (generate req w).1)
    → (real : Bool) (redact : Text → Redaction) (judge_prompt : Text → Prompt)
      (exec : CatchExecution) (stable : Bool) (context : Option ContextBundle)
      (cfg : AssessConfig F) (w : W)
    → I w
    → I
        (assess f json
          (if real then some generate else none)
          redact
          judge_prompt
          exec
          stable
          context
          cfg
          w).1
unfolding assess consult judge
assess_world f json generate I keeps false redact judge_prompt exec stable context cfg w i = i
assess_world f json generate I keeps true redact judge_prompt exec stable context cfg w i =
    answer_world f json redact I (generate _ w) (keeps _ w i)
