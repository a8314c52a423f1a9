-- ===== src/State/Model.antt =====
-- crates/jitgen-state/src/model.rs: the records that are persisted.
use jitgen.Prelude.{
  Bool, Option, ap, arith, false, if◌then◌else◌, none, refl, some, true, ℕ, ◌↔◌, ◌∙◌, ◌≡◌,
}
use jitgen.Prelude.Int.{ℤ}
use jitgen.Prelude.Str.{Text, codes, text_eq, text_eq_iff}

pub data StepStatus : Type 0 where
  pending running succeeded failed_step skipped : StepStatus

-- `StepStatus::as_str`, `StepStatus::parse` and `StepStatus::is_done`.
unfoldable pub status_as_str : StepStatus → Text
status_as_str pending = codes "pending"
status_as_str running = codes "running"
status_as_str succeeded = codes "succeeded"
status_as_str failed_step = codes "failed"
status_as_str skipped = codes "skipped"

unfoldable pub parse_status : Text → Option StepStatus
unfolding text_eq
parse_status s =
    if text_eq s (codes "pending")
    then some pending
    else if text_eq s (codes "running")
    then some running
    else if text_eq s (codes "succeeded")
    then some succeeded
    else if text_eq s (codes "failed")
    then some failed_step
    else if text_eq s (codes "skipped")
    then some skipped
    else none

unfoldable pub is_done : StepStatus → Bool
is_done succeeded = true
is_done skipped = true
is_done s = false

-- A row of the table `steps`, with `seq`, which `StepRecord` leaves out.
pub record StepRow : Type 0 where
  pub step_id : Text
  pub seq : ℤ
  pub step_kind : Text
  pub input_hash : Text
  pub status : StepStatus
  pub error : Option Text
  pub retry_count : ℕ

pub record ArtifactRecord : Type 0 where
  pub step_id : Text
  pub rel_path : Text
  pub artifact_kind : Text
  pub sha256 : Text

pub record RunMeta : Type 0 where
  pub run_id : Text
  pub repo_path : Text
  pub base_ref : Text
  pub head_ref : Text
  pub mode_name : Text
  pub schema_version : ℕ
  pub run_status : Text

pub data StateError : Type 0 where
  run_not_found invalid_state : Text → StateError

parse_status-some :
    (s : Text) (st : StepStatus) → parse_status s ≡ some st → text_eq s (status_as_str st) ≡ true
unfolding parse_status status_as_str
parse_status-some s pending h = ground (arith, h)
parse_status-some s running h = ground (arith, h)
parse_status-some s succeeded h = ground (arith, h)
parse_status-some s failed_step h = ground (arith, h)
parse_status-some s skipped h = ground (arith, h)

parse_status-as_str : (st : StepStatus) → parse_status (status_as_str st) ≡ some st
unfolding parse_status status_as_str text_eq
parse_status-as_str pending = refl
parse_status-as_str running = refl
parse_status-as_str succeeded = refl
parse_status-as_str failed_step = refl
parse_status-as_str skipped = refl

-- A stored text parses as a status exactly when it is the text that is stored for that status.
pub parse_status_iff :
    (s : Text) (st : StepStatus) → (parse_status s ≡ some st) ↔ (s ≡ status_as_str st)
parse_status_iff s st = (
  λ h. (text_eq_iff s (status_as_str st)).0 (parse_status-some s st h),
  λ e. ap parse_status e ∙ parse_status-as_str st,
)
