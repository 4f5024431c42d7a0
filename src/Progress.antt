-- ===== src/Progress.antt =====
-- crates/carryctx-core/src/domain/progress.rs: progress items and their lifecycle.
use carryctx.Base.{String, ◌≡◌, Result, ok, err, if◌then◌else◌, ◌||◌, ◌==◌, refl}
use carryctx.Error.{CarryCtxError, invalid_task_transition, invalid_arguments}

pub data ProgressType : Type 0 where
  todo blocker risk note : ProgressType

unfoldable pub name : ProgressType → String
name todo = "todo"
name blocker = "blocker"
name risk = "risk"
name note = "note"

unfoldable pub parse_type : String → Result CarryCtxError ProgressType
parse_type s =
    if s == "todo"
    then ok todo
    else if s == "blocker" || s == "block"
    then ok blocker
    else if s == "risk"
    then ok risk
    else if s == "note"
    then ok note
    else err (invalid_arguments "Unknown progress type")

pub data ProgressStatus : Type 0 where
  open_item completed removed : ProgressStatus

pub data ProgressAction : Type 0 where
  complete reopen remove : ProgressAction

debug_status : ProgressStatus → String
debug_status open_item = "Open"
debug_status completed = "Completed"
debug_status removed = "Removed"

debug_action : ProgressAction → String
debug_action complete = "Complete"
debug_action reopen = "Reopen"
debug_action remove = "Remove"

unfoldable pub evaluate_progress_transition :
    ProgressStatus → ProgressAction → Result CarryCtxError ProgressStatus
unfolding debug_status debug_action
evaluate_progress_transition open_item complete = ok completed
evaluate_progress_transition open_item remove = ok removed
evaluate_progress_transition completed reopen = ok open_item
evaluate_progress_transition completed remove = ok removed
evaluate_progress_transition current action =
    err (invalid_task_transition (debug_status current) (debug_action action))

-- Every progress type is read back from its name.
pub parse_type-name : (t : ProgressType) → parse_type (name t) ≡ ok t
unfolding parse_type name
parse_type-name todo = refl
parse_type-name blocker = refl
parse_type-name risk = refl
parse_type-name note = refl
