-- ===== src/Cleanup.antt =====
-- crates/carryctx-core/src/domain/cleanup.rs: worktree cleanup requests, their states and blockers.
pub mod RoundTrip
use Prim.Native.String.{[], ◌∷◌}
use Prim.Native.Char.{code}
use carryctx.Base.{
  ℕ, String, Bool, true, false, Option, none, some, ◌==◌, if◌then◌else◌, Result, ok, err, nat_eq,
  List,
}
use carryctx.Error.{CarryCtxError, validation_error}

pub data CleanupState : Type 0 where
  pending running blocked completed failed cancelled : CleanupState

pub CleanupState-discrete : Discrete CleanupState
CleanupState-discrete = hlevel

unfoldable pub as_str : CleanupState → String
as_str pending = "pending"
as_str running = "running"
as_str blocked = "blocked"
as_str completed = "completed"
as_str failed = "failed"
as_str cancelled = "cancelled"

unfoldable pub is_terminal : CleanupState → Bool
is_terminal completed = true
is_terminal failed = true
is_terminal cancelled = true
is_terminal _ = false

unfoldable pub is_active : CleanupState → Bool
is_active pending = true
is_active running = true
is_active blocked = true
is_active _ = false

unfoldable pub state_from_str : String → Result CarryCtxError CleanupState
state_from_str s =
    if s == "pending"
    then ok pending
    else if s == "running"
    then ok running
    else if s == "blocked"
    then ok blocked
    else if s == "completed"
    then ok completed
    else if s == "failed"
    then ok failed
    else if s == "cancelled"
    then ok cancelled
    else err (validation_error "Unknown cleanup state")

pub data CleanupReason : Type 0 where
  task_completed manual : CleanupReason

unfoldable pub reason_as_str : CleanupReason → String
reason_as_str task_completed = "task_completed"
reason_as_str manual = "manual"

unfoldable pub reason_from_str : String → Result CarryCtxError CleanupReason
reason_from_str s =
    if s == "task_completed"
    then ok task_completed
    else if s == "manual"
    then ok manual
    else err (validation_error "Unknown cleanup reason")

pub data CleanupBlocker : Type 0 where
  active_session : String → CleanupBlocker
  dirty_worktree current_working_directory missing_git_metadata worktree_locked jj_colocation :
      CleanupBlocker

-- `strip_prefix`
unfoldable pub strip_prefix : String → String → Option String
strip_prefix [] s = some s
strip_prefix (p ∷ ps) [] = none
strip_prefix (p ∷ ps) (c ∷ s) =
    let rest = strip_prefix ps s in if nat_eq (code p) (code c) then rest else none

-- Text concatenation, as `format!` does it.
unfoldable pub concat : String → String → String
concat [] t = t
concat (c ∷ s) t = c ∷ concat s t

unfoldable pub to_db_string : CleanupBlocker → String
unfolding concat
to_db_string (active_session session_id) = concat "active_session:" session_id
to_db_string dirty_worktree = "dirty_worktree"
to_db_string current_working_directory = "current_working_directory"
to_db_string missing_git_metadata = "missing_git_metadata"
to_db_string worktree_locked = "worktree_locked"
to_db_string jj_colocation = "jj_colocation"

-- `Display`, which leaves out an empty session id.
unfoldable pub display : CleanupBlocker → String
unfolding to_db_string
display (active_session session_id) =
    if session_id == "" then "active_session" else to_db_string (active_session session_id)
display b = to_db_string b

unfoldable pub unit_blocker : String → Option CleanupBlocker
unit_blocker s =
    if s == "dirty_worktree"
    then some dirty_worktree
    else if s == "current_working_directory"
    then some current_working_directory
    else if s == "missing_git_metadata"
    then some missing_git_metadata
    else if s == "worktree_locked"
    then some worktree_locked
    else if s == "jj_colocation"
    then some jj_colocation
    else if s == "active_session"
    then some (active_session "")
    else none

unfoldable pub from_db_string : String → Option CleanupBlocker
unfolding strip_prefix unit_blocker
from_db_string s = elim (strip_prefix "active_session:" s) [
  | some rest ↦ some (active_session rest)
  | none ↦ unit_blocker s
]

pub record CleanupRequest : Type 0 where
  pub id : String
  pub worktree_id : Option String
  pub worktree_path : String
  pub branch : Option String
  pub task_id : Option String
  pub reason : CleanupReason
  pub state : CleanupState
  pub blocked_reason : Option CleanupBlocker
  pub attempt_count : ℕ
  pub requested_at : String
  pub last_attempt_at : Option String
  pub completed_at : Option String

unfoldable pub request_is_terminal : CleanupRequest → Bool
unfolding is_terminal
request_is_terminal r = is_terminal r.state

unfoldable pub request_is_active : CleanupRequest → Bool
unfolding is_active
request_is_active r = is_active r.state

pub record CleanupAssessment : Type 0 where
  pub removable : Bool
  pub blockers : List CleanupBlocker

abbrev pub removable_assessment : CleanupAssessment
removable_assessment = record { removable = true; blockers = List.[] }

abbrev pub blocked_assessment : List CleanupBlocker → CleanupAssessment
blocked_assessment blockers = record { removable = false; blockers = blockers }
