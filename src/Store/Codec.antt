-- ===== src/Store/Codec.antt =====
-- The texts that the rows of crates/carryctx-sqlite/src/repos.rs have for statuses, kinds and reasons.
pub mod Exact
use carryctx.Base.{String, Bool, true, false, ◌==◌, ◌||◌, if◌then◌else◌, Result, ok, err}
use carryctx.Error.{CarryCtxError, database_error}
use carryctx.Task
use carryctx.Task.{TaskStatus, TaskPriority}
use carryctx.Agent
use carryctx.Agent.{AgentStatus}
use carryctx.Session
use carryctx.Session.{SessionState}
use carryctx.Progress
use carryctx.Progress.{ProgressType, ProgressStatus}
use carryctx.Dependency
use carryctx.Dependency.{DependencyKind}
use carryctx.Cleanup
use carryctx.Cleanup.{CleanupState, CleanupReason}

-- `HandoffStatus` of crates/carryctx-core/src/domain/collaboration.rs; `unanswered` is `Open`.
pub data HandoffStatus : Type 0 where
  unanswered accepted rejected closed : HandoffStatus

unfoldable pub task_status_to_sql : TaskStatus → String
task_status_to_sql Task.planned = "planned"
task_status_to_sql Task.ready = "ready"
task_status_to_sql Task.in_progress = "in_progress"
task_status_to_sql Task.blocked = "blocked"
task_status_to_sql Task.review = "review"
task_status_to_sql Task.completed = "completed"
task_status_to_sql Task.cancelled = "cancelled"

unfoldable pub task_status_from_sql : String → Result CarryCtxError TaskStatus
task_status_from_sql s =
    if s == "planned"
    then ok Task.planned
    else if s == "ready"
    then ok Task.ready
    else if s == "in_progress"
    then ok Task.in_progress
    else if s == "blocked"
    then ok Task.blocked
    else if s == "review"
    then ok Task.review
    else if s == "completed"
    then ok Task.completed
    else if s == "cancelled"
    then ok Task.cancelled
    else err (database_error "Unknown task status")

unfoldable pub task_priority_to_sql : TaskPriority → String
task_priority_to_sql Task.low = "low"
task_priority_to_sql Task.normal = "normal"
task_priority_to_sql Task.high = "high"
task_priority_to_sql Task.urgent = "urgent"

unfoldable pub task_priority_from_sql : String → Result CarryCtxError TaskPriority
task_priority_from_sql s =
    if s == "low"
    then ok Task.low
    else if s == "normal"
    then ok Task.normal
    else if s == "high"
    then ok Task.high
    else if s == "urgent"
    then ok Task.urgent
    else err (database_error "Unknown task priority")

unfoldable pub agent_status_to_sql : AgentStatus → String
agent_status_to_sql Agent.active = "active"
agent_status_to_sql Agent.deactivated = "deactivated"

unfoldable pub agent_status_from_sql : String → Result CarryCtxError AgentStatus
agent_status_from_sql s =
    if s == "active"
    then ok Agent.active
    else if s == "inactive" || s == "deactivated"
    then ok Agent.deactivated
    else err (database_error "Unknown agent status")

unfoldable pub session_state_to_sql : SessionState → String
session_state_to_sql Session.active = "active"
session_state_to_sql Session.paused = "paused"
session_state_to_sql Session.ended = "ended"
session_state_to_sql Session.stale = "stale"
session_state_to_sql Session.abandoned = "abandoned"

unfoldable pub session_state_from_sql : String → Result CarryCtxError SessionState
session_state_from_sql s =
    if s == "active"
    then ok Session.active
    else if s == "paused"
    then ok Session.paused
    else if s == "ended"
    then ok Session.ended
    else if s == "stale"
    then ok Session.stale
    else if s == "abandoned"
    then ok Session.abandoned
    else err (database_error "Unknown session state")

unfoldable pub progress_type_to_sql : ProgressType → String
progress_type_to_sql Progress.todo = "todo"
progress_type_to_sql Progress.blocker = "blocker"
progress_type_to_sql Progress.risk = "risk"
progress_type_to_sql Progress.note = "note"

unfoldable pub progress_type_from_sql : String → Result CarryCtxError ProgressType
progress_type_from_sql s =
    if s == "todo"
    then ok Progress.todo
    else if s == "blocker"
    then ok Progress.blocker
    else if s == "risk"
    then ok Progress.risk
    else if s == "note"
    then ok Progress.note
    else err (database_error "Unknown progress type")

unfoldable pub progress_status_to_sql : ProgressStatus → String
progress_status_to_sql Progress.open_item = "open"
progress_status_to_sql Progress.completed = "completed"
progress_status_to_sql Progress.removed = "removed"

unfoldable pub progress_status_from_sql : String → Result CarryCtxError ProgressStatus
progress_status_from_sql s =
    if s == "open"
    then ok Progress.open_item
    else if s == "completed"
    then ok Progress.completed
    else if s == "removed"
    then ok Progress.removed
    else err (database_error "Unknown progress status")

unfoldable pub handoff_status_to_sql : HandoffStatus → String
handoff_status_to_sql unanswered = "pending"
handoff_status_to_sql accepted = "accepted"
handoff_status_to_sql rejected = "declined"
handoff_status_to_sql closed = "closed"

unfoldable pub handoff_status_from_sql : String → Result CarryCtxError HandoffStatus
handoff_status_from_sql s =
    if s == "pending"
    then ok unanswered
    else if s == "accepted"
    then ok accepted
    else if s == "declined"
    then ok rejected
    else if s == "expired" || s == "closed"
    then ok closed
    else err (database_error "Unknown handoff status")

unfoldable pub dependency_kind_to_sql : DependencyKind → String
dependency_kind_to_sql Dependency.strong = "strong"
dependency_kind_to_sql Dependency.informational = "informational"

unfoldable pub dependency_kind_from_sql : String → Result CarryCtxError DependencyKind
dependency_kind_from_sql s =
    if s == "strong"
    then ok Dependency.strong
    else if s == "informational"
    then ok Dependency.informational
    else err (database_error "Unknown dependency kind")

unfoldable pub cleanup_state_to_sql : CleanupState → String
cleanup_state_to_sql Cleanup.pending = "pending"
cleanup_state_to_sql Cleanup.running = "running"
cleanup_state_to_sql Cleanup.blocked = "blocked"
cleanup_state_to_sql Cleanup.completed = "completed"
cleanup_state_to_sql Cleanup.failed = "failed"
cleanup_state_to_sql Cleanup.cancelled = "cancelled"

unfoldable pub cleanup_state_from_sql : String → Result CarryCtxError CleanupState
cleanup_state_from_sql s =
    if s == "pending"
    then ok Cleanup.pending
    else if s == "running"
    then ok Cleanup.running
    else if s == "blocked"
    then ok Cleanup.blocked
    else if s == "completed"
    then ok Cleanup.completed
    else if s == "failed"
    then ok Cleanup.failed
    else if s == "cancelled"
    then ok Cleanup.cancelled
    else err (database_error "Unknown cleanup state")

unfoldable pub cleanup_reason_to_sql : CleanupReason → String
cleanup_reason_to_sql Cleanup.task_completed = "task_completed"
cleanup_reason_to_sql Cleanup.manual = "manual"

unfoldable pub cleanup_reason_from_sql : String → Result CarryCtxError CleanupReason
cleanup_reason_from_sql s =
    if s == "task_completed"
    then ok Cleanup.task_completed
    else if s == "manual"
    then ok Cleanup.manual
    else err (database_error "Unknown cleanup reason")
