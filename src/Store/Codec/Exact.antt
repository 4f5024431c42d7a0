-- ===== src/Store/Codec/Exact.antt =====
-- A stored text is read as a value exactly when it is a text that stands for it.
use carryctx.Base.{String, ◌≡◌, ◌↔◌, ◌⊎◌, inl, inr, refl, sym, ap, ◌∙◌, arith, ok, eq_iff}
use carryctx.Task
use carryctx.Task.{TaskStatus, TaskPriority}
use carryctx.Agent
use carryctx.Agent.{AgentStatus}
use carryctx.Session
use carryctx.Session.{SessionState}
use carryctx.Progress
use carryctx.Progress.{ProgressType, ProgressStatus}
use carryctx.Dependency
use carryctx.Dependency.{DependencyKind}
use carryctx.Cleanup
use carryctx.Cleanup.{CleanupState, CleanupReason}
use carryctx.Store.Codec.{
  HandoffStatus, unanswered, accepted, rejected, closed, task_status_to_sql, task_status_from_sql,
  task_priority_to_sql, task_priority_from_sql, agent_status_to_sql, agent_status_from_sql,
  session_state_to_sql, session_state_from_sql, progress_type_to_sql, progress_type_from_sql,
  progress_status_to_sql, progress_status_from_sql, handoff_status_to_sql, handoff_status_from_sql,
  dependency_kind_to_sql, dependency_kind_from_sql, cleanup_state_to_sql, cleanup_state_from_sql,
  cleanup_reason_to_sql, cleanup_reason_from_sql,
}

task_status_from_sql-to_sql : (v : TaskStatus) → task_status_from_sql (task_status_to_sql v) ≡ ok v
unfolding task_status_from_sql task_status_to_sql
task_status_from_sql-to_sql Task.planned = refl
task_status_from_sql-to_sql Task.ready = refl
task_status_from_sql-to_sql Task.in_progress = refl
task_status_from_sql-to_sql Task.blocked = refl
task_status_from_sql-to_sql Task.review = refl
task_status_from_sql-to_sql Task.completed = refl
task_status_from_sql-to_sql Task.cancelled = refl

task_status_text :
    (s : String) (v : TaskStatus) → task_status_from_sql s ≡ ok v → s ≡ task_status_to_sql v
unfolding task_status_from_sql task_status_to_sql
task_status_text s Task.planned h = ground (arith, h, eq_iff s "planned")
task_status_text s Task.ready h = ground (arith, h, eq_iff s "ready")
task_status_text s Task.in_progress h = ground (arith, h, eq_iff s "in_progress")
task_status_text s Task.blocked h = ground (arith, h, eq_iff s "blocked")
task_status_text s Task.review h = ground (arith, h, eq_iff s "review")
task_status_text s Task.completed h = ground (arith, h, eq_iff s "completed")
task_status_text s Task.cancelled h = ground (arith, h, eq_iff s "cancelled")

-- A stored text is read as a task status exactly when it is the text that is written for it.
pub task_status_from_sql_iff :
    (s : String) (v : TaskStatus) → (task_status_from_sql s ≡ ok v) ↔ (s ≡ task_status_to_sql v)
task_status_from_sql_iff s v =
    (task_status_text s v, λ e. ap task_status_from_sql e ∙ task_status_from_sql-to_sql v)

task_priority_from_sql-to_sql :
    (v : TaskPriority) → task_priority_from_sql (task_priority_to_sql v) ≡ ok v
unfolding task_priority_from_sql task_priority_to_sql
task_priority_from_sql-to_sql Task.low = refl
task_priority_from_sql-to_sql Task.normal = refl
task_priority_from_sql-to_sql Task.high = refl
task_priority_from_sql-to_sql Task.urgent = refl

task_priority_text :
    (s : String) (v : TaskPriority) → task_priority_from_sql s ≡ ok v → s ≡ task_priority_to_sql v
unfolding task_priority_from_sql task_priority_to_sql
task_priority_text s Task.low h = ground (arith, h, eq_iff s "low")
task_priority_text s Task.normal h = ground (arith, h, eq_iff s "normal")
task_priority_text s Task.high h = ground (arith, h, eq_iff s "high")
task_priority_text s Task.urgent h = ground (arith, h, eq_iff s "urgent")

pub task_priority_from_sql_iff :
    (s : String) (v : TaskPriority)
    → (task_priority_from_sql s ≡ ok v) ↔ (s ≡ task_priority_to_sql v)
task_priority_from_sql_iff s v =
    (task_priority_text s v, λ e. ap task_priority_from_sql e ∙ task_priority_from_sql-to_sql v)

agent_status_from_sql-to_sql :
    (v : AgentStatus) → agent_status_from_sql (agent_status_to_sql v) ≡ ok v
unfolding agent_status_from_sql agent_status_to_sql
agent_status_from_sql-to_sql Agent.active = refl
agent_status_from_sql-to_sql Agent.deactivated = refl

agent_status_text :
    (s : String) (v : AgentStatus)
    → agent_status_from_sql s ≡ ok v
    → (s ≡ agent_status_to_sql v) ⊎ ((v ≡ Agent.deactivated) × (s ≡ "inactive"))
unfolding agent_status_from_sql agent_status_to_sql
agent_status_text s Agent.active h = ground (arith, h, eq_iff s "active")
agent_status_text s Agent.deactivated h =
    ground (arith, h, eq_iff s "deactivated", eq_iff s "inactive")

pub agent_status_from_sql_iff :
    (s : String) (v : AgentStatus)
    → (agent_status_from_sql s ≡ ok v)
      ↔ ((s ≡ agent_status_to_sql v) ⊎ ((v ≡ Agent.deactivated) × (s ≡ "inactive")))
unfolding agent_status_from_sql
agent_status_from_sql_iff s v = (
  agent_status_text s v,
  λ h. elim h [
    | inl e ↦ ap agent_status_from_sql e ∙ agent_status_from_sql-to_sql v
    | inr (w, e) ↦ ap agent_status_from_sql e ∙ ap ok (sym w)
  ],
)

session_state_from_sql-to_sql :
    (v : SessionState) → session_state_from_sql (session_state_to_sql v) ≡ ok v
unfolding session_state_from_sql session_state_to_sql
session_state_from_sql-to_sql Session.active = refl
session_state_from_sql-to_sql Session.paused = refl
session_state_from_sql-to_sql Session.ended = refl
session_state_from_sql-to_sql Session.stale = refl
session_state_from_sql-to_sql Session.abandoned = refl

session_state_text :
    (s : String) (v : SessionState) → session_state_from_sql s ≡ ok v → s ≡ session_state_to_sql v
unfolding session_state_from_sql session_state_to_sql
session_state_text s Session.active h = ground (arith, h, eq_iff s "active")
session_state_text s Session.paused h = ground (arith, h, eq_iff s "paused")
session_state_text s Session.ended h = ground (arith, h, eq_iff s "ended")
session_state_text s Session.stale h = ground (arith, h, eq_iff s "stale")
session_state_text s Session.abandoned h = ground (arith, h, eq_iff s "abandoned")

pub session_state_from_sql_iff :
    (s : String) (v : SessionState)
    → (session_state_from_sql s ≡ ok v) ↔ (s ≡ session_state_to_sql v)
session_state_from_sql_iff s v =
    (session_state_text s v, λ e. ap session_state_from_sql e ∙ session_state_from_sql-to_sql v)

progress_type_from_sql-to_sql :
    (v : ProgressType) → progress_type_from_sql (progress_type_to_sql v) ≡ ok v
unfolding progress_type_from_sql progress_type_to_sql
progress_type_from_sql-to_sql Progress.todo = refl
progress_type_from_sql-to_sql Progress.blocker = refl
progress_type_from_sql-to_sql Progress.risk = refl
progress_type_from_sql-to_sql Progress.note = refl

progress_type_text :
    (s : String) (v : ProgressType) → progress_type_from_sql s ≡ ok v → s ≡ progress_type_to_sql v
unfolding progress_type_from_sql progress_type_to_sql
progress_type_text s Progress.todo h = ground (arith, h, eq_iff s "todo")
progress_type_text s Progress.blocker h = ground (arith, h, eq_iff s "blocker")
progress_type_text s Progress.risk h = ground (arith, h, eq_iff s "risk")
progress_type_text s Progress.note h = ground (arith, h, eq_iff s "note")

pub progress_type_from_sql_iff :
    (s : String) (v : ProgressType)
    → (progress_type_from_sql s ≡ ok v) ↔ (s ≡ progress_type_to_sql v)
progress_type_from_sql_iff s v =
    (progress_type_text s v, λ e. ap progress_type_from_sql e ∙ progress_type_from_sql-to_sql v)

progress_status_from_sql-to_sql :
    (v : ProgressStatus) → progress_status_from_sql (progress_status_to_sql v) ≡ ok v
unfolding progress_status_from_sql progress_status_to_sql
progress_status_from_sql-to_sql Progress.open_item = refl
progress_status_from_sql-to_sql Progress.completed = refl
progress_status_from_sql-to_sql Progress.removed = refl

progress_status_text :
    (s : String) (v : ProgressStatus)
    → progress_status_from_sql s ≡ ok v
    → s ≡ progress_status_to_sql v
unfolding progress_status_from_sql progress_status_to_sql
progress_status_text s Progress.open_item h = ground (arith, h, eq_iff s "open")
progress_status_text s Progress.completed h = ground (arith, h, eq_iff s "completed")
progress_status_text s Progress.removed h = ground (arith, h, eq_iff s "removed")

pub progress_status_from_sql_iff :
    (s : String) (v : ProgressStatus)
    → (progress_status_from_sql s ≡ ok v) ↔ (s ≡ progress_status_to_sql v)
progress_status_from_sql_iff s v = (
  progress_status_text s v,
  λ e. ap progress_status_from_sql e ∙ progress_status_from_sql-to_sql v,
)

handoff_status_from_sql-to_sql :
    (v : HandoffStatus) → handoff_status_from_sql (handoff_status_to_sql v) ≡ ok v
unfolding handoff_status_from_sql handoff_status_to_sql
handoff_status_from_sql-to_sql unanswered = refl
handoff_status_from_sql-to_sql accepted = refl
handoff_status_from_sql-to_sql rejected = refl
handoff_status_from_sql-to_sql closed = refl

handoff_status_text :
    (s : String) (v : HandoffStatus)
    → handoff_status_from_sql s ≡ ok v
    → (s ≡ handoff_status_to_sql v) ⊎ ((v ≡ closed) × (s ≡ "expired"))
unfolding handoff_status_from_sql handoff_status_to_sql
handoff_status_text s unanswered h = ground (arith, h, eq_iff s "pending")
handoff_status_text s accepted h = ground (arith, h, eq_iff s "accepted")
handoff_status_text s rejected h = ground (arith, h, eq_iff s "declined")
handoff_status_text s closed h = ground (arith, h, eq_iff s "closed", eq_iff s "expired")

-- A stored text is read as a handoff status exactly when it is the text that is written for it, or is
-- `expired` and the status is closed.
pub handoff_status_from_sql_iff :
    (s : String) (v : HandoffStatus)
    → (handoff_status_from_sql s ≡ ok v)
      ↔ ((s ≡ handoff_status_to_sql v) ⊎ ((v ≡ closed) × (s ≡ "expired")))
unfolding handoff_status_from_sql
handoff_status_from_sql_iff s v = (
  handoff_status_text s v,
  λ h. elim h [
    | inl e ↦ ap handoff_status_from_sql e ∙ handoff_status_from_sql-to_sql v
    | inr (w, e) ↦ ap handoff_status_from_sql e ∙ ap ok (sym w)
  ],
)

dependency_kind_from_sql-to_sql :
    (v : DependencyKind) → dependency_kind_from_sql (dependency_kind_to_sql v) ≡ ok v
unfolding dependency_kind_from_sql dependency_kind_to_sql
dependency_kind_from_sql-to_sql Dependency.strong = refl
dependency_kind_from_sql-to_sql Dependency.informational = refl

dependency_kind_text :
    (s : String) (v : DependencyKind)
    → dependency_kind_from_sql s ≡ ok v
    → s ≡ dependency_kind_to_sql v
unfolding dependency_kind_from_sql dependency_kind_to_sql
dependency_kind_text s Dependency.strong h = ground (arith, h, eq_iff s "strong")
dependency_kind_text s Dependency.informational h = ground (arith, h, eq_iff s "informational")

pub dependency_kind_from_sql_iff :
    (s : String) (v : DependencyKind)
    → (dependency_kind_from_sql s ≡ ok v) ↔ (s ≡ dependency_kind_to_sql v)
dependency_kind_from_sql_iff s v = (
  dependency_kind_text s v,
  λ e. ap dependency_kind_from_sql e ∙ dependency_kind_from_sql-to_sql v,
)

cleanup_state_from_sql-to_sql :
    (v : CleanupState) → cleanup_state_from_sql (cleanup_state_to_sql v) ≡ ok v
unfolding cleanup_state_from_sql cleanup_state_to_sql
cleanup_state_from_sql-to_sql Cleanup.pending = refl
cleanup_state_from_sql-to_sql Cleanup.running = refl
cleanup_state_from_sql-to_sql Cleanup.blocked = refl
cleanup_state_from_sql-to_sql Cleanup.completed = refl
cleanup_state_from_sql-to_sql Cleanup.failed = refl
cleanup_state_from_sql-to_sql Cleanup.cancelled = refl

cleanup_state_text :
    (s : String) (v : CleanupState) → cleanup_state_from_sql s ≡ ok v → s ≡ cleanup_state_to_sql v
unfolding cleanup_state_from_sql cleanup_state_to_sql
cleanup_state_text s Cleanup.pending h = ground (arith, h, eq_iff s "pending")
cleanup_state_text s Cleanup.running h = ground (arith, h, eq_iff s "running")
cleanup_state_text s Cleanup.blocked h = ground (arith, h, eq_iff s "blocked")
cleanup_state_text s Cleanup.completed h = ground (arith, h, eq_iff s "completed")
cleanup_state_text s Cleanup.failed h = ground (arith, h, eq_iff s "failed")
cleanup_state_text s Cleanup.cancelled h = ground (arith, h, eq_iff s "cancelled")

pub cleanup_state_from_sql_iff :
    (s : String) (v : CleanupState)
    → (cleanup_state_from_sql s ≡ ok v) ↔ (s ≡ cleanup_state_to_sql v)
cleanup_state_from_sql_iff s v =
    (cleanup_state_text s v, λ e. ap cleanup_state_from_sql e ∙ cleanup_state_from_sql-to_sql v)

cleanup_reason_from_sql-to_sql :
    (v : CleanupReason) → cleanup_reason_from_sql (cleanup_reason_to_sql v) ≡ ok v
unfolding cleanup_reason_from_sql cleanup_reason_to_sql
cleanup_reason_from_sql-to_sql Cleanup.task_completed = refl
cleanup_reason_from_sql-to_sql Cleanup.manual = refl

cleanup_reason_text :
    (s : String) (v : CleanupReason)
    → cleanup_reason_from_sql s ≡ ok v
    → s ≡ cleanup_reason_to_sql v
unfolding cleanup_reason_from_sql cleanup_reason_to_sql
cleanup_reason_text s Cleanup.task_completed h = ground (arith, h, eq_iff s "task_completed")
cleanup_reason_text s Cleanup.manual h = ground (arith, h, eq_iff s "manual")

pub cleanup_reason_from_sql_iff :
    (s : String) (v : CleanupReason)
    → (cleanup_reason_from_sql s ≡ ok v) ↔ (s ≡ cleanup_reason_to_sql v)
cleanup_reason_from_sql_iff s v =
    (cleanup_reason_text s v, λ e. ap cleanup_reason_from_sql e ∙ cleanup_reason_from_sql-to_sql v)
