-- ===== src/Store/State.antt =====
-- The rows of one project, by table (crates/carryctx-core/src/repository), and the actions of a transaction on them.
use carryctx.Base.{ℕ, String, Bool, true, false, Option, List, Result, ok, err}
use carryctx.Error.{CarryCtxError}
use carryctx.Task.{TaskStatus, TaskPriority}
use carryctx.Agent.{Agent}
use carryctx.Dependency.{DependencyEdge, DependencyKind}
use carryctx.Session.{SessionState}
use carryctx.Progress.{ProgressStatus}
use carryctx.Cleanup.{CleanupRequest, CleanupReason}

pub record TaskRecord : Type 0 where
  pub id : String
  pub display_id : String
  pub title : String
  pub description : Option String
  pub status : TaskStatus
  pub priority : TaskPriority
  pub owner_agent_id : Option String
  pub parent_task_id : Option String
  pub created_at : String
  pub updated_at : String
  pub started_at : Option String
  pub completed_at : Option String
  pub required_role : Option String
  pub team_id : Option String

pub record DependencyRow : Type 0 where
  pub id : String
  pub edge : DependencyEdge

pub record TeamRow : Type 0 where
  pub id : String
  pub name : String

-- The payloads that the task operations write, by the type of the event.
pub data Payload : Type 0 where
  created : TaskRecord → Payload
  edited : TaskRecord → TaskRecord → Bool → Payload
  claimed : String → String → Payload
  transitioned : String → TaskStatus → TaskStatus → Option String → Option Bool → Payload
  cleanup_requested : String → String → String → Option String → CleanupReason → Payload
  unblocked : String → String → String → Payload
  dependency_added : String → String → DependencyKind → Payload
  dependency_removed : String → String → Payload

pub record Event : Type 0 where
  pub event_type : String
  pub actor_agent_id : Option String
  pub task_id : String
  pub payload : Payload
  pub occurred_at : String

pub record SessionRow : Type 0 where
  pub task_id : Option String
  pub state : SessionState

pub record ProgressRow : Type 0 where
  pub task_id : String
  pub status : ProgressStatus

pub record WorktreeRow : Type 0 where
  pub id : String
  pub path : String
  pub branch : Option String
  pub task_id : Option String

pub record Tombstone : Type 0 where
  pub table_name : String
  pub row_id : String
  pub deleted_at : String
  pub reason : Option String

pub record Store : Type 0 where
  pub tasks : List TaskRecord
  pub dependencies : List DependencyRow
  pub agents : List Agent
  pub events : List Event
  pub sessions : List SessionRow
  pub progress_items : List ProgressRow
  pub worktrees : List WorktreeRow
  pub cleanup_requests : List CleanupRequest
  pub tombstones : List Tombstone
  pub sequences : List (String × ℕ)
  pub teams : List TeamRow

-- An operation inside a transaction.
abbrev pub Op : Type 0 → Type 0
Op A = Store → Result CarryCtxError (A × Store)

unfoldable pub return : {A : Type 0} → A → Op A
return a s = ok (a, s)

unfoldable pub fail : {A : Type 0} → CarryCtxError → Op A
fail e s = err e

unfoldable pub require : Bool → CarryCtxError → Op (Unit {0})
require true e s = ok (tt, s)
require false e s = err e

unfoldable pub lift : {A : Type 0} → Result CarryCtxError A → Op A
lift (ok a) s = ok (a, s)
lift (err e) s = err e

unfoldable pub gets : {A : Type 0} → (Store → A) → Op A
gets f s = ok (f s, s)

infixl 5 ◌>>=◌ ◌>>◌
-- Opening this opens the five actions above too.
unfoldable pub ◌>>=◌ : {A B : Type 0} → Op A → (A → Op B) → Op B
unfolding return fail require lift gets
◌>>=◌ m f s = elim (m s) [ ok r ↦ f r.0 r.1 | err e ↦ err e ]

abbrev pub ◌>>◌ : {A B : Type 0} → Op A → Op B → Op B
m >> n = m >>= λ _. n
