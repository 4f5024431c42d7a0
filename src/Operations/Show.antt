-- ===== src/Operations/Show.antt =====
-- `list_tasks` and `show_task`, the use cases that only read.
pub mod Mirror
pub mod Listed
use carryctx.Base.{
  ℕ, String, Bool, true, false, ◌&&◌, ◌||◌, ◌==◌, not, Option, none, some, List, [], ◌∷◌, keep,
  opt_eq, leb, if◌then◌else◌, Result, ok, err,
}
use carryctx.Error.{CarryCtxError, validation_error}
use carryctx.Task
use carryctx.Task.{TaskStatus, planned}
use carryctx.Dependency.{DependencyKind, DependencyEdge}
use carryctx.Store.{
  Store, TaskRecord, Op, ◌>>=◌, return, gets, lift, status_eq, take, default_task_list_limit,
  find_by_id, list_all_for_project,
}
use carryctx.Operations.{resolve_task}

-- The filter of `list`, without the project.
pub record TaskFilter : Type 0 where
  pub status : Option TaskStatus
  pub owner_agent_id : Option String
  pub ready : Bool
  pub blocked : Bool
  pub mine : Option String

abbrev pub if_some : {A : Type 0} → (A → Bool) → Option A → Bool
if_some p none = true
if_some p (some a) = p a

unfoldable pub passes : TaskFilter → TaskRecord → Bool
passes filter t =
    if_some (status_eq t.status) filter.status
    && if_some (λ owner. opt_eq t.owner_agent_id (some owner)) filter.owner_agent_id
    && (not filter.ready || status_eq t.status planned || status_eq t.status Task.ready)
    && (not filter.blocked || status_eq t.status Task.blocked)
    && if_some (λ mine. opt_eq t.owner_agent_id (some mine)) filter.mine

abbrev pub max_i64 : ℕ
max_i64 = 9223372036854775807

-- The newest rows first, as the store has them; a limit that is no signed 64-bit number is refused.
unfoldable pub list_capped :
    TaskFilter → ℕ → List TaskRecord → Result CarryCtxError (List TaskRecord)
unfolding passes
list_capped filter limit tasks =
    if leb limit max_i64
    then ok (take limit (keep (passes filter) tasks))
    else err (validation_error "Task list limit is too large.")

abbrev pub or_default : Option ℕ → ℕ
or_default none = default_task_list_limit
or_default (some limit) = limit

unfoldable pub list_tasks : TaskFilter → Option ℕ → Store → Result CarryCtxError (List TaskRecord)
unfolding list_capped
list_tasks filter limit s = list_capped filter (or_default limit) s.tasks

pub record DependencySummaryEntry : Type 0 where
  pub id : String
  pub display_id : String
  pub title : String
  pub status : TaskStatus
  pub kind : DependencyKind

abbrev pub entry_of : DependencyKind → TaskRecord → DependencySummaryEntry
entry_of kind t = record {
  id = t.id;
  display_id = t.display_id;
  title = t.title;
  status = t.status;
  kind = kind;
}

abbrev pub push_entry :
    DependencyKind → Option TaskRecord → List DependencySummaryEntry → List DependencySummaryEntry
push_entry kind none entries = entries
push_entry kind (some t) entries = entry_of kind t ∷ entries

-- The tasks at one end of the edges; an edge to a task that is gone is passed over.
unfoldable pub related :
    (DependencyEdge → String) → List TaskRecord → List DependencyEdge → List DependencySummaryEntry
unfolding find_by_id
related end tasks [] = []
related end tasks (e ∷ edges) =
    push_entry e.kind (find_by_id tasks (end e)) (related end tasks edges)

unfoldable pub list_for_task : Store → String → List DependencyEdge
unfolding list_all_for_project
list_for_task s task_id = keep (λ e. e.task_id == task_id) (list_all_for_project s)

abbrev pub incoming : Store → String → List DependencyEdge
incoming s task_id = keep (λ e. e.prerequisite_id == task_id) (list_all_for_project s)

pub record TaskWithDependencies : Type 0 where
  pub task : TaskRecord
  pub depends_on : List DependencySummaryEntry
  pub blocks : List DependencySummaryEntry

abbrev pub summary : TaskRecord → Store → TaskWithDependencies
summary task s = record {
  task = task;
  depends_on = related (λ e. e.prerequisite_id) s.tasks (list_for_task s task.id);
  blocks = related (λ e. e.task_id) s.tasks (incoming s task.id);
}

unfoldable pub show_task : String → Op TaskWithDependencies
unfolding ◌>>=◌ resolve_task related list_for_task
show_task ref = do task ← resolve_task ref; gets (summary task)
