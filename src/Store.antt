-- ===== src/Store.antt =====
-- The rows of one project in state.sqlite, and the statements of crates/carryctx-sqlite/src/repos.rs
-- that the task operations run. A repository method is an action that returns its result with the
-- new rows, or an error; an error stands for the whole transaction, which is rolled back then
-- (`UnitOfWork`). Statements fail only by the constraints that are written out. `tasks` holds the
-- newest row first, the order of `ORDER BY created_at DESC`.
pub mod State
pub mod Counts
pub mod Codec
pub mod Rows
pub mod Steps
pub mod Same
use carryctx.Base.{
  ℕ, zero, suc, ◌+◌, String, Bool, true, false, not, ◌&&◌, ◌||◌, Option, none, some, List, [], ◌∷◌,
  ◌++◌, map, ◌==◌, ◌≡◌, if◌then◌else◌, opt_eq, is_some, any, find, keep, is_empty, Result, ok, err,
  length, trim, ◌-◌, ◌%◌, ◌^◌,
}
use carryctx.Error.{
  CarryCtxError, resource_not_found, state_conflict, database_error, task_already_claimed,
  invalid_task_transition,
}
use carryctx.Task.{
  TaskStatus, TaskStatus-discrete, ready, in_progress, completed, cancelled, TaskPriority,
  debug_status, prerequisite_settled,
}
use carryctx.Agent.{Agent}
use carryctx.Dependency.{DependencyEdge, DependencyKind, DependencyKind-discrete, strong}
use carryctx.Session
use carryctx.Session.{SessionState}
use carryctx.Progress
use carryctx.Progress.{ProgressStatus}
use carryctx.Cleanup.{CleanupRequest, CleanupReason, is_active, pending, concat}
use mathlib.Core.Bool.{decide}
pub use carryctx.Store.State.{
  TaskRecord, DependencyRow, TeamRow, Payload, created, edited, claimed, transitioned,
  cleanup_requested, unblocked, dependency_added, dependency_removed, Event, SessionRow,
  ProgressRow, WorktreeRow, Tombstone, Store, Op, ◌>>◌,
}
unfoldable pub use carryctx.Store.State.{return, fail, require, lift, gets, ◌>>=◌}

abbrev pub status_eq : TaskStatus → TaskStatus → Bool
status_eq a b = decide (TaskStatus-discrete a b)

unfoldable pub find_by_id : List TaskRecord → String → Option TaskRecord
find_by_id tasks id = find (λ t. t.id == id) tasks

unfoldable pub find_by_display_id : List TaskRecord → String → Option TaskRecord
find_by_display_id tasks display_id = find (λ t. t.display_id == display_id) tasks

-- `UPDATE tasks SET … WHERE …`
unfoldable pub update_where :
    (TaskRecord → Bool) → (TaskRecord → TaskRecord) → List TaskRecord → List TaskRecord
update_where p f [] = []
update_where p f (t ∷ tasks) = (if p t then f t else t) ∷ update_where p f tasks

-- `COALESCE(a, b)`
abbrev pub coalesce : Option String → String → Option String
coalesce none b = some b
coalesce (some a) b = some a

unfoldable pub with_status : TaskStatus → Option String → String → TaskRecord → TaskRecord
with_status status owner now t = record t {
  status = status;
  owner_agent_id = owner;
  updated_at = now;
  started_at = if status_eq status in_progress then coalesce t.started_at now else t.started_at;
  completed_at = if status_eq status completed then some now else none;
}

unfoldable pub or_not_found : String → Option TaskRecord → Op TaskRecord
or_not_found id none = fail (resource_not_found id)
or_not_found id (some t) = return t

unfoldable pub update_status : String → TaskStatus → Option String → String → Op TaskRecord
unfolding find_by_id or_not_found ◌>>=◌
update_status id status owner now s =
    let tasks = update_where (λ t. t.id == id) (with_status status owner now) s.tasks in
    or_not_found id (find_by_id tasks id) (record s { tasks = tasks })

-- The test of the guarded UPDATE that arbitrates claims.
unfoldable pub claimable : String → TaskRecord → Bool
claimable id t = t.id == id && status_eq t.status ready && not (is_some t.owner_agent_id)

unfoldable pub claimed_row : String → String → TaskRecord → TaskRecord
claimed_row owner now t = record t {
  status = in_progress;
  owner_agent_id = some owner;
  updated_at = now;
  started_at = coalesce t.started_at now;
  completed_at = none;
}

unfoldable pub lost_claim : String → Option TaskRecord → Op TaskRecord
lost_claim id none = fail (resource_not_found id)
lost_claim id (some t) = elim t.owner_agent_id [
  | some owner ↦ fail (task_already_claimed t.display_id owner)
  | none ↦ fail (invalid_task_transition (debug_status t.status) "claim")
]

unfoldable pub update_status_if_ready_unowned : String → String → String → Op TaskRecord
unfolding find_by_id or_not_found lost_claim claimable claimed_row ◌>>=◌
update_status_if_ready_unowned id owner now s =
    let tasks = update_where (claimable id) (claimed_row owner now) s.tasks in
    if any (claimable id) s.tasks
    then or_not_found id (find_by_id tasks id) (record s { tasks = tasks })
    else lost_claim id (find_by_id s.tasks id) s

abbrev pub default_task_list_limit : ℕ
default_task_list_limit = 200

abbrev pub take {ℓ} : {A : Type ℓ} → ℕ → List A → List A
take zero xs = []
take (suc n) [] = []
take (suc n) (x ∷ xs) = x ∷ take n xs

-- `list` with the filter of the single-active-task policy: in progress, and owned by the agent.
unfoldable pub list_in_progress : String → List TaskRecord → List TaskRecord
list_in_progress owner tasks =
    take default_task_list_limit
      (keep (λ t. status_eq t.status in_progress && opt_eq t.owner_agent_id (some owner)) tasks)

unfoldable pub has_open_progress : Store → String → Bool
has_open_progress s task_id =
    any (λ p. p.task_id == task_id && elim p.status [ Progress.open_item ↦ true | _ ↦ false ])
      s.progress_items

unfoldable pub has_active_session : Store → String → Bool
has_active_session s task_id =
    any (λ x. opt_eq x.task_id (some task_id) && elim x.state [ Session.active ↦ true | _ ↦ false ])
      s.sessions

-- The rows of the join of dependencies and prerequisites whose status is not settled.
abbrev pub unsettled : List TaskRecord → DependencyEdge → Bool
unsettled tasks e =
    any (λ t. t.id == e.prerequisite_id && not (prerequisite_settled t.status)) tasks

abbrev pub blocks_task : List TaskRecord → String → DependencyRow → Bool
blocks_task tasks task_id row =
    row.edge.task_id == task_id
    && decide (DependencyKind-discrete row.edge.kind strong)
    && unsettled tasks row.edge

unfoldable pub list_incomplete_strong_dependencies : Store → String → List String
list_incomplete_strong_dependencies s task_id =
    map (λ r. r.edge.prerequisite_id) (keep (blocks_task s.tasks task_id) s.dependencies)

unfoldable pub list_all_for_project : Store → List DependencyEdge
list_all_for_project s = map (λ r. r.edge) s.dependencies

-- The unique index on (task_id, prerequisite_task_id), then the foreign keys of the two tasks.
unfoldable pub add_edge : String → DependencyEdge → Op (Unit {0})
unfolding find_by_id
add_edge id e s =
    if any (λ r. r.edge.task_id == e.task_id && r.edge.prerequisite_id == e.prerequisite_id)
      s.dependencies
    then err (state_conflict "This dependency already exists")
    else if is_some (find_by_id s.tasks e.task_id) && is_some (find_by_id s.tasks e.prerequisite_id)
    then ok (tt, record s { dependencies = s.dependencies ++ record { id = id; edge = e } ∷ [] })
    else err (resource_not_found "Task or prerequisite not found")

abbrev pub is_edge : String → String → DependencyRow → Bool
is_edge task_id prerequisite_id r =
    r.edge.task_id == task_id && r.edge.prerequisite_id == prerequisite_id

-- `ON CONFLICT DO NOTHING`: the first tombstone of a row stays.
unfoldable pub record_tombstone : Tombstone → List Tombstone → List Tombstone
record_tombstone t ts =
    if any (λ x. x.table_name == t.table_name && x.row_id == t.row_id) ts then ts else ts ++ t ∷ []

removed_edge : String → String → String → Option DependencyRow → Op (Unit {0})
removed_edge task_id prerequisite_id now none s = err (resource_not_found "Dependency not found")
removed_edge task_id prerequisite_id now (some row) s = ok (
  tt,
  record s {
    dependencies = keep (λ r. not (is_edge task_id prerequisite_id r)) s.dependencies;
    tombstones =
        record_tombstone
          (record {
            table_name = "task_dependencies";
            row_id = row.id;
            deleted_at = now;
            reason = some "task.dependency_removed";
          })
          s.tombstones;
  },
)

unfoldable pub remove_edge : String → String → String → Op (Unit {0})
unfolding removed_edge record_tombstone
remove_edge task_id prerequisite_id now s =
    removed_edge task_id prerequisite_id now (find (is_edge task_id prerequisite_id) s.dependencies)
      s

unfoldable pub agent_by_id : Store → String → Option Agent
agent_by_id s id = find (λ a. a.id == id) s.agents

unfoldable pub agent_by_name : Store → String → Option Agent
agent_by_name s name = find (λ a. a.name == name) s.agents

-- `events.actor_agent_id` references `agents(id)`, with foreign keys on.
unfoldable pub append_event : Event → Op (Unit {0})
unfolding agent_by_id
append_event e s = elim e.actor_agent_id [
  | none ↦ ok (tt, record s { events = s.events ++ e ∷ [] })
  | some actor ↦
      if is_some (agent_by_id s actor)
      then ok (tt, record s { events = s.events ++ e ∷ [] })
      else err (resource_not_found (trim actor))
]

unfoldable pub worktree_by_task : Store → String → Option WorktreeRow
worktree_by_task s task_id = find (λ w. opt_eq w.task_id (some task_id)) s.worktrees

-- The unique index of active requests for one worktree.
unfoldable pub create_cleanup : CleanupRequest → Op (Unit {0})
create_cleanup r s =
    if any (λ x. is_active x.state && is_some x.worktree_id && opt_eq x.worktree_id r.worktree_id)
      s.cleanup_requests
    then err (state_conflict "An active cleanup request already exists for this worktree.")
    else ok (tt, record s { cleanup_requests = r ∷ s.cleanup_requests })

-- `INSERT … VALUES (…, 2) ON CONFLICT DO UPDATE SET next_value = next_value + 1`
unfoldable pub bump : String → List (String × ℕ) → List (String × ℕ)
bump kind [] = (kind, 2) ∷ []
bump kind ((k, n) ∷ sequences) =
    let rest = bump kind sequences in if k == kind then (k, n + 1) ∷ sequences else (k, n) ∷ rest

-- `next_value`, which is 1 where the sequence is missing
unfoldable pub next_value : String → List (String × ℕ) → ℕ
next_value kind [] = 1
next_value kind ((k, n) ∷ sequences) =
    let rest = next_value kind sequences in if k == kind then n else rest

-- The value read back is one less, and is cut to 32 bits.
unfoldable pub allocate_display_id : String → Op ℕ
unfolding concat bump next_value
allocate_display_id prefix s =
    let sequences = bump (concat "display_id_" prefix) s.sequences in
    ok (
      (next_value (concat "display_id_" prefix) sequences - 1) % 2 ^ 32,
      record s { sequences = sequences },
    )

-- The primary key and the unique index on (project_id, display_id); the caller has resolved the rows
-- that the foreign keys name.
unfoldable pub insert_task : TaskRecord → Op TaskRecord
insert_task t s =
    if any (λ r. r.id == t.id || r.display_id == t.display_id) s.tasks
    then err (database_error "SQLite error: UNIQUE constraint failed")
    else ok (t, record s { tasks = t ∷ s.tasks })

unfoldable pub team_by_id : Store → String → Option TeamRow
team_by_id s id = find (λ t. t.id == id) s.teams

unfoldable pub team_by_name : Store → String → Option TeamRow
team_by_name s name = find (λ t. t.name == name) s.teams

unfoldable pub edited_row :
    String → TaskPriority → Option String → Option String → String → TaskRecord → TaskRecord
edited_row title priority description required_role now t = record t {
  title = title;
  priority = priority;
  description = description;
  required_role = required_role;
  updated_at = now;
}

unfoldable pub edit_row :
    String → String → TaskPriority → Option String → Option String → String → Op TaskRecord
unfolding find_by_id or_not_found ◌>>=◌
edit_row id title priority description required_role now s =
    let tasks =
      update_where (λ t. t.id == id) (edited_row title priority description required_role now)
        s.tasks in
    or_not_found id (find_by_id tasks id) (record s { tasks = tasks })
