-- ===== src/Operations/Depend.antt =====
-- `add_dependency` and `remove_dependency` of crates/carryctx-cli/src/application/task.rs.
use carryctx.Base.{
  String, not, ◌&&◌, Option, none, if◌then◌else◌, is_some, is_empty, ok, err, Result,
}
use carryctx.Error.{dependency_cycle}
use carryctx.Task.{planned, ready, prerequisite_settled}
use carryctx.Dependency.{
  DependencyEdge, DependencyKind, DependencyKind-discrete, strong, validate_dependency_edge,
}
use carryctx.Store.{
  TaskRecord, Op, ◌>>=◌, ◌>>◌, return, fail, gets, status_eq, list_all_for_project,
  list_incomplete_strong_dependencies, update_status, append_event, add_edge, remove_edge,
  dependency_added, dependency_removed,
}
use carryctx.Operations.{Env, resolve_task, canonical_actor_id}
use mathlib.Core.Bool.{decide}

-- Every message of the validation becomes DEPENDENCY_CYCLE.
unfoldable pub cycle_error : Result String (Unit {0}) → Op (Unit {0})
cycle_error (ok u) = return tt
cycle_error (err message) = fail dependency_cycle

-- A ready, unowned task with a new unsettled strong prerequisite goes back to planned.
unfoldable pub demote : Env → DependencyKind → TaskRecord → TaskRecord → Op TaskRecord
demote env kind task prerequisite =
    if decide (DependencyKind-discrete kind strong)
      && not (prerequisite_settled prerequisite.status)
      && status_eq task.status ready
      && not (is_some task.owner_agent_id)
    then update_status task.id planned none env.now
    else return task

-- The cycle test on the stored edges, then the insert.
unfoldable pub link : Env → DependencyEdge → Op (Unit {0})
link env e = do
  edges ← gets list_all_for_project
  cycle_error (validate_dependency_edge edges e.task_id e.prerequisite_id)
  add_edge env.new_id e

unfoldable pub add_between :
    Env → Option String → DependencyKind → TaskRecord → TaskRecord → Op TaskRecord
add_between env actor kind task prerequisite = do
  link env (record { task_id = task.id; prerequisite_id = prerequisite.id; kind = kind })
  updated ← demote env kind task prerequisite
  append_event (record {
    event_type = "task.dependency_added";
    actor_agent_id = actor;
    task_id = task.id;
    payload = dependency_added task.id prerequisite.id kind;
    occurred_at = env.now;
  })
  return updated

unfoldable pub add_dependency :
    String → String → DependencyKind → Option String → Env → Op TaskRecord
add_dependency task_ref prerequisite_ref kind actor_ref env = do
  actor ← gets (λ s. canonical_actor_id s actor_ref)
  task ← resolve_task task_ref
  prerequisite ← resolve_task prerequisite_ref
  add_between env actor kind task prerequisite

-- A planned, unowned task with nothing left unsettled goes on to ready.
unfoldable pub release_planned : Env → TaskRecord → Op TaskRecord
release_planned env task s =
    if status_eq task.status planned
      && not (is_some task.owner_agent_id)
      && is_empty (list_incomplete_strong_dependencies s task.id)
    then update_status task.id ready none env.now s
    else ok (task, s)

unfoldable pub remove_between : Env → Option String → TaskRecord → TaskRecord → Op TaskRecord
remove_between env actor task prerequisite = do
  remove_edge task.id prerequisite.id env.now
  updated ← release_planned env task
  append_event (record {
    event_type = "task.dependency_removed";
    actor_agent_id = actor;
    task_id = task.id;
    payload = dependency_removed task.id prerequisite.id;
    occurred_at = env.now;
  })
  return updated

unfoldable pub remove_dependency : String → String → Option String → Env → Op TaskRecord
remove_dependency task_ref prerequisite_ref actor_ref env = do
  actor ← gets (λ s. canonical_actor_id s actor_ref)
  task ← resolve_task task_ref
  prerequisite ← resolve_task prerequisite_ref
  remove_between env actor task prerequisite
