-- ===== src/Operations/Create.antt =====
-- `create_task` of crates/carryctx-cli/src/application/task.rs.
pub mod Edges
pub mod Grows
pub mod Created
pub mod Born
use carryctx.Base.{
  ℕ, String, Bool, true, false, not, ◌&&◌, ◌||◌, Option, none, some, List, [], ◌∷◌, ◌==◌,
  if◌then◌else◌, is_empty, keep, ok, err, trim, Result,
}
use carryctx.Error.{
  CarryCtxError, validation_error, state_conflict, dependency_cycle, resource_not_found,
}
use carryctx.Task.{
  TaskStatus, planned, ready, TaskPriority, normal, prerequisite_settled, initial_status,
  validate_title, validate_description,
}
use carryctx.Dependency.{DependencyEdge, strong, validate_dependency_edge}
use carryctx.Ids.{validate_task_prefix, format_display_id}
use carryctx.Store.{
  Store, TaskRecord, TeamRow, Op, ◌>>=◌, ◌>>◌, return, fail, require, gets, lift, status_eq,
  list_all_for_project, allocate_display_id, insert_task, append_event, add_edge, team_by_id,
  team_by_name, created, dependency_added,
}
use carryctx.Operations.{Env, or_else, resolve_task, resolve_agent_id}
use carryctx.Operations.Depend.{cycle_error}

pub record Creation : Type 0 where
  pub title : String
  pub description : Option String
  pub prefix : Option String
  pub status : Option TaskStatus
  pub priority : Option TaskPriority
  pub owner_agent_id : Option String
  pub required_role : Option String
  pub team_id : Option String
  pub depends_on : List String
  pub actor_agent_id : Option String

-- `map(str::trim).filter(|s| !s.is_empty())`
abbrev pub trimmed : Option String → Option String
trimmed none = none
trimmed (some s) = if trim s == "" then none else some (trim s)

abbrev pub map_trim : Option String → Option String
map_trim none = none
map_trim (some s) = some (trim s)

abbrev validate_given :
    (String → Result CarryCtxError (Unit {0})) → Option String → Result CarryCtxError (Unit {0})
validate_given check none = ok tt
validate_given check (some s) = check s

abbrev pub both :
    Result CarryCtxError (Unit {0})
    → Result CarryCtxError (Unit {0})
    → Result CarryCtxError (Unit {0})
both (err e) second = err e
both (ok _) second = second

unfoldable pub validate_text_lengths :
    Option String → Option String → Result CarryCtxError (Unit {0})
unfolding validate_title validate_description
validate_text_lengths title description =
    both (validate_given validate_title (map_trim title))
      (validate_given validate_description (trimmed description))

unfoldable pub check_prefix : Option String → Result CarryCtxError (Unit {0})
unfolding validate_task_prefix
check_prefix none = ok tt
check_prefix (some prefix) = elim (validate_task_prefix prefix) [
  | ok _ ↦ ok tt
  | err message ↦ err (validation_error message)
]

unfoldable pub resolve_all : List String → Op (List TaskRecord)
resolve_all [] = return []
resolve_all (ref ∷ refs) = do
  found ← resolve_task ref
  others ← resolve_all refs
  return (found ∷ others)

-- Each edge is tested against the edges that are stored.
unfoldable pub check_edges : List DependencyEdge → String → List TaskRecord → Op (Unit {0})
check_edges edges task_id [] = return tt
check_edges edges task_id (p ∷ ps) =
    cycle_error (validate_dependency_edge edges task_id p.id) >> check_edges edges task_id ps

unfoldable pub prepare : Creation → String → Op (List TaskRecord)
prepare input task_id = do
  require (not (trim input.title == "")) (validation_error "Task title cannot be empty.")
  lift (validate_text_lengths (some input.title) input.description)
  lift (check_prefix input.prefix)
  prerequisites ← resolve_all input.depends_on
  edges ← gets list_all_for_project
  check_edges edges task_id prerequisites
  return prerequisites

abbrev is_status : TaskStatus → Option TaskStatus → Bool
is_status status none = false
is_status status (some s) = status_eq s status

-- Only planned and ready are valid statuses at birth.
abbrev can_be_born : Option TaskStatus → Bool
can_be_born none = true
can_be_born (some s) = status_eq s planned || status_eq s ready

abbrev pub or_default {ℓ} : {A : Type ℓ} → A → Option A → A
or_default a none = a
or_default a (some b) = b

unfoldable pub resolve_optional : Option String → Op (Option String)
resolve_optional none = return none
resolve_optional (some ref) =
    if trim ref == "" then return none else (resolve_agent_id ref >>= λ id. return (some id))

unfoldable pub or_no_team : String → Option TeamRow → Op (Option String)
or_no_team ref none = fail (resource_not_found ref)
or_no_team ref (some team) = return (some team.id)

unfoldable pub resolve_team : Option String → Op (Option String)
resolve_team none = return none
resolve_team (some ref) =
    if trim ref == ""
    then return none
    else (gets (λ s. or_else (team_by_id s ref) (team_by_name s ref)) >>= or_no_team ref)

abbrev pub all_settled : List TaskRecord → Bool
all_settled prerequisites = is_empty (keep (λ p. not (prerequisite_settled p.status)) prerequisites)

-- The row of the task.
abbrev pub born : Creation → Env → String → Bool → Option String → Option String → TaskRecord
born input env display_id settled owner team = record {
  id = env.new_id;
  display_id = display_id;
  title = trim input.title;
  description = map_trim input.description;
  status = or_default (initial_status settled false) input.status;
  priority = or_default normal input.priority;
  owner_agent_id = owner;
  parent_task_id = none;
  created_at = env.now;
  updated_at = env.now;
  started_at = none;
  completed_at = none;
  required_role = trimmed input.required_role;
  team_id = team;
}

-- `edge_id` has the id that is drawn for the edge to a prerequisite.
module _ (input : Creation) (env : Env) (edge_id : String → String) where
  unfoldable pub link_new : Option String → TaskRecord → TaskRecord → Op (Unit {0})
  link_new actor task prerequisite = do
    add_edge (edge_id prerequisite.id)
        (record { task_id = task.id; prerequisite_id = prerequisite.id; kind = strong })
    append_event (record {
      event_type = "task.dependency_added";
      actor_agent_id = actor;
      task_id = task.id;
      payload = dependency_added task.id prerequisite.id strong;
      occurred_at = env.now;
    })

  unfoldable pub link_all : Option String → TaskRecord → List TaskRecord → Op (Unit {0})
  link_all actor task [] = return tt
  link_all actor task (p ∷ ps) = link_new actor task p >> link_all actor task ps

  -- The row and its event, then the edges.
  unfoldable pub write_task :
      String → Bool → Option String → Option String → Option String → Op TaskRecord
  write_task display_id settled owner actor team = do
    task ← insert_task (born input env display_id settled owner team)
    append_event (record {
      event_type = "task.created";
      actor_agent_id = actor;
      task_id = task.id;
      payload = created task;
      occurred_at = env.now;
    })
    return task

  unfoldable pub finish_create : List TaskRecord → Op TaskRecord
  finish_create prerequisites = do
    require (all_settled prerequisites || not (is_status ready input.status))
        (state_conflict "Cannot create task in 'ready' status with incomplete prerequisites.")
    require (can_be_born input.status)
        (validation_error "Initial status must be 'planned' or 'ready'.")
    seq ← allocate_display_id (or_default "CTX" input.prefix)
    owner ← resolve_optional input.owner_agent_id
    actor ← resolve_optional input.actor_agent_id
    team ← resolve_team input.team_id
    task ←
        write_task (format_display_id (or_default "CTX" input.prefix) seq)
          (all_settled prerequisites) owner actor team
    link_all actor task prerequisites
    return task

  unfoldable pub create_task : Op TaskRecord
  create_task = do prerequisites ← prepare input env.new_id; finish_create prerequisites
