-- ===== src/Operations/Conserve/UseCases.antt =====
-- The task use cases conserve the audit log, the set of tasks and a graph without cycles.
use carryctx.Base.{String, Bool, Option, none, some, List, [], ◌∷◌, not, ◌&&◌, is_some, is_empty}
use carryctx.Task.{TaskStatus, planned, ready, TransitionAction}
use carryctx.Agent.{Agent}
use carryctx.Dependency.{DependencyKind}
use carryctx.Cleanup.{CleanupRequest}
use carryctx.Store.{
  TaskRecord, WorktreeRow, ◌>>=◌, return, status_eq, list_incomplete_strong_dependencies,
  update_status,
}
use carryctx.Store.Steps.{Steps, Steps-when, Steps-return, Steps-bind, steps_rules}
use carryctx.Operations.{Env}
use carryctx.Operations.Claim.{
  PolicyConfig, check_role, check_single, single_violation, claim_steps, or_no_agent, claim_task,
}
use carryctx.Operations.Transition.{
  Request, WorktreeCleanupConfig, start_role, start_policy, next_owner, reuse_or_create,
  enqueue_cleanup, maybe_cleanup, unblock_dependent, promotable, promote_one, promote_found,
  promote_id, promote_all, promote_dependents, write_status, transition_existing, transition_task,
}
use carryctx.Operations.Depend.{
  demote, add_between, add_dependency, release_planned, remove_between, remove_dependency,
}
use carryctx.Operations.Edit.{
  Edit, or_no_actor, correct_as, authorize, write_edit, edit_existing, edit_task,
}
use carryctx.Operations.Conserve.{Conserves, Conserves-IsOrder}
use carryctx.Operations.Conserve.Rules.{
  update_status-Steps, update_status_if_ready_unowned-Steps, append_event-Steps,
  create_cleanup-Steps, resolve_task-Steps, resolve_agent_id-Steps, remove_edge-Steps, link-Steps,
  edit_row-Steps,
}

ruleset conserve_rules = (
  steps_rules, Conserves-IsOrder, update_status-Steps, update_status_if_ready_unowned-Steps,
  append_event-Steps, create_cleanup-Steps, resolve_task-Steps, resolve_agent_id-Steps,
  remove_edge-Steps, link-Steps,
)

or_no_agent-Steps : (id : String) (found : Option Agent) → Steps Conserves (or_no_agent id found)
unfolding or_no_agent
or_no_agent-Steps id none = search conserve_rules
or_no_agent-Steps id (some a) = search conserve_rules

check_role-Steps :
    (policy : PolicyConfig) (required : Option String) (agent : Agent)
    → Steps Conserves (check_role policy required agent)
unfolding check_role
check_role-Steps policy required agent = search conserve_rules

single_violation-Steps :
    (name : String) (found : Option TaskRecord) → Steps Conserves (single_violation name found)
unfolding single_violation
single_violation-Steps name none = search conserve_rules
single_violation-Steps name (some t) = search conserve_rules

check_single-Steps :
    (policy : PolicyConfig) (id name : String) (existing : TaskRecord)
    → Steps Conserves (check_single policy id name existing)
unfolding check_single
check_single-Steps policy id name existing = search (conserve_rules, single_violation-Steps) depth 9

claim_steps-Steps :
    (policy : PolicyConfig) (actor : String) (existing : TaskRecord) (agent : Agent) (env : Env)
    → Steps Conserves (claim_steps policy actor existing agent env)
unfolding claim_steps
claim_steps-Steps policy actor existing agent env =
    search (conserve_rules, check_role-Steps, check_single-Steps) depth 20

pub claim_task-Steps :
    (ref actor_ref : String) (policy : PolicyConfig) (env : Env)
    → Steps Conserves (claim_task ref actor_ref policy env)
unfolding claim_task
claim_task-Steps ref actor_ref policy env =
    search (conserve_rules, claim_steps-Steps, or_no_agent-Steps) depth 20

start_role-Steps :
    (policy : PolicyConfig) (existing : TaskRecord) (agent : Option Agent)
    → Steps Conserves (start_role policy existing agent)
unfolding start_role
start_role-Steps policy existing none = search conserve_rules
start_role-Steps policy existing (some a) = search (conserve_rules, check_role-Steps)

start_policy-Steps :
    (policy : PolicyConfig) (existing : TaskRecord) (agent : Option String)
    → Steps Conserves (start_policy policy existing agent)
unfolding start_policy
start_policy-Steps policy existing none = search conserve_rules
start_policy-Steps policy existing (some id) =
    search (conserve_rules, start_role-Steps, check_single-Steps) depth 12

next_owner-Steps :
    (action : TransitionAction) (clears : Bool) (actor : Option String) (existing : TaskRecord)
    → Steps Conserves (next_owner action clears actor existing)
unfolding next_owner
next_owner-Steps action clears none existing = search conserve_rules
next_owner-Steps action clears (some a) existing = search conserve_rules

reuse_or_create-Steps :
    (env : Env) (updated : TaskRecord) (actor : Option String) (w : WorktreeRow)
    (old : Option CleanupRequest)
    → Steps Conserves (reuse_or_create env updated actor w old)
unfolding reuse_or_create
reuse_or_create-Steps env updated actor w none = search conserve_rules depth 16
reuse_or_create-Steps env updated actor w (some r) = search conserve_rules

enqueue_cleanup-Steps :
    (env : Env) (updated : TaskRecord) (actor : Option String) (w : Option WorktreeRow)
    → Steps Conserves (enqueue_cleanup env updated actor w)
unfolding enqueue_cleanup
enqueue_cleanup-Steps env updated actor none = search conserve_rules
enqueue_cleanup-Steps env updated actor (some w) =
    search (conserve_rules, reuse_or_create-Steps) depth 9

maybe_cleanup-Steps :
    (config : WorktreeCleanupConfig) (env : Env) (updated : TaskRecord) (actor : Option String)
    → Steps Conserves (maybe_cleanup config env updated actor)
unfolding maybe_cleanup
maybe_cleanup-Steps config env updated actor =
    search (conserve_rules, enqueue_cleanup-Steps) depth 12

unblock_dependent-Steps :
    (env : Env) (actor : Option String) (by : String) (dependent : TaskRecord)
    → Steps Conserves (unblock_dependent env actor by dependent)
unfolding unblock_dependent
unblock_dependent-Steps env actor by dependent = search conserve_rules

promote_one-Steps :
    (env : Env) (actor : Option String) (by : String) (dependent : TaskRecord)
    → Steps Conserves (promote_one env actor by dependent)
unfolding promote_one ◌>>=◌
promote_one-Steps env actor by dependent =
    Steps-when Conserves-IsOrder (λ s. promotable s dependent)
      (unblock_dependent env actor by dependent) (return tt)
      (unblock_dependent-Steps env actor by dependent) (Steps-return Conserves-IsOrder tt)

promote_found-Steps :
    (env : Env) (actor : Option String) (by : String) (found : Option TaskRecord)
    → Steps Conserves (promote_found env actor by found)
unfolding promote_found
promote_found-Steps env actor by none = search conserve_rules
promote_found-Steps env actor by (some t) = search promote_one-Steps

promote_id-Steps :
    (env : Env) (actor : Option String) (by id : String)
    → Steps Conserves (promote_id env actor by id)
unfolding promote_id
promote_id-Steps env actor by id = search (conserve_rules, promote_found-Steps) depth 9

promote_all-Steps :
    (env : Env) (actor : Option String) (by : String) (ids : List String)
    → Steps Conserves (promote_all env actor by ids)
unfolding promote_all
promote_all-Steps env actor by [] = search conserve_rules
promote_all-Steps env actor by (id ∷ ids) =
    Steps-bind Conserves-IsOrder (promote_id env actor by id) (λ _. promote_all env actor by ids)
      (promote_id-Steps env actor by id) (λ _. promote_all-Steps env actor by ids)

promote_dependents-Steps :
    (env : Env) (actor : Option String) (updated : TaskRecord)
    → Steps Conserves (promote_dependents env actor updated)
unfolding promote_dependents
promote_dependents-Steps env actor updated = search (conserve_rules, promote_all-Steps) depth 9

write_status-Steps :
    (req : Request) (env : Env) (actor : Option String) (existing : TaskRecord)
    (outcome : TaskStatus × Bool × List String)
    → Steps Conserves (write_status req env actor existing outcome)
unfolding write_status
write_status-Steps req env actor existing outcome =
    search (conserve_rules, next_owner-Steps) depth 16

transition_existing-Steps :
    (req : Request) (env : Env) (actor : Option String) (existing : TaskRecord)
    → Steps Conserves (transition_existing req env actor existing)
unfolding transition_existing
transition_existing-Steps req env actor existing =
    search
      (
        conserve_rules, start_policy-Steps, write_status-Steps, maybe_cleanup-Steps,
        promote_dependents-Steps,
      )
      depth 30

pub transition_task-Steps :
    (ref : String) (req : Request) (actor_ref : Option String) (env : Env)
    → Steps Conserves (transition_task ref req actor_ref env)
unfolding transition_task
transition_task-Steps ref req actor_ref env =
    search (conserve_rules, transition_existing-Steps) depth 12

demote-Steps :
    (env : Env) (kind : DependencyKind) (task prerequisite : TaskRecord)
    → Steps Conserves (demote env kind task prerequisite)
unfolding demote
demote-Steps env kind task prerequisite = search conserve_rules

add_between-Steps :
    (env : Env) (actor : Option String) (kind : DependencyKind) (task prerequisite : TaskRecord)
    → Steps Conserves (add_between env actor kind task prerequisite)
unfolding add_between
add_between-Steps env actor kind task prerequisite = search (conserve_rules, demote-Steps) depth 16

pub add_dependency-Steps :
    (task_ref prerequisite_ref : String) (kind : DependencyKind) (actor_ref : Option String)
    (env : Env)
    → Steps Conserves (add_dependency task_ref prerequisite_ref kind actor_ref env)
unfolding add_dependency
add_dependency-Steps task_ref prerequisite_ref kind actor_ref env =
    search (conserve_rules, add_between-Steps) depth 16

release_planned-Steps : (env : Env) (task : TaskRecord) → Steps Conserves (release_planned env task)
unfolding release_planned ◌>>=◌
release_planned-Steps env task =
    Steps-when Conserves-IsOrder
      (λ s.
        status_eq task.status planned
        && not (is_some task.owner_agent_id)
        && is_empty (list_incomplete_strong_dependencies s task.id))
      (update_status task.id ready none env.now) (return task)
      (update_status-Steps task.id ready none env.now) (Steps-return Conserves-IsOrder task)

remove_between-Steps :
    (env : Env) (actor : Option String) (task prerequisite : TaskRecord)
    → Steps Conserves (remove_between env actor task prerequisite)
unfolding remove_between
remove_between-Steps env actor task prerequisite =
    search (conserve_rules, release_planned-Steps) depth 16

pub remove_dependency-Steps :
    (task_ref prerequisite_ref : String) (actor_ref : Option String) (env : Env)
    → Steps Conserves (remove_dependency task_ref prerequisite_ref actor_ref env)
unfolding remove_dependency
remove_dependency-Steps task_ref prerequisite_ref actor_ref env =
    search (conserve_rules, remove_between-Steps) depth 16

or_no_actor-Steps : (actor : Option String) → Steps Conserves (or_no_actor actor)
unfolding or_no_actor
or_no_actor-Steps none = search conserve_rules
or_no_actor-Steps (some a) = search conserve_rules

correct_as-Steps :
    (existing : TaskRecord) (actor : Option String) → Steps Conserves (correct_as existing actor)
unfolding correct_as
correct_as-Steps existing actor = search (conserve_rules, or_no_actor-Steps) depth 16

authorize-Steps :
    (existing : TaskRecord) (actor : Option String) → Steps Conserves (authorize existing actor)
unfolding authorize
authorize-Steps existing actor = search (conserve_rules, correct_as-Steps) depth 6

write_edit-Steps :
    (edit : Edit) (env : Env) (existing : TaskRecord) (actor : Option String)
    → Steps Conserves (write_edit edit env existing actor)
unfolding write_edit
write_edit-Steps edit env existing actor = search (conserve_rules, edit_row-Steps) depth 9

edit_existing-Steps :
    (edit : Edit) (env : Env) (actor : Option String) (existing : TaskRecord)
    → Steps Conserves (edit_existing edit env actor existing)
unfolding edit_existing
edit_existing-Steps edit env actor existing =
    search (conserve_rules, authorize-Steps, write_edit-Steps) depth 12

pub edit_task-Steps :
    (ref : String) (edit : Edit) (actor_ref : Option String) (env : Env)
    → Steps Conserves (edit_task ref edit actor_ref env)
unfolding edit_task
edit_task-Steps ref edit actor_ref env = search (conserve_rules, edit_existing-Steps) depth 16
