-- ===== src/Operations/Claim.antt =====
-- `claim_task` of crates/carryctx-cli/src/application/task.rs, with the two policies of
-- `PolicyConfig` in crates/carryctx-core/src/domain/config.rs.
pub mod Exclusive
use carryctx.Base.{
  String, Bool, true, false, not, ◌&&◌, ◌||◌, Option, none, some, List, [], ◌∷◌, ◌==◌,
  if◌then◌else◌, opt_eq, is_some, is_empty, find, ok, err,
}
use carryctx.Error.{
  CarryCtxError, resource_not_found, role_mismatch, single_active_task_violation,
  task_already_claimed, invalid_task_transition, dependency_incomplete,
}
use carryctx.Task.{TaskStatus, ready, debug_status}
use carryctx.Agent.{Agent}
use carryctx.Store.{
  Store, TaskRecord, Op, ◌>>=◌, ◌>>◌, return, fail, require, gets, status_eq, agent_by_id,
  list_in_progress, list_incomplete_strong_dependencies, update_status_if_ready_unowned,
  append_event, claimed,
}
use carryctx.Operations.{Env, resolve_task, resolve_agent_id}

pub record PolicyConfig : Type 0 where
  pub enforce_role_matching : Bool
  pub single_active_task : Bool

-- The required role is empty, absent, or the agent's.
abbrev pub role_fits : Option String → Agent → Bool
role_fits none agent = true
role_fits (some required) agent = required == "" || opt_eq agent.role (some required)

abbrev pub role_or_empty : Option String → String
role_or_empty none = ""
role_or_empty (some r) = r

unfoldable pub check_role : PolicyConfig → Option String → Agent → Op (Unit {0})
check_role policy required agent =
    require (not policy.enforce_role_matching || role_fits required agent)
      (role_mismatch agent.name agent.role (role_or_empty required))

unfoldable pub single_violation : String → Option TaskRecord → Op (Unit {0})
single_violation agent_name none = return tt
single_violation agent_name (some other) =
    fail (single_active_task_violation agent_name other.display_id)

-- The first other task in progress of the agent, if the policy forbids it.
unfoldable pub other_in_progress : String → TaskRecord → Store → Option TaskRecord
unfolding list_in_progress
other_in_progress agent_id existing s =
    find (λ t. not (t.id == existing.id)) (list_in_progress agent_id s.tasks)

unfoldable pub check_single : PolicyConfig → String → String → TaskRecord → Op (Unit {0})
unfolding single_violation
check_single policy agent_id agent_name existing =
    if policy.single_active_task
    then (do other ← gets (other_in_progress agent_id existing); single_violation agent_name other)
    else return tt

-- The pre-conditions on the status and the owner.
unfoldable pub refuse_claim : TaskRecord → String → CarryCtxError
refuse_claim existing actor = elim existing.owner_agent_id [
  | none ↦ invalid_task_transition (debug_status existing.status) "claim"
  | some owner ↦
      if owner == actor
      then invalid_task_transition (debug_status existing.status) "claim"
      else task_already_claimed existing.display_id owner
]

unfoldable pub or_no_agent : String → Option Agent → Op Agent
or_no_agent id none = fail (resource_not_found id)
or_no_agent id (some a) = return a

unfoldable pub claim_steps : PolicyConfig → String → TaskRecord → Agent → Env → Op TaskRecord
unfolding refuse_claim
claim_steps policy actor existing agent env = do
  check_role policy existing.required_role agent
  check_single policy actor agent.name existing
  require (status_eq existing.status ready && not (is_some existing.owner_agent_id))
      (refuse_claim existing actor)
  incomplete ← gets (λ s. list_incomplete_strong_dependencies s existing.id)
  require (is_empty incomplete) (dependency_incomplete existing.display_id)
  updated ← update_status_if_ready_unowned existing.id actor env.now
  append_event (record {
    event_type = "task.claimed";
    actor_agent_id = some actor;
    task_id = existing.id;
    payload = claimed existing.id actor;
    occurred_at = env.now;
  })
  return updated

unfoldable pub claim_task : String → String → PolicyConfig → Env → Op TaskRecord
unfolding or_no_agent
claim_task ref actor_agent_ref policy env = do
  actor ← resolve_agent_id actor_agent_ref
  existing ← resolve_task ref
  found ← gets (λ s. agent_by_id s actor)
  agent ← or_no_agent actor found
  claim_steps policy actor existing agent env
