-- ===== src/Operations/Reads.antt =====
-- The lookups and the policy checks of the task use cases leave the rows as they are.
use carryctx.Base.{String, Option, none, some, ◌≡◌, arith, ok, err, Result}
use carryctx.Error.{CarryCtxError}
use carryctx.Agent.{Agent}
use carryctx.Store.{Store, TaskRecord, find_by_id, find_by_display_id}
use carryctx.Store.Steps.{Steps}
use carryctx.Store.Same.{Same, same_rules}
use carryctx.Operations.{resolve_task, resolve_agent_id, or_else, find_agent, active_id}
use carryctx.Operations.Claim.{
  PolicyConfig, check_role, check_single, single_violation, or_no_agent,
}

pub resolve_task-Same : (ref : String) → Steps Same (resolve_task ref)
unfolding resolve_task
resolve_task-Same ref = record {
  at = λ s a t h. record {
    same = by_found s a t (or_else (find_by_display_id s.tasks ref) (find_by_id s.tasks ref)) h;
  };
}
  where
    by_found :
        (s : Store) (a : TaskRecord) (t : Store) (found : Option TaskRecord)
        → ◌≡◌ {A = Result CarryCtxError (TaskRecord × Store)}
            (elim found [ none ↦ err (CarryCtxError.resource_not_found ref) | some x ↦ ok (x, s) ])
            (ok (a, t))
        → s ≡ t
    by_found s a t none h = cc
    by_found s a t (some x) h = ground (arith, h)

pub resolve_agent_id-Same : (ref : String) → Steps Same (resolve_agent_id ref)
unfolding resolve_agent_id
resolve_agent_id-Same ref = record {
  at = λ s a t h. record { same = by_result s a t (active_id ref (find_agent s ref)) h };
}
  where
    by_result :
        (s : Store) (a : String) (t : Store) (r : Result CarryCtxError String)
        → ◌≡◌ {A = Result CarryCtxError (String × Store)}
            (elim r [ ok id ↦ ok (id, s) | err e ↦ err e ])
            (ok (a, t))
        → s ≡ t
    by_result s a t (ok id) h = ground (arith, h)
    by_result s a t (err x) h = cc

pub or_no_agent-Same : (id : String) (found : Option Agent) → Steps Same (or_no_agent id found)
unfolding or_no_agent
or_no_agent-Same id none = search same_rules
or_no_agent-Same id (some a) = search same_rules

pub check_role-Same :
    (policy : PolicyConfig) (required : Option String) (agent : Agent)
    → Steps Same (check_role policy required agent)
unfolding check_role
check_role-Same policy required agent = search same_rules

pub single_violation-Same :
    (name : String) (found : Option TaskRecord) → Steps Same (single_violation name found)
unfolding single_violation
single_violation-Same name none = search same_rules
single_violation-Same name (some t) = search same_rules

pub check_single-Same :
    (policy : PolicyConfig) (id name : String) (existing : TaskRecord)
    → Steps Same (check_single policy id name existing)
unfolding check_single
check_single-Same policy id name existing = search (same_rules, single_violation-Same) depth 9
