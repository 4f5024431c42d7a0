-- ===== src/Operations.antt =====
-- crates/carryctx-cli/src/application/task.rs: the task use cases. This file has what they share;
-- each use case is a child module. What a use case draws from outside, the time and the ids that it
-- generates, is its `Env`.
pub mod Claim
pub mod Reads
pub mod Transition
pub mod Depend
pub mod Create
pub mod Edit
pub mod Show
pub mod Conserve
pub mod History
use carryctx.Base.{
  String, Bool, true, false, Option, none, some, ◌==◌, if◌then◌else◌, trim, Result, ok, err,
}
use carryctx.Error.{CarryCtxError, resource_not_found, permission_scope}
use carryctx.Agent.{Agent, AgentStatus, active, deactivated}
use carryctx.Store.{
  Store, TaskRecord, Op, ◌>>=◌, return, fail, gets, find_by_id, find_by_display_id, agent_by_id,
  agent_by_name,
}

pub record Env : Type 0 where
  pub now : String
  pub new_id : String

-- `a.or_else(|| b)`
abbrev pub or_else {ℓ} : {A : Type ℓ} → Option A → Option A → Option A
or_else none b = b
or_else (some a) b = some a

unfoldable pub resolve_task : String → Op TaskRecord
unfolding find_by_id find_by_display_id
resolve_task ref s = elim (or_else (find_by_display_id s.tasks ref) (find_by_id s.tasks ref)) [
  | none ↦ err (resource_not_found ref)
  | some t ↦ ok (t, s)
]

-- `find_by_name`, then `find_by_id`
unfoldable pub find_agent : Store → String → Option Agent
unfolding agent_by_name agent_by_id
find_agent s ref = or_else (agent_by_name s ref) (agent_by_id s ref)

abbrev pub id_or : Option Agent → String → String
id_or none ref = ref
id_or (some a) ref = a.id

-- An unknown reference is kept as it is.
unfoldable pub canonical_actor_id : Store → Option String → Option String
unfolding find_agent
canonical_actor_id s none = none
canonical_actor_id s (some actor_ref) =
    let ref = trim actor_ref in if ref == "" then none else some (id_or (find_agent s ref) ref)

active_id : String → Option Agent → Result CarryCtxError String
active_id ref none = err (resource_not_found ref)
active_id ref (some a) = elim a.status [
  | active ↦ ok a.id
  | deactivated ↦ err (permission_scope a.name)
]

unfoldable pub resolve_agent_id : String → Op String
unfolding find_agent active_id
resolve_agent_id agent_ref s = elim (active_id agent_ref (find_agent s agent_ref)) [
  | ok id ↦ ok (id, s)
  | err e ↦ err e
]
