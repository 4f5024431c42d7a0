-- ===== src/Operations/Edit.antt =====
-- `edit_task` of crates/carryctx-cli/src/application/task.rs.
pub mod Authorized
use carryctx.Base.{
  String, Bool, true, false, not, ◌&&◌, ◌||◌, Option, none, some, ◌==◌, if◌then◌else◌, any, ok, err,
  trim, Result,
}
use carryctx.Error.{CarryCtxError, validation_error, state_conflict, permission_scope}
use carryctx.Agent.{Agent, active, deactivated}
use carryctx.Task.{TaskStatus, completed, cancelled, TaskPriority, is_terminal}
use carryctx.Store.{
  Store, TaskRecord, Op, ◌>>=◌, ◌>>◌, return, fail, require, gets, lift, edit_row, append_event,
  edited,
}
use carryctx.Operations.{Env, find_agent, resolve_task, canonical_actor_id}
use carryctx.Operations.Create.{validate_text_lengths, trimmed, or_default, map_trim}

pub record Edit : Type 0 where
  pub title : Option String
  pub priority : Option TaskPriority
  pub description : Option String
  pub required_role : Option String
  pub force : Bool

unfoldable pub check_title : Option String → Result CarryCtxError (Unit {0})
unfolding validate_text_lengths
check_title none = ok tt
check_title (some t) =
    if trim t == ""
    then err (validation_error "Task title cannot be empty.")
    else validate_text_lengths (some t) none

unfoldable pub active_agent : String → Option Agent → Result CarryCtxError String
active_agent ref none = err (permission_scope ref)
active_agent ref (some a) = elim a.status [
  | active ↦ ok a.id
  | deactivated ↦ err (permission_scope a.name)
]

unfoldable pub resolve_active_agent_id : Store → String → Result CarryCtxError String
unfolding find_agent active_agent
resolve_active_agent_id s ref = active_agent ref (find_agent s ref)

abbrev is_ok_with : String → Result CarryCtxError String → Bool
is_ok_with actor (ok id) = id == actor
is_ok_with actor (err e) = false

-- The reference, if there is one, is to the active agent `actor`.
unfoldable pub refers_to : Store → String → Option String → Bool
unfolding resolve_active_agent_id
refers_to s actor none = false
refers_to s actor (some ref) = is_ok_with actor (resolve_active_agent_id s ref)

abbrev pub terminal_event : TaskStatus → String
terminal_event completed = "task.completed"
terminal_event _ = "task.cancelled"

-- The spelling that earlier versions wrote is matched as well.
abbrev is_event_type : String → String → Bool
is_event_type event_type wanted =
    event_type == wanted
    || wanted == "task.completed" && event_type == "task.completeed"
    || wanted == "task.cancelled" && event_type == "task.canceled"

-- The owner, or an agent that recorded the terminal transition.
unfoldable pub may_correct : Store → TaskRecord → String → Bool
unfolding refers_to
may_correct s existing actor =
    refers_to s actor existing.owner_agent_id
    || any
        (λ e.
          e.task_id == existing.id
          && is_event_type e.event_type (terminal_event existing.status)
          && refers_to s actor e.actor_agent_id)
        s.events

unfoldable pub or_no_actor : Option String → Op String
or_no_actor none =
    fail (permission_scope "Terminal task corrections require an authenticated agent and --force.")
or_no_actor (some actor) = return actor

-- The actor of a correction.
unfoldable pub correct_as : TaskRecord → Option String → Op (Option String)
correct_as existing actor_ref = do
  ref ← or_no_actor actor_ref
  found ← gets (λ s. resolve_active_agent_id s ref)
  actor ← lift found
  allowed ← gets (λ s. may_correct s existing actor)
  require allowed (permission_scope ref)
  return (some actor)

unfoldable pub authorize : TaskRecord → Option String → Op (Option String)
unfolding is_terminal
authorize existing actor =
    if is_terminal existing.status then correct_as existing actor else return actor

-- An empty text clears the field; without one the current value stays.
abbrev pub apply_optional : Option String → Option String → Option String
apply_optional none current = current
apply_optional (some value) current = if trim value == "" then none else some (trim value)

unfoldable pub write_edit : Edit → Env → TaskRecord → Option String → Op TaskRecord
write_edit edit env existing actor = do
  updated ←
      edit_row existing.id (or_default existing.title (map_trim edit.title))
        (or_default existing.priority edit.priority)
        (apply_optional edit.description existing.description)
        (apply_optional edit.required_role existing.required_role) env.now
  append_event (record {
    event_type = if is_terminal existing.status then "task.corrected" else "task.edited";
    actor_agent_id = actor;
    task_id = existing.id;
    payload = edited existing updated (is_terminal existing.status);
    occurred_at = env.now;
  })
  return updated

unfoldable pub edit_existing : Edit → Env → Option String → TaskRecord → Op TaskRecord
edit_existing edit env actor existing = do
  require (not edit.force || is_terminal existing.status) (state_conflict existing.display_id)
  require (not (is_terminal existing.status) || edit.force) (state_conflict existing.display_id)
  by ← authorize existing actor
  write_edit edit env existing by

unfoldable pub edit_task : String → Edit → Option String → Env → Op TaskRecord
edit_task ref edit actor_ref env = do
  lift (check_title edit.title)
  lift (validate_text_lengths none edit.description)
  actor ← gets (λ s. canonical_actor_id s actor_ref)
  existing ← resolve_task ref
  edit_existing edit env actor existing
