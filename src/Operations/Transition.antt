-- ===== src/Operations/Transition.antt =====
-- `transition_task` of crates/carryctx-cli/src/application/task.rs: the facts of a transition, the
-- write, its audit event, the cleanup request of a finished task and the promotion of dependents.
pub mod Written
pub mod Relation
pub mod Promotion
pub mod Others
use carryctx.Base.{
  String, Bool, true, false, not, ◌&&◌, ◌||◌, Option, none, some, List, [], ◌∷◌, ◌==◌,
  if◌then◌else◌, opt_eq, is_some, is_empty, find, keep, map, ok, err,
}
use carryctx.Error.{CarryCtxError, role_mismatch, single_active_task_violation, validation_error}
use carryctx.Task.{
  TaskStatus, planned, ready, completed, cancelled, TransitionAction, claim, release, start,
  TransitionFacts, evaluate_transition, allowed_result,
}
use carryctx.Agent.{Agent, AgentKind, parse_kind}
use carryctx.Dependency.{DependencyEdge, DependencyKind-discrete, strong}
use carryctx.Cleanup
use carryctx.Cleanup.{CleanupRequest, CleanupReason, task_completed, manual}
use carryctx.Store.{
  Store, TaskRecord, WorktreeRow, Op, ◌>>=◌, ◌>>◌, return, fail, require, gets, lift, status_eq,
  agent_by_id, find_by_id, list_incomplete_strong_dependencies, has_open_progress,
  has_active_session, list_all_for_project, update_status, append_event, transitioned,
  cleanup_requested, unblocked, worktree_by_task, create_cleanup,
}
use carryctx.Operations.{Env, or_else, resolve_task, canonical_actor_id}
use carryctx.Operations.Claim.{PolicyConfig, check_role, check_single}
use mathlib.Core.Bool.{decide}

pub record WorktreeCleanupConfig : Type 0 where
  pub on_task_completed : String
  pub on_task_cancelled : String

-- `agent.kind.as_deref().and_then(AgentKind::parse)`
abbrev pub kind_of : Option Agent → Option AgentKind
kind_of none = none
kind_of (some a) = elim a.kind [ none ↦ none | some k ↦ parse_kind k ]

unfoldable pub actor_kind_of : Store → Option String → Option AgentKind
unfolding parse_kind agent_by_id
actor_kind_of s none = none
actor_kind_of s (some id) = kind_of (agent_by_id s id)

abbrev pub is_start : TransitionAction → Bool
is_start start = true
is_start _ = false

abbrev pub is_claim : TransitionAction → Bool
is_claim claim = true
is_claim _ = false

abbrev pub is_release : TransitionAction → Bool
is_release release = true
is_release _ = false

-- The role of the agent to check, if it is registered.
unfoldable pub start_role : PolicyConfig → TaskRecord → Option Agent → Op (Unit {0})
start_role policy existing none = return tt
start_role policy existing (some a) = check_role policy existing.required_role a

abbrev pub name_or : Option Agent → String → String
name_or none id = id
name_or (some a) id = a.name

-- The policies on `start` look at the owner, or else at the actor.
unfoldable pub start_policy : PolicyConfig → TaskRecord → Option String → Op (Unit {0})
start_policy policy existing none = return tt
start_policy policy existing (some agent_id) = do
  agent ← gets (λ s. agent_by_id s agent_id)
  start_role policy existing agent
  check_single policy agent_id (name_or agent agent_id) existing

unfoldable pub facts_of :
    Store → TaskRecord → Option String → Bool → Option String → TransitionFacts
facts_of s existing actor strict reason = record {
  has_owner = is_some existing.owner_agent_id;
  strong_dependencies_complete = is_empty (list_incomplete_strong_dependencies s existing.id);
  has_active_session = has_active_session s existing.id;
  has_open_progress = has_open_progress s existing.id;
  strict_completion = strict;
  reason = reason;
  task_display_id = existing.display_id;
  owner = existing.owner_agent_id;
  actor_agent_id = actor;
  actor_kind = actor_kind_of s actor;
}

unfoldable pub next_owner :
    TransitionAction → Bool → Option String → TaskRecord → Op (Option String)
next_owner action clears actor existing =
    if is_claim action
    then elim actor [
      | none ↦ fail (
          validation_error
            "A claim transition requires an authenticated actor; pass --agent or use 'task claim'.")
      | some a ↦ return (some a)
    ]
    else return (if clears then none else existing.owner_agent_id)

-- `TransitionAction::past_tense`
unfoldable pub past_tense : TransitionAction → String
past_tense claim = "task.claimed"
past_tense release = "task.released"
past_tense start = "task.started"
past_tense TransitionAction.block = "task.blocked"
past_tense TransitionAction.unblock = "task.unblocked"
past_tense TransitionAction.send_review = "task.reviewed"
past_tense TransitionAction.complete = "task.completed"
past_tense TransitionAction.cancel = "task.cancelled"
past_tense TransitionAction.reopen = "task.reopened"

unfoldable pub forced_flag : TransitionAction → TaskRecord → Option String → Option Bool
forced_flag action existing actor =
    if is_release action
    then some (is_some existing.owner_agent_id && not (opt_eq existing.owner_agent_id actor))
    else none

abbrev pub cleanup_on_terminal : WorktreeCleanupConfig → TaskStatus → Bool
cleanup_on_terminal config completed = not (config.on_task_completed == "keep")
cleanup_on_terminal config cancelled = not (config.on_task_cancelled == "keep")
cleanup_on_terminal config _ = false

abbrev pub request_for : Env → WorktreeRow → String → TaskStatus → CleanupRequest
request_for env w task_id status = record {
  id = env.new_id;
  worktree_id = some w.id;
  worktree_path = w.path;
  branch = w.branch;
  task_id = some task_id;
  reason = if status_eq status cancelled then manual else task_completed;
  state = Cleanup.pending;
  blocked_reason = none;
  attempt_count = 0;
  requested_at = env.now;
  last_attempt_at = none;
  completed_at = none;
}

-- An active request of the task for this worktree is reused.
abbrev pub active_request : WorktreeRow → String → CleanupRequest → Bool
active_request w task_id r =
    opt_eq r.task_id (some task_id)
    && (Cleanup.is_active r.state && opt_eq r.worktree_id (some w.id))

-- A request already there, or a new one with its audit event. `updated` has the id of the task.
unfoldable pub reuse_or_create :
    Env → TaskRecord → Option String → WorktreeRow → Option CleanupRequest → Op (Option String)
reuse_or_create env updated actor w (some r) = return (some r.id)
reuse_or_create env updated actor w none = do
  create_cleanup (request_for env w updated.id updated.status)
  append_event (record {
    event_type = "worktree.cleanup_requested";
    actor_agent_id = actor;
    task_id = updated.id;
    payload =
        cleanup_requested env.new_id w.id w.path w.branch
          (request_for env w updated.id updated.status).reason;
    occurred_at = env.now;
  })
  return (some env.new_id)

unfoldable pub enqueue_cleanup :
    Env → TaskRecord → Option String → Option WorktreeRow → Op (Option String)
enqueue_cleanup env updated actor none = return none
enqueue_cleanup env updated actor (some w) = do
  old ← gets (λ s. find (active_request w updated.id) s.cleanup_requests)
  reuse_or_create env updated actor w old

unfoldable pub maybe_cleanup :
    WorktreeCleanupConfig → Env → TaskRecord → Option String → Op (Option String)
maybe_cleanup config env updated actor =
    if cleanup_on_terminal config updated.status
    then (do w ← gets (λ s. worktree_by_task s updated.id); enqueue_cleanup env updated actor w)
    else return none

-- The strong dependents of a task, in the order of the edges.
unfoldable pub dependents_of : String → List DependencyEdge → List String
dependents_of id edges =
    map (λ e. e.task_id)
      (keep (λ e. e.prerequisite_id == id && decide (DependencyKind-discrete e.kind strong)) edges)

unfoldable pub unblock_dependent : Env → Option String → String → TaskRecord → Op (Unit {0})
unblock_dependent env actor by dependent = do
  update_status dependent.id ready none env.now
  append_event (record {
    event_type = "task.unblocked";
    actor_agent_id = actor;
    task_id = dependent.id;
    payload = unblocked dependent.id dependent.display_id by;
    occurred_at = env.now;
  })

-- The dependents that a completion may promote: planned, unowned, and with nothing unsettled.
unfoldable pub promotable : Store → TaskRecord → Bool
unfolding list_incomplete_strong_dependencies
promotable s dependent =
    status_eq dependent.status planned
    && not (is_some dependent.owner_agent_id)
    && is_empty (list_incomplete_strong_dependencies s dependent.id)

unfoldable pub promote_one : Env → Option String → String → TaskRecord → Op (Unit {0})
promote_one env actor by dependent s =
    if promotable s dependent then unblock_dependent env actor by dependent s else ok (tt, s)

unfoldable pub promote_found : Env → Option String → String → Option TaskRecord → Op (Unit {0})
promote_found env actor by none = return tt
promote_found env actor by (some dependent) = promote_one env actor by dependent

unfoldable pub promote_id : Env → Option String → String → String → Op (Unit {0})
promote_id env actor by id = do
  found ← gets (λ s. find_by_id s.tasks id)
  promote_found env actor by found

unfoldable pub promote_all : Env → Option String → String → List String → Op (Unit {0})
promote_all env actor by [] = return tt
promote_all env actor by (id ∷ ids) = do promote_id env actor by id; promote_all env actor by ids

unfoldable pub promote_dependents : Env → Option String → TaskRecord → Op (Unit {0})
promote_dependents env actor updated =
    if status_eq updated.status completed
    then (do
      edges ← gets list_all_for_project
      promote_all env actor updated.id (dependents_of updated.id edges))
    else return tt

pub record Request : Type 0 where
  pub action : TransitionAction
  pub reason : Option String
  pub strict_completion : Bool
  pub cleanup_config : WorktreeCleanupConfig
  pub policy : PolicyConfig

-- The write of the status and its audit event.
unfoldable pub write_status :
    Request → Env → Option String → TaskRecord → TaskStatus × Bool × List String → Op TaskRecord
write_status req env actor existing (new_status, clears, warnings) = do
  owner ← next_owner req.action clears actor existing
  updated ← update_status existing.id new_status owner env.now
  append_event (record {
    event_type = past_tense req.action;
    actor_agent_id = actor;
    task_id = existing.id;
    payload =
        transitioned existing.id existing.status updated.status req.reason
          (forced_flag req.action existing actor);
    occurred_at = env.now;
  })
  return updated

unfoldable pub transition_existing :
    Request → Env → Option String → TaskRecord → Op (TaskRecord × List String × Option String)
transition_existing req env actor existing = do
  if is_start req.action
      then start_policy req.policy existing (or_else existing.owner_agent_id actor)
      else return tt
  facts ← gets (λ s. facts_of s existing actor req.strict_completion req.reason)
  outcome ← lift (allowed_result (evaluate_transition existing.status req.action facts))
  updated ← write_status req env actor existing outcome
  cleanup_request_id ← maybe_cleanup req.cleanup_config env updated actor
  promote_dependents env actor updated
  return (updated, outcome.2, cleanup_request_id)

unfoldable pub transition_task :
    String → Request → Option String → Env → Op (TaskRecord × List String × Option String)
transition_task ref req actor_ref env = do
  actor ← gets (λ s. canonical_actor_id s actor_ref)
  existing ← resolve_task ref
  transition_existing req env actor existing
