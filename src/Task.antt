-- ===== src/Task.antt =====
-- crates/carryctx-core/src/domain/task.rs: the task lifecycle. `evaluate_transition` is the state
-- machine that every lifecycle command goes through; its callers are in `Operations`.
pub mod Lifecycle
pub mod Finish
use carryctx.Base.{
  ℕ, String, Bool, true, false, not, ◌&&◌, Option, none, some, List, [], ◌∷◌, if◌then◌else◌,
  is_some, opt_eq, ltb, Result, ok, err,
}
use Prim.Native.String.{count}
use carryctx.Error.{
  CarryCtxError, task_not_owned, task_already_claimed, dependency_incomplete, state_conflict,
  validation_error, invalid_task_transition,
}
use carryctx.Agent.{AgentKind, commander, subagent}

abbrev pub max_title_chars : ℕ
max_title_chars = 200

abbrev pub max_description_chars : ℕ
max_description_chars = 8000

-- `chars().count()` is the text's number of characters.
unfoldable pub validate_title : String → Result CarryCtxError (Unit {0})
validate_title title =
    if ltb max_title_chars (count title)
    then err (validation_error "Task title is too long.")
    else ok tt

unfoldable pub validate_description : String → Result CarryCtxError (Unit {0})
validate_description description =
    if ltb max_description_chars (count description)
    then err (validation_error "Task description is too long.")
    else ok tt

pub data TaskStatus : Type 0 where
  planned ready in_progress blocked review completed cancelled : TaskStatus

unfoldable pub TaskStatus-discrete : Discrete TaskStatus
TaskStatus-discrete = hlevel

unfoldable pub is_terminal : TaskStatus → Bool
is_terminal completed = true
is_terminal cancelled = true
is_terminal _ = false

unfoldable pub is_active : TaskStatus → Bool
is_active in_progress = true
is_active review = true
is_active blocked = true
is_active _ = false

unfoldable pub prerequisite_settled : TaskStatus → Bool
unfolding is_terminal
prerequisite_settled status = is_terminal status

-- `{:?}` of a status.
unfoldable pub debug_status : TaskStatus → String
debug_status planned = "Planned"
debug_status ready = "Ready"
debug_status in_progress = "InProgress"
debug_status blocked = "Blocked"
debug_status review = "Review"
debug_status completed = "Completed"
debug_status cancelled = "Cancelled"

pub data TaskPriority : Type 0 where
  low normal high urgent : TaskPriority

pub data TransitionAction : Type 0 where
  claim release start block unblock send_review complete cancel reopen : TransitionAction

unfoldable pub name : TransitionAction → String
name claim = "claim"
name release = "release"
name start = "start"
name block = "block"
name unblock = "unblock"
name send_review = "review"
name complete = "complete"
name cancel = "cancel"
name reopen = "reopen"

pub record TransitionFacts : Type 0 where
  pub has_owner : Bool
  pub strong_dependencies_complete : Bool
  pub has_active_session : Bool
  pub has_open_progress : Bool
  pub strict_completion : Bool
  pub reason : Option String
  pub task_display_id : String
  pub owner : Option String
  pub actor_agent_id : Option String
  pub actor_kind : Option AgentKind

pub data TransitionOutcome : Type 0 where
  allowed : TaskStatus → Bool → List String → TransitionOutcome
  denied : CarryCtxError → TransitionOutcome

-- `TransitionOutcome::allowed`
unfoldable pub allowed_result :
    TransitionOutcome → Result CarryCtxError (TaskStatus × Bool × List String)
allowed_result (allowed new_status clears_owner warnings) = ok (new_status, clears_owner, warnings)
allowed_result (denied e) = err e

kind_authorized : Option AgentKind → TransitionFacts → Bool
kind_authorized none facts = true
kind_authorized (some commander) facts = true
kind_authorized (some subagent) facts =
    is_some facts.actor_agent_id && opt_eq facts.actor_agent_id facts.owner

unfoldable pub release_authorized : TransitionFacts → Bool
unfolding kind_authorized
release_authorized facts =
    if not facts.has_owner then true else kind_authorized facts.actor_kind facts

-- `facts.owner.as_deref().unwrap_or("unknown")`
abbrev pub owner_or_unknown : TransitionFacts → String
owner_or_unknown facts = elim facts.owner [ none ↦ "unknown" | some o ↦ o ]

-- What the arms of the guarded `match` give: `true`, `false`, or an early return.
pub data Verdict : Type 0 where
  pass refuse : Verdict
  deny : CarryCtxError → Verdict

abbrev if_deps : TransitionFacts → Verdict → Verdict
if_deps facts v =
    if facts.strong_dependencies_complete
    then v
    else deny (dependency_incomplete facts.task_display_id)

-- The match on (action, current_status), by action; a guard that fails falls to the next arm.
claim_verdict : TaskStatus → TransitionFacts → Verdict
claim_verdict status facts =
    if facts.has_owner
    then deny (task_already_claimed facts.task_display_id (owner_or_unknown facts))
    else if_deps facts (elim status [ ready ↦ pass | _ ↦ refuse ])

release_verdict : TaskStatus → TransitionFacts → Verdict
release_verdict status facts =
    if facts.has_active_session
    then deny (state_conflict "Cannot release task while an active session exists.")
    else elim status [ in_progress ↦ pass | blocked ↦ pass | review ↦ pass | _ ↦ refuse ]

start_verdict : TaskStatus → TransitionFacts → Verdict
start_verdict in_progress facts = pass
start_verdict ready facts = if_deps facts pass
start_verdict planned facts = if_deps facts pass
start_verdict _ facts = if_deps facts refuse

block_verdict : TaskStatus → TransitionFacts → Verdict
block_verdict status facts =
    if is_some facts.reason
    then elim status [
      | in_progress ↦ pass
      | ready ↦ pass
      | planned ↦ pass
      | review ↦ pass
      | _ ↦ refuse
    ]
    else deny (validation_error "Block reason is required.")

unblock_verdict : TaskStatus → TransitionFacts → Verdict
unblock_verdict blocked facts = if_deps facts pass
unblock_verdict planned facts = if_deps facts pass
unblock_verdict _ facts = refuse

review_verdict : TaskStatus → Verdict
review_verdict in_progress = pass
review_verdict _ = refuse

open_progress_verdict : TransitionFacts → Verdict
open_progress_verdict facts =
    if facts.has_open_progress && facts.strict_completion
    then deny (state_conflict "Task has open progress items. Complete or remove them first.")
    else pass

complete_verdict : TaskStatus → TransitionFacts → Verdict
unfolding open_progress_verdict
complete_verdict review facts = if_deps facts (open_progress_verdict facts)
complete_verdict in_progress facts = if_deps facts (open_progress_verdict facts)
complete_verdict _ facts = refuse

cancel_verdict : TaskStatus → TransitionFacts → Verdict
cancel_verdict status facts =
    if is_terminal status
    then refuse
    else if is_some facts.reason
    then pass
    else deny (validation_error "Cancel reason is required for active tasks.")

reopen_verdict : TaskStatus → Verdict
reopen_verdict completed = pass
reopen_verdict cancelled = pass
reopen_verdict _ = refuse

verdict : TransitionAction → TaskStatus → TransitionFacts → Verdict
unfolding claim_verdict release_verdict start_verdict block_verdict unblock_verdict review_verdict
    complete_verdict cancel_verdict reopen_verdict is_terminal
verdict claim status facts = claim_verdict status facts
verdict release status facts = release_verdict status facts
verdict start status facts = start_verdict status facts
verdict block status facts = block_verdict status facts
verdict unblock status facts = unblock_verdict status facts
verdict send_review status facts = review_verdict status
verdict complete status facts = complete_verdict status facts
verdict cancel status facts = cancel_verdict status facts
verdict reopen status facts = reopen_verdict status

abbrev ready_or_planned : TransitionFacts → TaskStatus
ready_or_planned facts = if facts.strong_dependencies_complete then ready else planned

abbrev completion_warnings : TransitionFacts → List String
completion_warnings facts =
    if facts.has_open_progress && not facts.strict_completion
    then "Task has open progress items." ∷ []
    else []

-- The second match: the status, the owner and the warnings of an allowed transition.
effect : TransitionAction → TransitionFacts → TransitionOutcome
effect claim facts = allowed in_progress false []
effect release facts = allowed (ready_or_planned facts) true []
effect start facts = allowed in_progress false []
effect block facts = allowed blocked false []
effect unblock facts = allowed (if facts.has_owner then in_progress else ready) false []
effect send_review facts = allowed review false []
effect complete facts = allowed completed false (completion_warnings facts)
effect cancel facts = allowed cancelled true []
effect reopen facts = allowed (ready_or_planned facts) true []

is_release : TransitionAction → Bool
is_release release = true
is_release _ = false

decide_by : Verdict → TaskStatus → TransitionAction → TransitionFacts → TransitionOutcome
unfolding effect debug_status name
decide_by pass status action facts = effect action facts
decide_by refuse status action facts =
    denied (invalid_task_transition (debug_status status) (name action))
decide_by (deny e) status action facts = denied e

unfoldable pub evaluate_transition :
    TaskStatus → TransitionAction → TransitionFacts → TransitionOutcome
unfolding verdict effect decide_by is_release release_authorized
evaluate_transition current_status action facts =
    if is_release action && not (release_authorized facts)
    then denied (task_not_owned facts.task_display_id (owner_or_unknown facts))
    else decide_by (verdict action current_status facts) current_status action facts

unfoldable pub initial_status : Bool → Bool → TaskStatus
initial_status dependencies_complete explicit_planned =
    if explicit_planned then planned else if dependencies_complete then ready else planned
