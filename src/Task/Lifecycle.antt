-- ===== src/Task/Lifecycle.antt =====
-- What the task state machine of domain/task.rs allows, clears and refuses.
use carryctx.Base.{
  String, Bool, true, false, none, some, List, [], ◌≡◌, ◌≢◌, ◌⊎◌, ◌↔◌, refl, inl, inr, arith,
  opt_eq_iff,
}
use carryctx.Error.{
  CarryCtxError, task_not_owned, exit_code, state_conflict_exit, validation, permission_scope_exit,
}
use carryctx.Agent.{subagent}
use carryctx.Task.{
  TaskStatus, planned, ready, in_progress, blocked, review, completed, cancelled, is_terminal,
  is_active, TransitionAction, claim, release, start, block, unblock, send_review, complete, cancel,
  reopen, TransitionFacts, allowed, denied, owner_or_unknown, evaluate_transition,
}

-- The lifecycle diagram, with no facts.
pub data Edge : TaskStatus → TransitionAction → TaskStatus → Type 0 where
  claimed : Edge ready claim in_progress
  start_ready : Edge ready start in_progress
  start_planned : Edge planned start in_progress
  start_again : Edge in_progress start in_progress
  block_work : Edge in_progress block blocked
  block_ready : Edge ready block blocked
  block_planned : Edge planned block blocked
  block_review : Edge review block blocked
  unblock_owned : {s : TaskStatus} → (s ≡ blocked) ⊎ (s ≡ planned) → Edge s unblock in_progress
  unblock_unowned : {s : TaskStatus} → (s ≡ blocked) ⊎ (s ≡ planned) → Edge s unblock ready
  send : Edge in_progress send_review review
  finish_review : Edge review complete completed
  finish_work : Edge in_progress complete completed
  abandon : {s : TaskStatus} → is_terminal s ≡ false → Edge s cancel cancelled
  let_go : {s t : TaskStatus} → is_active s ≡ true → (t ≡ ready) ⊎ (t ≡ planned) → Edge s release t
  open_again :
      {s t : TaskStatus} → is_terminal s ≡ true → (t ≡ ready) ⊎ (t ≡ planned) → Edge s reopen t

pub ruleset edges = (
  claimed, start_ready, start_planned, start_again, block_work, block_ready, block_planned,
  block_review, unblock_owned, unblock_unowned, send, finish_review, finish_work, abandon, let_go,
  open_again,
)

release_target :
    (s t : TaskStatus) (facts : TransitionFacts) (clears : Bool) (warnings : List String)
    → evaluate_transition s release facts ≡ allowed t clears warnings
    → (is_active s ≡ true) × ((t ≡ ready) ⊎ (t ≡ planned))
unfolding evaluate_transition is_active
release_target s t facts clears warnings h = ground arith

-- The actions that strong prerequisites gate. Starting again what is in progress changes nothing.
pub data IsGated : TaskStatus → TransitionAction → Type 0 where
  claim_gated : {s : TaskStatus} → IsGated s claim
  start_gated : {s : TaskStatus} → s ≢ in_progress → IsGated s start
  unblock_gated : {s : TaskStatus} → IsGated s unblock
  complete_gated : {s : TaskStatus} → IsGated s complete

evaluate_transition-Edge :
    (s t : TaskStatus) (a : TransitionAction) (facts : TransitionFacts) (clears : Bool)
    (warnings : List String)
    → evaluate_transition s a facts ≡ allowed t clears warnings
    → Edge s a t
unfolding evaluate_transition is_terminal is_active
evaluate_transition-Edge s t claim facts clears warnings h = grind (arith, claimed)
evaluate_transition-Edge s t release facts clears warnings h =
    let (live, back) = release_target s t facts clears warnings h in let_go live back
evaluate_transition-Edge s t start facts clears warnings h =
    grind (arith, start_ready, start_planned, start_again)
evaluate_transition-Edge s t block facts clears warnings h =
    grind (arith, block_work, block_ready, block_planned, block_review)
evaluate_transition-Edge s t unblock facts clears warnings h =
    grind (arith, unblock_owned, unblock_unowned)
evaluate_transition-Edge s t send_review facts clears warnings h = grind (arith, send)
evaluate_transition-Edge s t complete facts clears warnings h =
    grind (arith, finish_review, finish_work)
evaluate_transition-Edge s t cancel facts clears warnings h = grind (arith, abandon)
evaluate_transition-Edge s t reopen facts clears warnings h = grind (arith, open_again)

-- Facts at which an edge is taken: an owner or none, prerequisites settled or not, a reason given.
abbrev pub facts_with : Bool → Bool → TransitionFacts
facts_with owned settled = record {
  has_owner = owned;
  strong_dependencies_complete = settled;
  has_active_session = false;
  has_open_progress = false;
  strict_completion = false;
  reason = some "";
  task_display_id = "";
  owner = none;
  actor_agent_id = none;
  actor_kind = none;
}

abbrev pub Taken : TaskStatus → TransitionAction → TaskStatus → Type 0
Taken s a t =
    (facts : TransitionFacts) × (clears : Bool) × (warnings : List String) × (evaluate_transition s
        a facts
      ≡ allowed t clears warnings)

Edge-Taken : {s t : TaskStatus} {a : TransitionAction} → Edge s a t → Taken s a t
unfolding evaluate_transition is_terminal is_active
Edge-Taken claimed = (facts_with false true, false, [], refl)
Edge-Taken start_ready = (facts_with false true, false, [], refl)
Edge-Taken start_planned = (facts_with false true, false, [], refl)
Edge-Taken start_again = (facts_with true true, false, [], refl)
Edge-Taken block_work = (facts_with true true, false, [], refl)
Edge-Taken block_ready = (facts_with true true, false, [], refl)
Edge-Taken block_planned = (facts_with true true, false, [], refl)
Edge-Taken block_review = (facts_with true true, false, [], refl)
Edge-Taken (unblock_owned h) = (facts_with true true, false, [], ground arith)
Edge-Taken (unblock_unowned h) = (facts_with false true, false, [], ground arith)
Edge-Taken send = (facts_with true true, false, [], refl)
Edge-Taken finish_review = (facts_with true true, false, [], refl)
Edge-Taken finish_work = (facts_with true true, false, [], refl)
Edge-Taken (abandon h) = (facts_with true true, true, [], ground arith)
Edge-Taken (let_go h (inl r)) = (facts_with true true, true, [], ground arith)
Edge-Taken (let_go h (inr p)) = (facts_with true false, true, [], ground arith)
Edge-Taken (open_again h (inl r)) = (facts_with true true, true, [], ground arith)
Edge-Taken (open_again h (inr p)) = (facts_with true false, true, [], ground arith)

-- Some facts let an action move a task from one status to another exactly when the lifecycle diagram has that edge.
pub Taken-iff : (s t : TaskStatus) (a : TransitionAction) → Taken s a t ↔ Edge s a t
Taken-iff s t a = (
  λ (facts, clears, warnings, e). evaluate_transition-Edge s t a facts clears warnings e,
  Edge-Taken,
)

-- An allowed claim, fresh start, unblock or completion finds every strong prerequisite settled.
pub dependency_gate :
    (s t : TaskStatus) (a : TransitionAction) (facts : TransitionFacts) (clears : Bool)
    (warnings : List String)
    → evaluate_transition s a facts ≡ allowed t clears warnings
    → IsGated s a
    → facts.strong_dependencies_complete ≡ true
unfolding evaluate_transition
dependency_gate s t a facts clears warnings h claim_gated = ground arith
dependency_gate s t a facts clears warnings h (start_gated ne) = ground arith
dependency_gate s t a facts clears warnings h unblock_gated = ground arith
dependency_gate s t a facts clears warnings h complete_gated = ground arith

-- An allowed action takes the owner away exactly when it is a release, a cancellation or a reopening.
pub clears_owner_iff :
    (s t : TaskStatus) (a : TransitionAction) (facts : TransitionFacts) (clears : Bool)
    (warnings : List String)
    → evaluate_transition s a facts ≡ allowed t clears warnings
    → (clears ≡ true) ↔ (a ≡ release) ⊎ (a ≡ cancel) ⊎ (a ≡ reopen)
unfolding evaluate_transition
clears_owner_iff s t a facts clears warnings h = ground arith

-- From a completed or cancelled task no action but reopen is allowed, whatever the facts.
terminal_frozen :
    (s : TaskStatus) (a : TransitionAction) (facts : TransitionFacts)
    → is_terminal s ≡ true
    → a ≢ reopen
    → (t : TaskStatus) (clears : Bool) (warnings : List String)
    → evaluate_transition s a facts ≢ allowed t clears warnings
unfolding evaluate_transition is_terminal
terminal_frozen s a facts h ne t clears warnings = ground arith

-- A release is refused with TASK_NOT_OWNED exactly when the task has an owner, the actor is known to be
-- a subagent, and the actor is not that owner.
pub release_denied_iff :
    (s : TaskStatus) (facts : TransitionFacts)
    → (evaluate_transition s release facts
        ≡ denied (task_not_owned facts.task_display_id (owner_or_unknown facts)))
      ↔ ((facts.has_owner ≡ true)
          × (facts.actor_kind ≡ some subagent)
          × ((facts.actor_agent_id ≡ none) ⊎ (facts.actor_agent_id ≢ facts.owner)))
unfolding evaluate_transition
release_denied_iff s facts = ground (arith, opt_eq_iff facts.actor_agent_id facts.owner)

-- A refusal exits with the code of a state conflict, or of a validation error that only a missing reason
-- causes, or of a permission error that only a release causes.
denied_exit :
    (s : TaskStatus) (a : TransitionAction) (facts : TransitionFacts) (e : CarryCtxError)
    → evaluate_transition s a facts ≡ denied e
    → (exit_code e ≡ state_conflict_exit)
      ⊎ ((exit_code e ≡ validation) × (facts.reason ≡ none))
      ⊎ ((exit_code e ≡ permission_scope_exit) × (a ≡ release))
unfolding evaluate_transition exit_code
denied_exit s a facts e h = ground arith
