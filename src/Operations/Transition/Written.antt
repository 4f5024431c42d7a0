-- ===== src/Operations/Transition/Written.antt =====
-- What a transition writes is what `evaluate_transition` answers on the facts of the database.
use carryctx.Base.{
  String, Bool, Option, none, some, List, ◌≡◌, sym, ap, subst, ◌∙◌, arith, ok, if◌then◌else◌,
}
use carryctx.Task.{
  TaskStatus, TransitionAction, TransitionOutcome, evaluate_transition, allowed, denied,
  allowed_result,
}
use carryctx.Store.{Store, TaskRecord, ◌>>=◌, gets, lift, return, update_status, append_event}
use carryctx.Store.Rows.{update_status-eq-ok}
use carryctx.Store.Steps.{
  >>=-eq-ok, return-eq-ok, gets-eq-ok, Steps, Steps-if, Steps-return, Steps-gets, Steps-lift,
}
use carryctx.Store.Same.{Same, Same-IsOrder, same_rules, skip}
use carryctx.Operations.{Env, resolve_task, canonical_actor_id, or_else}
use carryctx.Operations.Reads.{resolve_task-Same, check_role-Same, check_single-Same}
use carryctx.Operations.Claim.{PolicyConfig}
use carryctx.Operations.Transition.{
  Request, is_claim, is_start, start_role, start_policy, facts_of, next_owner, write_status,
  transition_existing, transition_task, maybe_cleanup, promote_dependents,
}
use carryctx.Agent.{Agent}

start_role-Same :
    (policy : PolicyConfig) (existing : TaskRecord) (agent : Option Agent)
    → Steps Same (start_role policy existing agent)
unfolding start_role
start_role-Same policy existing none = search same_rules
start_role-Same policy existing (some a) = search (same_rules, check_role-Same)

pub start_policy-Same :
    (policy : PolicyConfig) (existing : TaskRecord) (agent : Option String)
    → Steps Same (start_policy policy existing agent)
unfolding start_policy
start_policy-Same policy existing none = search same_rules
start_policy-Same policy existing (some id) =
    search (same_rules, start_role-Same, check_single-Same) depth 12

pub next_owner-Same :
    (action : TransitionAction) (clears : Bool) (actor : Option String) (existing : TaskRecord)
    → Steps Same (next_owner action clears actor existing)
unfolding next_owner
next_owner-Same action clears none existing = search same_rules
next_owner-Same action clears (some a) existing = search same_rules

-- The owner after a transition.
unfoldable pub owner_after : TransitionAction → Bool → Option String → Option String → Option String
owner_after action clears actor owner =
    if is_claim action then actor else if clears then none else owner

next_owner-eq-ok :
    (action : TransitionAction) (clears : Bool) (actor : Option String) (existing : TaskRecord)
    (s : Store) (owner : Option String) (t : Store)
    → next_owner action clears actor existing s ≡ ok (owner, t)
    → owner ≡ owner_after action clears actor existing.owner_agent_id
unfolding next_owner owner_after ◌>>=◌
next_owner-eq-ok action clears none existing s owner t h = ground (arith, h)
next_owner-eq-ok action clears (some a) existing s owner t h = ground (arith, h)

outcome-eq-ok :
    (o : TransitionOutcome) (r : TaskStatus × Bool × List String) (s t : Store)
    → lift (allowed_result o) s ≡ ok (r, t)
    → o ≡ allowed r.0 r.1 r.2
unfolding allowed_result ◌>>=◌
outcome-eq-ok (allowed a b c) (x, y, z) s t h = ground (arith, h)
outcome-eq-ok (denied e) r s t h = cc

-- What a transition decided and wrote.
pub record Written (req : Request) (actor : Option String) (existing : TaskRecord) (s : Store)
    (updated : TaskRecord) (warnings : List String) : Type 0 where
  pub clears : Bool
  pub decided :
      evaluate_transition existing.status req.action
        (facts_of s existing actor req.strict_completion req.reason)
      ≡ allowed updated.status clears warnings
  pub same_task : updated.id ≡ existing.id
  pub owner : updated.owner_agent_id ≡ owner_after req.action clears actor existing.owner_agent_id

write_status-eq-ok :
    (req : Request) (env : Env) (actor : Option String) (existing : TaskRecord)
    (status : TaskStatus) (clears : Bool) (warnings : List String) (s : Store)
    (updated : TaskRecord) (t : Store)
    → write_status req env actor existing (status, clears, warnings) s ≡ ok (updated, t)
    → (updated.id ≡ existing.id)
      × (updated.status ≡ status)
      × (updated.owner_agent_id ≡ owner_after req.action clears actor existing.owner_agent_id)
unfolding write_status
write_status-eq-ok req env actor existing status clears warnings s updated t h =
    let (owner, owned, h1) =
      skip (next_owner req.action clears actor existing) _ s updated t
        (next_owner-Same req.action clears actor existing) h in
    let (row, s1, wrote, h2) =
      >>=-eq-ok (update_status existing.id status owner env.now) _ s updated t h1 in
    let (_, s2, _, last) = >>=-eq-ok (append_event _) (λ _. return row) s1 updated t h2 in
    let same = (return-eq-ok row updated s2 t last).0 in
    let (i, st, o) = update_status-eq-ok existing.id status owner env.now s row s1 wrote in
    (
      ap (λ r. r.id) (sym same) ∙ i,
      ap (λ r. r.status) (sym same) ∙ st,
      ap (λ r. r.owner_agent_id) (sym same)
          ∙ o
          ∙ next_owner-eq-ok req.action clears actor existing s owner s owned,
    )

transition_existing-Written :
    (req : Request) (env : Env) (actor : Option String) (existing : TaskRecord) (s t : Store)
    (updated : TaskRecord) (warnings : List String) (cleanup : Option String)
    → transition_existing req env actor existing s ≡ ok ((updated, warnings, cleanup), t)
    → Written req actor existing s updated warnings
unfolding transition_existing
transition_existing-Written req env actor existing s t updated warnings cleanup h =
    let policy = start_policy req.policy existing (or_else existing.owner_agent_id actor) in
    let (_, _, h1) =
      skip (if is_start req.action then policy else return tt) _ s _ t
        (Steps-if Same-IsOrder (is_start req.action) policy (return tt)
          (start_policy-Same req.policy existing (or_else existing.owner_agent_id actor))
          (Steps-return Same-IsOrder tt))
        h in
    let (facts, got, h2) = skip (gets _) _ s _ t (Steps-gets Same-IsOrder _) h1 in
    let (outcome, decision, h3) = skip (lift _) _ s _ t (Steps-lift Same-IsOrder _) h2 in
    let (row, s1, wrote, h4) = >>=-eq-ok (write_status req env actor existing outcome) _ s _ t h3 in
    let (id, s2, _, h5) = >>=-eq-ok (maybe_cleanup req.cleanup_config env row actor) _ s1 _ t h4 in
    let (_, s3, _, last) = >>=-eq-ok (promote_dependents env actor row) _ s2 _ t h5 in
    let same = (return-eq-ok (row, outcome.2, id) (updated, warnings, cleanup) s3 t last).0 in
    let (i, st, o) =
      write_status-eq-ok req env actor existing outcome.0 outcome.1 outcome.2 s row s1 wrote in
    let row_is = ap (λ x. x.0) same in
    record {
      clears = outcome.1;
      decided =
          ap (evaluate_transition existing.status req.action) (
            gets-eq-ok (λ x. facts_of x existing actor req.strict_completion req.reason) facts s s
              got)
          ∙ outcome-eq-ok (evaluate_transition existing.status req.action facts) outcome s s
              decision
          ∙ (λ k. allowed ((sym st ∙ ap (λ r. r.status) row_is) k) outcome.1 (same k).1);
      same_task = ap (λ r. r.id) (sym row_is) ∙ i;
      owner = ap (λ r. r.owner_agent_id) (sym row_is) ∙ o;
    }

-- A transition that succeeds resolved its task without changing a row, and the row that it returns has
-- the status and the owner that the transition function answers on the facts of the database at that
-- moment, the actor as the owner after a claim, and the warnings that function gives.
pub transition_task-Written :
    (ref : String) (req : Request) (actor_ref : Option String) (env : Env) (s t : Store)
    (updated : TaskRecord) (warnings : List String) (cleanup : Option String)
    → transition_task ref req actor_ref env s ≡ ok ((updated, warnings, cleanup), t)
    → (existing : TaskRecord) × (resolve_task ref s ≡ ok (existing, s))
      × Written req (canonical_actor_id s actor_ref) existing s updated warnings
unfolding transition_task
transition_task-Written ref req actor_ref env s t updated warnings cleanup h =
    let (actor, is_actor, h1) = skip (gets _) _ s _ t (Steps-gets Same-IsOrder _) h in
    let (existing, is_task, h2) = skip (resolve_task ref) _ s _ t (resolve_task-Same ref) h1 in
    (
      existing,
      is_task,
      subst (λ a. Written req a existing s updated warnings)
          (sym (gets-eq-ok (λ x. canonical_actor_id x actor_ref) actor s s is_actor))
          (transition_existing-Written req env actor existing s t updated warnings cleanup h2),
    )
