-- ===== src/Operations/Transition/Others.antt =====
-- What a transition does to the tasks beside the one that it is about.
use carryctx.Base.{String, Bool, Option, none, some, List, ◌≡◌, ◌≢◌, ◌⊎◌, ap, arith, ok}
use carryctx.Operations.Claim.{PolicyConfig}
use carryctx.Task.{TransitionAction, TaskStatus}
use carryctx.Cleanup.{CleanupRequest}
use carryctx.Store.{Store, TaskRecord, WorktreeRow, Op, gets, find_by_id}
use carryctx.Store.Same.{Same, Same-IsOrder, skip}
use carryctx.Operations.{Env, resolve_task}
use carryctx.Operations.Reads.{resolve_task-Same}
use carryctx.Operations.Transition.Written.{start_policy-Same, next_owner-Same}
use carryctx.Operations.Transition.{
  Request, WorktreeCleanupConfig, promote_dependents, maybe_cleanup, enqueue_cleanup,
  reuse_or_create, write_status, transition_existing, transition_task, start_policy, next_owner,
}
use carryctx.Store.Steps.{Steps, Steps-gets, steps_rules}
use carryctx.Operations.Transition.Relation.{
  Promoted, Others, Others-IsOrder, same_tasks, append_event-Others, create_cleanup-Others,
  update_status-Others,
}
use carryctx.Operations.Transition.Promotion.{promote_all-Others}

ruleset others_rules = (
  steps_rules, Others-IsOrder, append_event-Others, create_cleanup-Others, update_status-Others,
  promote_all-Others,
)

promote_dependents-Others :
    (but : String) (env : Env) (actor : Option String) (updated : TaskRecord)
    → Steps (Others but) (promote_dependents env actor updated)
unfolding promote_dependents
promote_dependents-Others but env actor updated = search others_rules depth 9

reuse_or_create-Others :
    (but : String) (env : Env) (updated : TaskRecord) (actor : Option String) (w : WorktreeRow)
    (old : Option CleanupRequest)
    → Steps (Others but) (reuse_or_create env updated actor w old)
unfolding reuse_or_create
reuse_or_create-Others but env updated actor w none = search others_rules depth 16
reuse_or_create-Others but env updated actor w (some r) = search others_rules

enqueue_cleanup-Others :
    (but : String) (env : Env) (updated : TaskRecord) (actor : Option String)
    (w : Option WorktreeRow)
    → Steps (Others but) (enqueue_cleanup env updated actor w)
unfolding enqueue_cleanup
enqueue_cleanup-Others but env updated actor none = search others_rules
enqueue_cleanup-Others but env updated actor (some w) =
    search (others_rules, reuse_or_create-Others) depth 9

maybe_cleanup-Others :
    (but : String) (config : WorktreeCleanupConfig) (env : Env) (updated : TaskRecord)
    (actor : Option String)
    → Steps (Others but) (maybe_cleanup config env updated actor)
unfolding maybe_cleanup
maybe_cleanup-Others but config env updated actor =
    search (others_rules, enqueue_cleanup-Others) depth 12

-- What leaves the rows as they are leaves the other tasks too.
Same-Others : {A : Type 0} (but : String) (m : Op A) → Steps Same m → Steps (Others but) m
Same-Others but m k = record {
  at = λ s a t h. same_tasks but s t (ap (λ x. x.tasks) (k.at s a t h).same);
}

next_owner-Others :
    (but : String) (action : TransitionAction) (clears : Bool) (actor : Option String)
    (existing : TaskRecord)
    → Steps (Others but) (next_owner action clears actor existing)
next_owner-Others but action clears actor existing =
    Same-Others but (next_owner action clears actor existing)
      (next_owner-Same action clears actor existing)

start_policy-Others :
    (but : String) (policy : PolicyConfig) (existing : TaskRecord) (agent : Option String)
    → Steps (Others but) (start_policy policy existing agent)
start_policy-Others but policy existing agent =
    Same-Others but (start_policy policy existing agent) (start_policy-Same policy existing agent)

write_status-Others :
    (req : Request) (env : Env) (actor : Option String) (existing : TaskRecord)
    (outcome : TaskStatus × Bool × List String)
    → Steps (Others existing.id) (write_status req env actor existing outcome)
unfolding write_status
write_status-Others req env actor existing outcome =
    search (others_rules, next_owner-Others) depth 16

transition_existing-Others :
    (req : Request) (env : Env) (actor : Option String) (existing : TaskRecord)
    → Steps (Others existing.id) (transition_existing req env actor existing)
unfolding transition_existing
transition_existing-Others req env actor existing =
    search
      (
        others_rules, start_policy-Others, write_status-Others, maybe_cleanup-Others,
        promote_dependents-Others,
      )
      depth 30

-- A transition that succeeds leaves every task but the one that its reference resolves to as it was, or
-- promotes it from planned to ready without an owner.
pub find_by_id-transition_task :
    (ref : String) (req : Request) (actor_ref : Option String) (env : Env) (s t : Store)
    (result : TaskRecord × List String × Option String) (existing : TaskRecord) (id : String)
    → transition_task ref req actor_ref env s ≡ ok (result, t)
    → resolve_task ref s ≡ ok (existing, s)
    → id ≢ existing.id
    → (find_by_id s.tasks id ≡ find_by_id t.tasks id)
      ⊎ Promoted (find_by_id s.tasks id) (find_by_id t.tasks id)
unfolding transition_task
find_by_id-transition_task ref req actor_ref env s t result existing id h found ne =
    let (actor, _, h1) = skip (gets _) _ s result t (Steps-gets Same-IsOrder _) h in
    let (task, is_task, h2) = skip (resolve_task ref) _ s result t (resolve_task-Same ref) h1 in
    let same : task ≡ existing = ground (arith, is_task, found) in
    ((transition_existing-Others req env actor task).at s result t h2).task id (rw same ne)
