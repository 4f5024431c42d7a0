-- ===== src/Operations/History.antt =====
-- Sequences of commands against one database: each command runs in a unit of work of
-- crates/carryctx-sqlite/src/unit_of_work.rs, which commits what a use case returns and rolls back
-- when it fails.
use carryctx.Base.{◌≡◌, ◌++◌, String, Option, List, [], ◌∷◌, ◌≡◌, refl, Result, ok, err}
use carryctx.Error.{CarryCtxError}
use carryctx.Dependency.{DependencyKind}
use carryctx.Store.Rows.{ids}
use carryctx.Dependency.Walk.{Acyclic}
use carryctx.Store.{Event, list_all_for_project, Store, Op}
use carryctx.Store.Steps.{Steps}
use carryctx.Operations.{Env}
use carryctx.Operations.Claim.{PolicyConfig, claim_task}
use carryctx.Operations.Transition.{Request, transition_task}
use carryctx.Operations.Depend.{add_dependency, remove_dependency}
use carryctx.Operations.Create.{Creation, create_task}
use carryctx.Operations.Create.Created.{create_task-Steps}
use carryctx.Operations.Edit.{Edit, edit_task}
use carryctx.Operations.Conserve.{Conserves, Conserves-IsOrder}
use carryctx.Operations.Conserve.UseCases.{
  claim_task-Steps, transition_task-Steps, add_dependency-Steps, remove_dependency-Steps,
  edit_task-Steps,
}

pub data Command : Type 0 where
  claim : String → String → PolicyConfig → Command
  transition : String → Request → Option String → Command
  depend : String → String → DependencyKind → Option String → Command
  undepend : String → String → Option String → Command
  create : Creation → (String → String) → Command
  amend : String → Edit → Option String → Command

-- The rows that a result leaves: a failed unit of work leaves those it began with.
abbrev pub settle : {A : Type 0} → Store → Result CarryCtxError (A × Store) → Store
settle s (ok r) = r.1
settle s (err e) = s

unfoldable pub execute : Store → Command × Env → Store
execute s (claim ref agent policy, env) = settle s (claim_task ref agent policy env s)
execute s (transition ref req actor, env) = settle s (transition_task ref req actor env s)
execute s (depend task prerequisite kind actor, env) =
    settle s (add_dependency task prerequisite kind actor env s)
execute s (undepend task prerequisite actor, env) =
    settle s (remove_dependency task prerequisite actor env s)
execute s (create input edge_id, env) = settle s (create_task input env edge_id s)
execute s (amend ref edit actor, env) = settle s (edit_task ref edit actor env s)

unfoldable pub run : Store → List (Command × Env) → Store
run s [] = s
run s (c ∷ cs) = run (execute s c) cs

settle-Conserves :
    {A : Type 0} (m : Op A) (s : Store) → Steps Conserves m → Conserves s (settle s (m s))
settle-Conserves m s k = by_result (m s) refl
  where
    by_result : (r : Result CarryCtxError (_ × Store)) → m s ≡ r → Conserves s (settle s r)
    by_result (ok (a, t)) e = k.at s a t e
    by_result (err x) e = Conserves-IsOrder.refl_at s

execute-Conserves : (s : Store) (c : Command × Env) → Conserves s (execute s c)
unfolding execute
execute-Conserves s (claim ref agent policy, env) =
    settle-Conserves (claim_task ref agent policy env) s (claim_task-Steps ref agent policy env)
execute-Conserves s (transition ref req actor, env) =
    settle-Conserves (transition_task ref req actor env) s (transition_task-Steps ref req actor env)
execute-Conserves s (depend task prerequisite kind actor, env) =
    settle-Conserves (add_dependency task prerequisite kind actor env) s
      (add_dependency-Steps task prerequisite kind actor env)
execute-Conserves s (undepend task prerequisite actor, env) =
    settle-Conserves (remove_dependency task prerequisite actor env) s
      (remove_dependency-Steps task prerequisite actor env)
execute-Conserves s (create input edge_id, env) =
    settle-Conserves (create_task input env edge_id) s (create_task-Steps input env edge_id)
execute-Conserves s (amend ref edit actor, env) =
    settle-Conserves (edit_task ref edit actor env) s (edit_task-Steps ref edit actor env)

run-Conserves : (s : Store) (cs : List (Command × Env)) → Conserves s (run s cs)
unfolding run
run-Conserves s [] = Conserves-IsOrder.refl_at s
run-Conserves s (c ∷ cs) =
    Conserves-IsOrder.trans_at s (execute s c) (run (execute s c) cs) (execute-Conserves s c)
      (run-Conserves (execute s c) cs)

-- After any commands, failed ones among them, the earlier events stand unchanged before the new ones, and
-- the project has the tasks it had, in the same order, behind the new ones.
pub keeps-run :
    (s : Store) (cs : List (Command × Env))
    → ((new : List Event) × ((run s cs).events ≡ s.events ++ new))
      × ((new : List String) × (ids (run s cs).tasks ≡ new ++ ids s.tasks))
keeps-run s cs = ((run-Conserves s cs).log, (run-Conserves s cs).tasks)

-- After any commands, failed ones among them, a dependency graph without cycles still has none.
pub run-Acyclic :
    (s : Store) (cs : List (Command × Env))
    → Acyclic (list_all_for_project s)
    → Acyclic (list_all_for_project (run s cs))
run-Acyclic s cs h = (run-Conserves s cs).acyclic h
