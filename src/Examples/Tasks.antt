-- ===== src/Examples/Tasks.antt =====
-- The theorems on the task operations, at the project of the test data.
use carryctx.Base.{
  In, ◌↔◌, List, ◌⊎◌, eq_iff, ◌++◌, String, map, none, some, [], ◌∷◌, ◌≡◌, refl, ok, false,
}
use carryctx.Task.{
  ready, planned, cancelled, cancel, normal, evaluate_transition, allowed_result,
  TaskStatus-discrete, TaskStatus,
}
use mathlib.Core.Bool.{decide}
use carryctx.Store.{
  created, dependency_added, find_by_id, edited, Event, list_all_for_project, Store, TaskRecord,
  claimed_row, claimed, ◌>>=◌, list_incomplete_strong_dependencies, update_status_if_ready_unowned,
  append_event, update_where, update_status, with_status, transitioned,
}
use carryctx.Operations.Transition.{
  Request, transition_task, transition_existing, write_status, promote_dependents, maybe_cleanup,
  facts_of, next_owner, past_tense, forced_flag,
}
use carryctx.Operations.Transition.Relation.{Promoted}
use carryctx.Operations.Transition.Others.{find_by_id-transition_task}
use carryctx.Operations.Transition.Written.{Written, transition_task-Written}
use carryctx.Operations.{canonical_actor_id, resolve_task, resolve_agent_id}
use carryctx.Operations.Claim.{claim_task, claim_steps, check_role, check_single, other_in_progress}
use carryctx.Operations.Claim.Exclusive.{Claimed, claim_task-Claimed}
use carryctx.Operations.History.{run, claim, depend, keeps-run, run-Acyclic}
use carryctx.Dependency.{strong, validate_dependency_edge, would_create_cycle}
use carryctx.Dependency.Walk.{Acyclic}
use carryctx.Dependency.Acyclic.{validate_dependency_edge-Acyclic}
use carryctx.Store.Rows.{ids}
use carryctx.Operations.Create.{Creation, create_task, resolve_all}
use carryctx.Operations.Create.Born.{Born, create_task-Born}
use carryctx.Operations.Edit.{Edit, edit_task}
use carryctx.Operations.Edit.Authorized.{Edited, edit_task-Edited}
use carryctx.Examples.{design, build, project, env, policy}

abbrev design_claimed : TaskRecord
design_claimed = claimed_row "a1" "t1" design

abbrev project_claimed : Store
project_claimed = record project {
  tasks = design_claimed ∷ build ∷ [];
  events =
      record {
        event_type = "task.claimed";
        actor_agent_id = some "a1";
        task_id = "01A";
        payload = claimed "01A" "a1";
        occurred_at = "t1";
      }
      ∷ [];
}

claim_runs : claim_task "CTX-1" "ada" policy env project ≡ ok (design_claimed, project_claimed)
unfolding claim_task ◌>>=◌ resolve_agent_id resolve_task claim_steps check_role check_single
    other_in_progress decide TaskStatus-discrete list_incomplete_strong_dependencies
    update_status_if_ready_unowned append_event update_where
claim_runs = refl

claim_task-Claimed_example :
    (actor : String) × (existing : TaskRecord) × (resolve_agent_id "ada" project
      ≡ ok (actor, project))
    × (resolve_task "CTX-1" project ≡ ok (existing, project))
    × Claimed actor existing project design_claimed project_claimed
claim_task-Claimed_example =
    claim_task-Claimed "CTX-1" "ada" policy env project project_claimed design_claimed
      (refl, (refl, tt)) claim_runs

keeps-run_example :
    ((new : List Event) × ((run project ((claim "CTX-1" "ada" policy, env) ∷ [])).events
        ≡ project.events ++ new))
    × ((new : List String) × (ids (run project ((claim "CTX-1" "ada" policy, env) ∷ [])).tasks
          ≡ new ++ ids project.tasks))
keeps-run_example = keeps-run project ((claim "CTX-1" "ada" policy, env) ∷ [])

accepted : validate_dependency_edge [] "01B" "01A" ≡ ok tt
unfolding validate_dependency_edge would_create_cycle
accepted = refl

one_edge : Acyclic (list_all_for_project project)
unfolding list_all_for_project
one_edge =
    validate_dependency_edge-Acyclic []
      (record { task_id = "01B"; prerequisite_id = "01A"; kind = strong })
      (λ u v (e, m, p, q) r. absurd m) accepted

run-Acyclic_example :
    Acyclic (list_all_for_project (run project ((depend "CTX-1" "CTX-2" strong none, env) ∷ [])))
run-Acyclic_example = run-Acyclic project ((depend "CTX-1" "CTX-2" strong none, env) ∷ []) one_edge

abbrev cancellation : Request
cancellation = record {
  action = cancel;
  reason = some "dropped";
  strict_completion = false;
  cleanup_config = record { on_task_completed = "keep"; on_task_cancelled = "keep" };
  policy = policy;
}

abbrev design_cancelled : TaskRecord
design_cancelled = record design { status = cancelled; updated_at = "t1" }

abbrev project_cancelled : Store
project_cancelled = record project {
  tasks = design_cancelled ∷ build ∷ [];
  events =
      record {
        event_type = "task.cancelled";
        actor_agent_id = none;
        task_id = "01A";
        payload = transitioned "01A" ready cancelled (some "dropped") none;
        occurred_at = "t1";
      }
      ∷ [];
}

cancel_runs :
    transition_task "CTX-1" cancellation none env project
    ≡ ok ((design_cancelled, [], none), project_cancelled)
unfolding transition_task transition_existing write_status promote_dependents maybe_cleanup
    evaluate_transition ◌>>=◌ resolve_task canonical_actor_id facts_of next_owner update_status
    with_status append_event past_tense forced_flag allowed_result decide TaskStatus-discrete
    update_where
cancel_runs = refl

transition_task-Written_example :
    (existing : TaskRecord) × (resolve_task "CTX-1" project ≡ ok (existing, project))
    × Written cancellation (canonical_actor_id project none) existing project design_cancelled []
transition_task-Written_example =
    transition_task-Written "CTX-1" cancellation none env project project_cancelled design_cancelled
      [] none cancel_runs

resolves : resolve_task "CTX-1" project ≡ ok (design, project)
unfolding resolve_task
resolves = refl

find_by_id-transition_task_example :
    (find_by_id project.tasks "01B" ≡ find_by_id project_cancelled.tasks "01B")
    ⊎ Promoted (find_by_id project.tasks "01B") (find_by_id project_cancelled.tasks "01B")
find_by_id-transition_task_example =
    find_by_id-transition_task "CTX-1" cancellation none env project project_cancelled
      (design_cancelled, [], none) design "01B" cancel_runs resolves
      (λ e. cc ((eq_iff "01B" "01A").1 e))

abbrev retitle : Edit
retitle = record {
  title = some " Design the store ";
  priority = none;
  description = none;
  required_role = none;
  force = false;
}

abbrev design_edited : TaskRecord
design_edited = record design { title = "Design the store"; updated_at = "t1" }

abbrev project_edited : Store
project_edited = record project {
  tasks = design_edited ∷ build ∷ [];
  events =
      record {
        event_type = "task.edited";
        actor_agent_id = some "a1";
        task_id = "01A";
        payload = edited design design_edited false;
        occurred_at = "t1";
      }
      ∷ [];
}

edit_runs : edit_task "CTX-1" retitle (some "ada") env project ≡ ok (design_edited, project_edited)
unfolding edit_task ◌>>=◌ carryctx.Operations.Edit.check_title carryctx.Base.trim resolve_task
    carryctx.Operations.Edit.edit_existing carryctx.Task.is_terminal
    carryctx.Operations.Edit.authorize carryctx.Operations.Edit.write_edit carryctx.Store.edit_row
    update_where carryctx.Store.edited_row append_event canonical_actor_id
edit_runs = refl

edit_task-Edited_example :
    (existing : TaskRecord) × (resolve_task "CTX-1" project ≡ ok (existing, project))
    × Edited retitle env existing design_edited project project_edited
edit_task-Edited_example =
    edit_task-Edited "CTX-1" retitle (some "ada") env project project_edited design_edited
      (refl, (refl, tt)) edit_runs

abbrev follow_up : Creation
follow_up = record {
  title = "Review the store";
  description = none;
  prefix = none;
  status = none;
  priority = none;
  owner_agent_id = none;
  required_role = none;
  team_id = none;
  depends_on = "CTX-2" ∷ [];
  actor_agent_id = some "ada";
}

abbrev follow_up_task : TaskRecord
follow_up_task = record {
  id = "n1";
  display_id = "CTX-0001";
  title = "Review the store";
  description = none;
  status = planned;
  priority = normal;
  owner_agent_id = none;
  parent_task_id = none;
  created_at = "t1";
  updated_at = "t1";
  started_at = none;
  completed_at = none;
  required_role = none;
  team_id = none;
}

abbrev project_grown : Store
project_grown = record project {
  sequences = ("display_id_CTX", 2) ∷ [];
  tasks = follow_up_task ∷ design ∷ build ∷ [];
  dependencies =
      project.dependencies
      ++ record {
        id = "01B";
        edge = record { task_id = "n1"; prerequisite_id = "01B"; kind = strong };
      }
        ∷ [];
  events =
      record {
        event_type = "task.created";
        actor_agent_id = some "a1";
        task_id = "n1";
        payload = created follow_up_task;
        occurred_at = "t1";
      }
      ∷ record {
        event_type = "task.dependency_added";
        actor_agent_id = some "a1";
        task_id = "n1";
        payload = dependency_added "n1" "01B" strong;
        occurred_at = "t1";
      }
      ∷ [];
}

-- The new task waits for its prerequisite, and the edge is stored.
creation_runs : create_task follow_up env (λ id. id) project ≡ ok (follow_up_task, project_grown)
unfolding create_task ◌>>=◌ carryctx.Operations.Create.prepare carryctx.Base.trim
    carryctx.Operations.Create.validate_text_lengths carryctx.Operations.Create.check_prefix
    resolve_all resolve_task carryctx.Operations.Create.check_edges
    carryctx.Operations.Depend.cycle_error validate_dependency_edge would_create_cycle
    list_all_for_project carryctx.Operations.Create.finish_create carryctx.Task.prerequisite_settled
    carryctx.Store.allocate_display_id carryctx.Store.bump carryctx.Store.next_value
    carryctx.Operations.Create.resolve_optional carryctx.Operations.Create.resolve_team
    carryctx.Operations.Create.write_task carryctx.Store.insert_task append_event
    carryctx.Operations.Create.link_all carryctx.Operations.Create.link_new carryctx.Store.add_edge
    carryctx.Ids.format_display_id resolve_agent_id carryctx.Task.initial_status
creation_runs = refl

create_task-Born_example :
    (ps : List TaskRecord) × (resolve_all ("CTX-2" ∷ []) project ≡ ok (ps, project))
    × Born follow_up env ps follow_up_task project project_grown
create_task-Born_example =
    create_task-Born follow_up env (λ id. id) project follow_up_task project_grown creation_runs
