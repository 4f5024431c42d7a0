-- ===== src/Operations/Conserve/Rules.antt =====
-- Each statement conserves, one lemma for each.
use carryctx.Base.{
  String, Bool, not, Option, List, [], ◌∷◌, ◌++◌, map, ◌≡◌, refl, sym, subst, arith, ok, In, inl,
  inr, Bool-cases, keep, ◌==◌, ⊎_elim,
}
use carryctx.Task.{TaskStatus, TaskPriority}
use carryctx.Dependency.{DependencyEdge, validate_dependency_edge}
use carryctx.Dependency.Acyclic.{validate_dependency_edge-Acyclic}
use carryctx.Dependency.Monotone.{Acyclic-mono}
use carryctx.Cleanup.{CleanupRequest}
use carryctx.Store.{
  Store, TaskRecord, DependencyRow, Tombstone, Event, ◌>>=◌, list_all_for_project, update_where,
  with_status, update_status, claimable, claimed_row, update_status_if_ready_unowned, append_event,
  create_cleanup, edited_row, edit_row, add_edge, remove_edge, is_edge,
}
use carryctx.Store.Rows.{ids, ids-update_where, id-with_status}
use carryctx.Store.Steps.{Steps}
use carryctx.Operations.{Env, resolve_task, resolve_agent_id}
use carryctx.Operations.Depend.{link, cycle_error}
use carryctx.Operations.Conserve.{Conserves, Conserves-IsOrder}
use mathlib.Core.List.{append-nil, map-append}
open Conserves-IsOrder use {refl_at}

-- New task rows with the same ids.
tasks_written :
    (s : Store) (tasks : List TaskRecord)
    → ids tasks ≡ ids s.tasks
    → Conserves s (record s { tasks = tasks })
unfolding list_all_for_project
tasks_written s tasks h = record {
  log = ([], sym (append-nil s.events));
  tasks = ([], h);
  acyclic = λ a. a;
}

pub update_status-Steps :
    (id : String) (status : TaskStatus) (owner : Option String) (now : String)
    → Steps Conserves (update_status id status owner now)
unfolding update_status
update_status-Steps id status owner now = record {
  at = λ s a t h.
      let written = update_where (λ r. r.id == id) (with_status status owner now) s.tasks in
      subst (Conserves s) (ground (arith, h)) (
        tasks_written s written (
          ids-update_where (λ r. r.id == id) (with_status status owner now) s.tasks
            (id-with_status status owner now)));
}

pub update_status_if_ready_unowned-Steps :
    (id owner now : String) → Steps Conserves (update_status_if_ready_unowned id owner now)
unfolding update_status_if_ready_unowned
update_status_if_ready_unowned-Steps id owner now = record {
  at = λ s a t h.
      let written = update_where (claimable id) (claimed_row owner now) s.tasks in
      subst (Conserves s) (ground (arith, h)) (
        tasks_written s written
          (ids-update_where (claimable id) (claimed_row owner now) s.tasks (λ r. refl)));
}

event_written : (s : Store) (e : Event) → Conserves s (record s { events = s.events ++ e ∷ [] })
unfolding list_all_for_project
event_written s e = record { log = (e ∷ [], refl); tasks = ([], refl); acyclic = λ a. a }

pub append_event-Steps : (e : Event) → Steps Conserves (append_event e)
unfolding append_event
append_event-Steps e = record {
  at = λ s a t h. subst (Conserves s) (ground (arith, h)) (event_written s e);
}

requests_written :
    (s : Store) (l : List CleanupRequest) → Conserves s (record s { cleanup_requests = l })
unfolding list_all_for_project
requests_written s l = record {
  log = ([], sym (append-nil s.events));
  tasks = ([], refl);
  acyclic = λ a. a;
}

pub create_cleanup-Steps : (r : CleanupRequest) → Steps Conserves (create_cleanup r)
unfolding create_cleanup
create_cleanup-Steps r = record {
  at = λ s a t h.
      subst (Conserves s) (ground (arith, h)) (requests_written s (r ∷ s.cleanup_requests));
}

pub resolve_task-Steps : (ref : String) → Steps Conserves (resolve_task ref)
unfolding resolve_task
resolve_task-Steps ref = record {
  at = λ s a t h. subst (Conserves s) (ground (arith, h)) (refl_at s);
}

pub resolve_agent_id-Steps : (ref : String) → Steps Conserves (resolve_agent_id ref)
unfolding resolve_agent_id
resolve_agent_id-Steps ref = record {
  at = λ s a t h. subst (Conserves s) (ground (arith, h)) (refl_at s);
}

kept_edges :
    (p : DependencyRow → Bool) (rows : List DependencyRow) (e : DependencyEdge)
    → In e (map (λ r. r.edge) (keep p rows))
    → In e (map (λ r. r.edge) rows)
kept_edges p [] e m = m
kept_edges p (r ∷ rows) e m = elim (Bool-cases (p r)) [
  | inl hit ↦ ⊎_elim inl (λ later. inr (kept_edges p rows e later)) (rw (hit, ◌≡◌) at m)
  | inr miss ↦ inr (kept_edges p rows e (rw miss at m))
]

removed :
    (s : Store) (p : DependencyRow → Bool) (l : List Tombstone)
    → Conserves s (record s { dependencies = keep p s.dependencies; tombstones = l })
unfolding list_all_for_project
removed s p l = record {
  log = ([], sym (append-nil s.events));
  tasks = ([], refl);
  acyclic =
      Acyclic-mono (map (λ r. r.edge) (keep p s.dependencies)) (map (λ r. r.edge) s.dependencies)
        (kept_edges p s.dependencies);
}

pub remove_edge-Steps :
    (task prerequisite now : String) → Steps Conserves (remove_edge task prerequisite now)
unfolding remove_edge
remove_edge-Steps task prerequisite now = record {
  at = λ s a t h.
      subst (Conserves s) (ground (arith, h))
        (removed s (λ r. not (is_edge task prerequisite r)) t.tombstones);
}

added :
    (s : Store) (id : String) (e : DependencyEdge)
    → validate_dependency_edge (list_all_for_project s) e.task_id e.prerequisite_id ≡ ok tt
    → Conserves s (record s { dependencies = s.dependencies ++ record { id = id; edge = e } ∷ [] })
unfolding list_all_for_project
added s id e h = record {
  log = ([], sym (append-nil s.events));
  tasks = ([], refl);
  acyclic = λ a.
      rw map-append (validate_dependency_edge-Acyclic (map (λ r. r.edge) s.dependencies) e a h);
}

pub link-Steps : (env : Env) (e : DependencyEdge) → Steps Conserves (link env e)
unfolding link ◌>>=◌ cycle_error add_edge
link-Steps env e = record {
  at =
      λ s a t h. subst (Conserves s) (ground (arith, h)) (added s env.new_id e (ground (arith, h)));
}

pub edit_row-Steps :
    (id title : String) (priority : TaskPriority) (description required_role : Option String)
    (now : String)
    → Steps Conserves (edit_row id title priority description required_role now)
unfolding edit_row edited_row
edit_row-Steps id title priority description required_role now = record {
  at = λ s a t h.
      let write = edited_row title priority description required_role now in
      let written = update_where (λ r. r.id == id) write s.tasks in
      subst (Conserves s) (ground (arith, h))
        (tasks_written s written (ids-update_where (λ r. r.id == id) write s.tasks (λ r. refl)));
}
