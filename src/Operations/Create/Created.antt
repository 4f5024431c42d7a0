-- ===== src/Operations/Create/Created.antt =====
-- `create_task` as a whole: what it checks before it writes, and what it conserves.
use carryctx.Base.{
  String, Bool, Option, List, [], ◌∷◌, ◌≡◌, refl, sym, ap, ◌∙◌, subst, arith, ok, err, Result,
}
use carryctx.Dependency.{DependencyEdge, validate_dependency_edge, strong}
use carryctx.Dependency.Walk.{Acyclic, Reach}
use carryctx.Dependency.Search.{validate_dependency_edge_iff}
use carryctx.Store.{Store, TaskRecord, insert_task, ◌>>=◌, ◌>>◌, return, list_all_for_project}
use carryctx.Store.Steps.{
  Steps, Steps-bind, steps_rules, >>=-eq-ok, return-eq-ok, gets-eq-ok, Steps-require, Steps-lift,
  Steps-gets,
}
use carryctx.Store.Same.{Same-IsOrder, skip}
use carryctx.Ids.{format_display_id}
use carryctx.Operations.{Env}
use carryctx.Operations.Depend.{cycle_error}
use carryctx.Operations.Conserve.{Conserves}
use carryctx.Operations.Create.{
  Creation, check_edges, prepare, link_new, link_all, write_task, finish_create, create_task, born,
  or_default, all_settled,
}
use carryctx.Operations.Create.Edges.{Acyclic-append}
use carryctx.Operations.Create.Grows.{
  Grows, Grows-IsOrder, Grows-Same, allocate-Grows, insert_task-Grows, append_event-Grows,
  add_edge-Grows, resolve_team-Same, resolve_optional-Same, resolve_all-Same, check_edges-Same,
}

-- No prerequisite leads to the task.
abbrev NoWay : List DependencyEdge → String → List TaskRecord → Type 0
NoWay edges task [] = Unit
NoWay edges task (p ∷ ps) = (¬ Reach edges p.id task) × NoWay edges task ps

cycle_error-eq-ok :
    (r : Result String (Unit {0})) (s : Store) (u : Unit {0}) (t : Store)
    → cycle_error r s ≡ ok (u, t)
    → r ≡ ok tt
unfolding cycle_error ◌>>=◌
cycle_error-eq-ok (ok u) s v t h = refl
cycle_error-eq-ok (err x) s v t h = cc

checked :
    (edges : List DependencyEdge) (task : String) (ps : List TaskRecord) (s : Store) (u : Unit {0})
    (t : Store)
    → check_edges edges task ps s ≡ ok (u, t)
    → NoWay edges task ps
unfolding check_edges
checked edges task [] s u t h = tt
checked edges task (p ∷ ps) s u t h =
    let r = validate_dependency_edge edges task p.id in
    let (v, s', first, rest) = >>=-eq-ok (cycle_error r) (λ _. check_edges edges task ps) s u t h in
    (
      (validate_dependency_edge_iff edges task p.id).0 (cycle_error-eq-ok r s v s' first),
      checked edges task ps s' u t rest,
    )

-- The preparation leaves the rows as they are, and no prerequisite that it answers leads to the task.
prepared :
    (input : Creation) (task : String) (s : Store) (ps : List TaskRecord) (t : Store)
    → prepare input task s ≡ ok (ps, t)
    → (s ≡ t) × NoWay (list_all_for_project s) task ps
unfolding prepare
prepared input task s ps t h =
    let (_, _, h1) = skip _ _ s ps t (Steps-require Same-IsOrder _ _) h in
    let (_, _, h2) = skip _ _ s ps t (Steps-lift Same-IsOrder _) h1 in
    let (_, _, h3) = skip _ _ s ps t (Steps-lift Same-IsOrder _) h2 in
    let (found, _, h4) = skip _ _ s ps t (resolve_all-Same input.depends_on) h3 in
    let (edges, seen, h5) = skip _ _ s ps t (Steps-gets Same-IsOrder list_all_for_project) h4 in
    let (u, good, h6) = skip _ _ s ps t (check_edges-Same edges task found) h5 in
    let (same, rows) = return-eq-ok found ps s t h6 in
    (
      rows,
      rw (gets-eq-ok list_all_for_project edges s s seen, sym same)
          (checked edges task found s u s good),
    )

inserted_id :
    (r : TaskRecord) (s : Store) (a : TaskRecord) (t : Store)
    → insert_task r s ≡ ok (a, t)
    → a.id ≡ r.id
unfolding insert_task
inserted_id r s a t h = ground (arith, h)

module _ (input : Creation) (env : Env) (edge_id : String → String)
    (edges : List DependencyEdge) where
  write_task-Grows :
      (display_id : String) (settled : Bool) (owner actor team : Option String) (task : String)
      → Steps (Grows edges task) (write_task input env edge_id display_id settled owner actor team)
  unfolding write_task
  write_task-Grows display_id settled owner actor team task =
      search
        (
          steps_rules,
          Grows-IsOrder edges task,
          insert_task-Grows edges task,
          append_event-Grows edges task,
        )
        depth 12

  link_new-Grows :
      (actor : Option String) (task p : TaskRecord)
      → ¬ Reach edges p.id task.id
      → Steps (Grows edges task.id) (link_new input env edge_id actor task p)
  unfolding link_new
  link_new-Grows actor task p no_way =
      let edge =
        add_edge-Grows edges task.id (edge_id p.id)
          (record { task_id = task.id; prerequisite_id = p.id; kind = strong }) (refl, no_way) in
      search (steps_rules, Grows-IsOrder edges task.id, edge, append_event-Grows edges task.id)
        depth 9

  link_all-Grows :
      (actor : Option String) (task : TaskRecord) (ps : List TaskRecord)
      → NoWay edges task.id ps
      → Steps (Grows edges task.id) (link_all input env edge_id actor task ps)
  unfolding link_all
  link_all-Grows actor task [] w = search (steps_rules, Grows-IsOrder edges task.id)
  link_all-Grows actor task (p ∷ ps) (first, w) =
      let one = link_new-Grows actor task p first in
      let rest = link_all-Grows actor task ps w in
      search (steps_rules, Grows-IsOrder edges task.id, one, rest) depth 9

  id-write_task :
      (display_id : String) (settled : Bool) (owner actor team : Option String) (s : Store)
      (task : TaskRecord) (t : Store)
      → write_task input env edge_id display_id settled owner actor team s ≡ ok (task, t)
      → task.id ≡ env.new_id
  unfolding write_task
  id-write_task display_id settled owner actor team s task t h =
      let (a, s1, put, h1) = >>=-eq-ok _ _ s task t h in
      let (_, s2, _, h2) = >>=-eq-ok _ _ s1 task t h1 in
      let (same, _) = return-eq-ok a task s2 t h2 in
      ap (λ r. r.id) (sym same)
      ∙ inserted_id (born input env display_id settled owner team) s a s1 put

  -- The row, then the edges of that row.
  write_and_link-Grows :
      (display_id : String) (settled : Bool) (owner actor team : Option String)
      (ps : List TaskRecord)
      → NoWay edges env.new_id ps
      → Steps (Grows edges env.new_id) (
          write_task input env edge_id display_id settled owner actor team >>= λ task.
          link_all input env edge_id actor task ps >> return task)
  write_and_link-Grows display_id settled owner actor team ps w = record {
    at = λ s a t h.
        let o = Grows-IsOrder edges env.new_id in
        let (task, s1, put, rest) = >>=-eq-ok _ _ s a t h in
        let (u, s2, links, last) = >>=-eq-ok _ _ s1 a t rest in
        let id = id-write_task display_id settled owner actor team s task s1 put in
        let linked =
          subst (λ x. Grows edges x s1 s2) id
            ((link_all-Grows actor task ps (subst (λ x. NoWay edges x ps) (sym id) w)).at s1 u s2
              links) in
        o.trans_at s s1 t
          ((write_task-Grows display_id settled owner actor team env.new_id).at s task s1 put)
          (subst (Grows edges env.new_id s1) (return-eq-ok task a s2 t last).1 linked);
  }

  finish_create-Grows :
      (ps : List TaskRecord)
      → NoWay edges env.new_id ps
      → Steps (Grows edges env.new_id) (finish_create input env edge_id ps)
  unfolding finish_create
  finish_create-Grows ps w =
      let o = Grows-IsOrder edges env.new_id in
      Steps-bind o _ _ (Steps-require o _ _) λ _. Steps-bind o _ _ (Steps-require o _ _) λ _.
        Steps-bind o _ _ (allocate-Grows edges env.new_id (or_default "CTX" input.prefix)) λ seq.
          Steps-bind o _ _
            (Grows-Same edges env.new_id _ (resolve_optional-Same input.owner_agent_id))
            λ owner.
              Steps-bind o _ _
                (Grows-Same edges env.new_id _ (resolve_optional-Same input.actor_agent_id))
                λ actor.
                  Steps-bind o _ _ (Grows-Same edges env.new_id _ (resolve_team-Same input.team_id))
                    λ team.
                      write_and_link-Grows (format_display_id (or_default "CTX" input.prefix) seq)
                        (all_settled ps) owner actor team ps w

-- Creating a task conserves.
pub create_task-Steps :
    (input : Creation) (env : Env) (edge_id : String → String)
    → Steps Conserves (create_task input env edge_id)
unfolding create_task
create_task-Steps input env edge_id = record {
  at = λ s a t h.
      let (ps, s1, ready_now, rest) = >>=-eq-ok _ _ s a t h in
      let (same, w) = prepared input env.new_id s ps s1 ready_now in
      let edges = list_all_for_project s in
      let g =
        (finish_create-Grows input env edge_id edges ps w).at s a t
          (subst (λ x. finish_create input env edge_id ps x ≡ ok (a, t)) (sym same) rest) in
      record {
        log = g.log;
        tasks = g.tasks;
        acyclic = λ h.
            subst Acyclic (sym g.linked.1)
              (Acyclic-append edges g.linked.0 env.new_id g.linked.2 h);
      };
}
