-- ===== src/Operations/Create/Grows.antt =====
-- What creating a task does to the rows: events are appended, tasks go in front, and new edges lead from
-- the new task to prerequisites that do not lead to it.
use carryctx.Base.{
  ℕ, String, Option, none, some, List, [], ◌∷◌, ◌++◌, ◌≡◌, inl, inr, refl, sym, ap, ◌∙◌, subst,
  arith, ok, err, In, In-append, Result,
}
use carryctx.Dependency.{DependencyEdge, validate_dependency_edge}
use carryctx.Store.{
  Store, TaskRecord, TeamRow, Event, Op, ◌>>=◌, return, list_all_for_project, allocate_display_id,
  insert_task, append_event, add_edge,
}
use carryctx.Store.Rows.{ids}
use carryctx.Store.Steps.{Steps, Steps-bind, Steps-return, IsOrder}
use carryctx.Store.Same.{Same, Same-IsOrder, same_rules}
use carryctx.Operations.{resolve_task}
use carryctx.Operations.Reads.{resolve_task-Same, resolve_agent_id-Same}
use carryctx.Operations.Depend.{cycle_error}
use carryctx.Operations.Create.{
  resolve_all, check_edges, resolve_optional, or_no_team, resolve_team,
}
use carryctx.Operations.Create.Edges.{Fresh}
use mathlib.Core.List.{append-nil, append_assoc, map-append}

-- `edges` are those that the check has seen.
pub record Grows (edges : List DependencyEdge) (task : String) (s t : Store) : Type 0 where
  pub log : (new : List Event) × (t.events ≡ s.events ++ new)
  pub tasks : (new : List String) × (ids t.tasks ≡ new ++ ids s.tasks)
  pub linked :
      (new : List DependencyEdge) × (list_all_for_project t ≡ list_all_for_project s ++ new)
      × ((e : DependencyEdge) → In e new → Fresh edges task e)

module _ (edges : List DependencyEdge) (task : String) where
  Fresh-append :
      (a b : List DependencyEdge)
      → ((e : DependencyEdge) → In e a → Fresh edges task e)
      → ((e : DependencyEdge) → In e b → Fresh edges task e)
      → (e : DependencyEdge) → In e (a ++ b)
      → Fresh edges task e
  Fresh-append a b p q e m = elim ((In-append e a b).0 m) [ inl x ↦ p e x | inr y ↦ q e y ]

  pub Grows-IsOrder : IsOrder (Grows edges task)
  Grows-IsOrder = record {
    refl_at = λ s. record {
      log = ([], sym (append-nil s.events));
      tasks = ([], refl);
      linked = ([], sym (append-nil (list_all_for_project s)), λ e m. absurd m);
    };
    trans_at = λ s t u p q. record {
      log = (
        p.log.0 ++ q.log.0,
        q.log.1 ∙ ap (λ l. l ++ q.log.0) p.log.1 ∙ append_assoc s.events p.log.0 q.log.0,
      );
      tasks = (
        q.tasks.0 ++ p.tasks.0,
        q.tasks.1
            ∙ ap (λ l. q.tasks.0 ++ l) p.tasks.1
            ∙ sym (append_assoc q.tasks.0 p.tasks.0 (ids s.tasks)),
      );
      linked = (
        p.linked.0 ++ q.linked.0,
        q.linked.1
            ∙ ap (λ l. l ++ q.linked.0) p.linked.1
            ∙ append_assoc (list_all_for_project s) p.linked.0 q.linked.0,
        Fresh-append p.linked.0 q.linked.0 p.linked.2 q.linked.2,
      );
    };
  }

  open Grows-IsOrder use {refl_at}

  pub Grows-Same : {A : Type 0} (m : Op A) → Steps Same m → Steps (Grows edges task) m
  Grows-Same m k = record {
    at = λ s a t h. subst (Grows edges task s) (k.at s a t h).same (refl_at s);
  }

  -- New sequences.
  allocated : (s : Store) (l : List (String × ℕ)) → Grows edges task s (record s { sequences = l })
  unfolding list_all_for_project
  allocated s l = record {
    log = ([], sym (append-nil s.events));
    tasks = ([], refl);
    linked = ([], sym (append-nil (list_all_for_project s)), λ e m. absurd m);
  }

  pub allocate-Grows : (prefix : String) → Steps (Grows edges task) (allocate_display_id prefix)
  unfolding allocate_display_id
  allocate-Grows prefix = record {
    at = λ s a t h. subst (Grows edges task s) (ground (arith, h)) (allocated s t.sequences);
  }

  inserted : (s : Store) (r : TaskRecord) → Grows edges task s (record s { tasks = r ∷ s.tasks })
  unfolding list_all_for_project
  inserted s r = record {
    log = ([], sym (append-nil s.events));
    tasks = (r.id ∷ [], refl);
    linked = ([], sym (append-nil (list_all_for_project s)), λ e m. absurd m);
  }

  pub insert_task-Grows : (r : TaskRecord) → Steps (Grows edges task) (insert_task r)
  unfolding insert_task
  insert_task-Grows r = record {
    at = λ s a t h. subst (Grows edges task s) (ground (arith, h)) (inserted s r);
  }

  logged : (s : Store) (e : Event) → Grows edges task s (record s { events = s.events ++ e ∷ [] })
  unfolding list_all_for_project
  logged s e = record {
    log = (e ∷ [], refl);
    tasks = ([], refl);
    linked = ([], sym (append-nil (list_all_for_project s)), λ d m. absurd m);
  }

  pub append_event-Grows : (e : Event) → Steps (Grows edges task) (append_event e)
  unfolding append_event
  append_event-Grows e = record {
    at = λ s a t h. subst (Grows edges task s) (ground (arith, h)) (logged s e);
  }

  added :
      (s : Store) (id : String) (e : DependencyEdge)
      → Fresh edges task e
      → Grows edges task s
          (record s { dependencies = s.dependencies ++ record { id = id; edge = e } ∷ [] })
  unfolding list_all_for_project
  added s id e fresh = record {
    log = ([], sym (append-nil s.events));
    tasks = ([], refl);
    linked = (
      e ∷ [],
      rw map-append refl,
      λ d m. elim m [ inl same ↦ subst (Fresh edges task) (sym same) fresh | inr n ↦ absurd n ],
    );
  }

  pub add_edge-Grows :
      (id : String) (e : DependencyEdge)
      → Fresh edges task e
      → Steps (Grows edges task) (add_edge id e)
  unfolding add_edge
  add_edge-Grows id e fresh = record {
    at = λ s a t h. subst (Grows edges task s) (ground (arith, h)) (added s id e fresh);
  }

pub or_no_team-Same : (ref : String) (found : Option TeamRow) → Steps Same (or_no_team ref found)
unfolding or_no_team
or_no_team-Same ref none = search same_rules
or_no_team-Same ref (some t) = search same_rules

pub resolve_team-Same : (ref : Option String) → Steps Same (resolve_team ref)
unfolding resolve_team
resolve_team-Same none = search same_rules
resolve_team-Same (some ref) = search (same_rules, or_no_team-Same) depth 9

pub resolve_optional-Same : (ref : Option String) → Steps Same (resolve_optional ref)
unfolding resolve_optional
resolve_optional-Same none = search same_rules
resolve_optional-Same (some ref) = search (same_rules, resolve_agent_id-Same) depth 9

pub resolve_all-Same : (refs : List String) → Steps Same (resolve_all refs)
unfolding resolve_all
resolve_all-Same [] = search same_rules
resolve_all-Same (ref ∷ refs) =
    Steps-bind Same-IsOrder (resolve_task ref)
      (λ found. resolve_all refs >>= λ others. return (found ∷ others)) (resolve_task-Same ref)
      λ found.
        Steps-bind Same-IsOrder (resolve_all refs) (λ others. return (found ∷ others))
          (resolve_all-Same refs) λ others. Steps-return Same-IsOrder (found ∷ others)

pub cycle_error-Same : (r : Result String (Unit {0})) → Steps Same (cycle_error r)
unfolding cycle_error
cycle_error-Same (ok u) = search same_rules
cycle_error-Same (err x) = search same_rules

pub check_edges-Same :
    (edges : List DependencyEdge) (task : String) (ps : List TaskRecord)
    → Steps Same (check_edges edges task ps)
unfolding check_edges
check_edges-Same edges task [] = search same_rules
check_edges-Same edges task (p ∷ ps) =
    Steps-bind Same-IsOrder (cycle_error (validate_dependency_edge edges task p.id))
      (λ _. check_edges edges task ps) (cycle_error-Same (validate_dependency_edge edges task p.id))
      (λ _. check_edges-Same edges task ps)
