-- ===== src/Operations/Conserve.antt =====
-- What every task operation conserves: the audit log, the set of tasks and a graph without cycles.
pub mod Rules
pub mod UseCases
use carryctx.Base.{String, List, [], ◌∷◌, ◌++◌, ◌≡◌, refl, ◌∙◌, sym, ap}
use carryctx.Dependency.Walk.{Acyclic}
use carryctx.Store.{Store, Event, list_all_for_project}
use carryctx.Store.Rows.{ids}
use carryctx.Store.Steps.{IsOrder}
use mathlib.Core.List.{append-nil, append_assoc}

pub record Conserves (s t : Store) : Type 0 where
  -- Events are appended, none is changed or dropped.
  pub log : (new : List Event) × (t.events ≡ s.events ++ new)
  -- The tasks stay, in the same order, behind the new ones.
  pub tasks : (new : List String) × (ids t.tasks ≡ new ++ ids s.tasks)
  pub acyclic : Acyclic (list_all_for_project s) → Acyclic (list_all_for_project t)

pub Conserves-IsOrder : IsOrder Conserves
Conserves-IsOrder = record {
  refl_at =
      λ s. record { log = ([], sym (append-nil s.events)); tasks = ([], refl); acyclic = λ h. h };
  trans_at = λ s t u p q. record {
    log = (
      p.log.0 ++ q.log.0,
      q.log.1 ∙ ap (λ l. l ++ q.log.0) p.log.1 ∙ append_assoc s.events p.log.0 q.log.0,
    );
    tasks = (
      q.tasks.0 ++ p.tasks.0,
      q.tasks.1
          ∙ ap (λ l. q.tasks.0 ++ l) p.tasks.1
          ∙ sym (append_assoc q.tasks.0 p.tasks.0 (ids s.tasks)),
    );
    acyclic = λ h. q.acyclic (p.acyclic h);
  };
}
