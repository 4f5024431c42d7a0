-- ===== src/Examples/Domain.antt =====
-- The theorems on the state machines and the dependency graph, at concrete data.
use carryctx.Base.{
  Bool, ◌≢◌, length, ◌+◌, ◌≤◌, ℕ, String, some, [], ◌∷◌, ◌≡◌, ◌↔◌, ◌⊎◌, refl, ok, true, false,
}
use carryctx.Task
use carryctx.Task.{
  planned, in_progress, completed, start, release, cancel, reopen, TransitionFacts, allowed, denied,
  is_terminal, evaluate_transition, owner_or_unknown,
}
use carryctx.Task.Finish.{IsClear, carry_out, way_to_completed, way_to_completed-completes}
use carryctx.Task.Lifecycle.{Taken, Taken-iff, Edge, facts_with, start_gated, dependency_gate}
use carryctx.Dependency.{
  DependencyEdge, strong, search, would_create_cycle, validate_dependency_edge,
}
use carryctx.Dependency.Walk.{Reach, Acyclic}
use carryctx.Dependency.Search.{would_create_cycle_iff}
use carryctx.Dependency.Acyclic.{validate_dependency_edge-Acyclic}
use carryctx.Session
use carryctx.Session.{Leads, Leads-iff, paused, stale}
use carryctx.Cleanup.{to_db_string, from_db_string, display, active_session}
use carryctx.Cleanup.RoundTrip.{from_db_string_iff}

Taken-iff_example : Taken planned start in_progress ↔ Edge planned start in_progress
Taken-iff_example = Taken-iff planned in_progress start

starts : evaluate_transition planned start (facts_with false true) ≡ allowed in_progress false []
unfolding evaluate_transition
starts = refl

dependency_gate_example : (facts_with false true).strong_dependencies_complete ≡ true
dependency_gate_example =
    dependency_gate planned in_progress start (facts_with false true) false [] starts
      (start_gated (λ e. cc))

settled_facts : (n : ℕ) → IsClear (facts_with true true)
settled_facts n = (refl, refl)

way_to_completed-completes_example :
    (carry_out (λ n. facts_with true true) (way_to_completed Task.cancelled) Task.cancelled
      ≡ some completed)
    × (length (way_to_completed Task.cancelled) ≤ 3)
way_to_completed-completes_example =
    way_to_completed-completes (λ n. facts_with true true) Task.cancelled settled_facts

abbrev edge : String → String → DependencyEdge
edge task prerequisite = record { task_id = task; prerequisite_id = prerequisite; kind = strong }

would_create_cycle_iff_example :
    ((b : Bool) × (search (edge "a" "b" ∷ []) "b" (length (edge "a" "b" ∷ []) + 1) ("a" ∷ []) []
        ≡ some b))
    × ((would_create_cycle (edge "a" "b" ∷ []) "b" "a" ≡ true) ↔ Reach (edge "a" "b" ∷ []) "a" "b")
would_create_cycle_iff_example = would_create_cycle_iff (edge "a" "b" ∷ []) "b" "a"

nothing_needed : Acyclic []
nothing_needed = λ u v (e, m, p, q) r. absurd m

accepted : validate_dependency_edge [] "a" "b" ≡ ok tt
unfolding validate_dependency_edge would_create_cycle
accepted = refl

validate_dependency_edge-Acyclic_example : Acyclic (edge "a" "b" ∷ [])
validate_dependency_edge-Acyclic_example =
    validate_dependency_edge-Acyclic [] (edge "a" "b") nothing_needed accepted

Leads-iff_example : Leads paused stale ↔ ((Session.is_terminal paused ≡ false) ⊎ (stale ≡ paused))
Leads-iff_example = Leads-iff paused stale

from_db_string_iff_example :
    ((from_db_string "active_session" ≡ some (active_session "")) ↔ (
      ("active_session" ≡ to_db_string (active_session ""))
      ⊎ ("active_session" ≡ display (active_session ""))))
    × ((to_db_string (active_session "") ≢ display (active_session ""))
        ↔ (active_session "" ≡ active_session ""))
from_db_string_iff_example = from_db_string_iff "active_session" (active_session "")
