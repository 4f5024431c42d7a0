-- ===== src/Dependency.antt =====
-- crates/carryctx-core/src/domain/dependency.rs: dependency edges and the search for cycles.
pub mod Walk
pub mod Search
pub mod Acyclic
pub mod Monotone
use carryctx.Base.{
  ℕ, zero, suc, String, Bool, true, false, not, Option, none, some, List, [], ◌∷◌, ◌++◌, ◌==◌,
  if◌then◌else◌, length, keep, contains, Result, ok, err, ◌+◌, map,
}

pub data DependencyKind : Type 0 where
  strong informational : DependencyKind

unfoldable pub DependencyKind-discrete : Discrete DependencyKind
DependencyKind-discrete = hlevel

pub record DependencyEdge : Type 0 where
  pub task_id : String
  pub prerequisite_id : String
  pub kind : DependencyKind

-- `adj.get(node)`: the prerequisites of a task, in the order of the edges.
abbrev pub neighbors : List DependencyEdge → String → List String
neighbors [] node = []
neighbors (e ∷ edges) node =
    let rest = neighbors edges node in if e.task_id == node then e.prerequisite_id ∷ rest else rest

module _ (edges : List DependencyEdge) (task_id : String) where
  -- The `while let` loop over the queue; `none` means that the fuel ran out.
  unfoldable pub search : ℕ → List String → List String → Option Bool
  search fuel [] visited = some false
  search zero (node ∷ queue) visited = none
  search (suc fuel) (node ∷ queue) visited =
      let skip = search fuel queue visited in
      let next = keep (λ v. not (contains (node ∷ visited) v)) (neighbors edges node) in
      let expand = search fuel (queue ++ next) (node ∷ visited) in
      if node == task_id then some true else if contains visited node then skip else expand

  -- A node is expanded once, so the loop pops at most one node more than there are edges.
  unfoldable pub would_create_cycle : String → Bool
  unfolding search
  would_create_cycle prerequisite_id =
      if task_id == prerequisite_id
      then true
      else elim (search (length edges + 1) (prerequisite_id ∷ []) []) [ none ↦ false | some b ↦ b ]

  unfoldable pub validate_dependency_edge : String → Result String (Unit {0})
  validate_dependency_edge prerequisite_id =
      if task_id == prerequisite_id
      then err "Self-dependency is not allowed."
      else if would_create_cycle prerequisite_id
      then err "Adding this dependency would create a cycle."
      else ok tt
