-- ===== src/Dependency/Walk.antt =====
-- What it means that one task depends on another, and how walks compose.
use carryctx.Base.{
  String, true, List, [], ◌∷◌, ◌≡◌, inl, inr, refl, arith, eq_iff, ◌==◌, In, contains, Bool-cases,
}
use carryctx.Dependency.{DependencyEdge, neighbors}

-- Some edge says that `u` needs `v`.
abbrev pub Needs : List DependencyEdge → String → String → Type 0
Needs edges u v = (e : DependencyEdge) × In e edges × (e.task_id ≡ u) × (e.prerequisite_id ≡ v)

-- The walks along edges from `u`, the empty one among them.
pub data Reach (edges : List DependencyEdge) (u : String) : String → Type 0 where
  here : Reach edges u u
  step : {v w : String} → Reach edges u v → Needs edges v w → Reach edges u w

pub Reach-trans :
    {edges : List DependencyEdge} {u v w : String}
    → Reach edges u v
    → Reach edges v w
    → Reach edges u w
Reach-trans p here = p
Reach-trans p (step q n) = step (Reach-trans p q) n

-- No task needs itself, however far around.
abbrev pub Acyclic : List DependencyEdge → Type 0
Acyclic edges = (u v : String) → Needs edges u v → ¬ Reach edges v u

Needs-weaken :
    (e : DependencyEdge) (edges : List DependencyEdge) (u v : String)
    → Needs edges u v
    → Needs (e ∷ edges) u v
Needs-weaken e edges u v (d, m, p, q) = (d, inr m, p, q)

pub Needs-of_neighbors :
    (edges : List DependencyEdge) (u v : String)
    → contains (neighbors edges u) v ≡ true
    → Needs edges u v
Needs-of_neighbors [] u v h = cc
Needs-of_neighbors (e ∷ edges) u v h = elim (Bool-cases (e.task_id == u)) [
  | inl this ↦ elim (Bool-cases (e.prerequisite_id == v)) [
    | inl that ↦ (e, inl refl, (eq_iff e.task_id u).0 this, (eq_iff e.prerequisite_id v).0 that)
    | inr other ↦ Needs-weaken e edges u v (Needs-of_neighbors edges u v (ground arith))
  ]
  | inr other ↦ Needs-weaken e edges u v (Needs-of_neighbors edges u v (ground arith))
]

pub neighbors_of_Needs :
    (edges : List DependencyEdge) (u v : String)
    → Needs edges u v
    → contains (neighbors edges u) v ≡ true
neighbors_of_Needs [] u v (d, m, p, q) = absurd m
neighbors_of_Needs (e ∷ edges) u v (d, inl same, p, q) =
    ground (arith, eq_iff e.task_id u, eq_iff e.prerequisite_id v)
neighbors_of_Needs (e ∷ edges) u v (d, inr m, p, q) =
    ground (arith, neighbors_of_Needs edges u v (d, m, p, q))
