-- ===== src/Dependency/Acyclic.antt =====
-- A validated edge keeps the dependency graph free of cycles.
use carryctx.Base.{
  String, List, [], ◌∷◌, ◌++◌, ◌≡◌, ◌⊎◌, inl, inr, subst, sym, In-append, ok, arith,
}
use carryctx.Dependency.{DependencyEdge, validate_dependency_edge}
use carryctx.Dependency.Walk.{Needs, Reach, here, step, Reach-trans, Acyclic}
use carryctx.Dependency.Search.{validate_dependency_edge_iff}

module _ (edges : List DependencyEdge) (e : DependencyEdge) where
  Needs-cases :
      (u v : String)
      → Needs (edges ++ e ∷ []) u v
      → Needs edges u v ⊎ ((e.task_id ≡ u) × (e.prerequisite_id ≡ v))
  Needs-cases u v (d, m, p, q) = elim ((In-append d edges (e ∷ [])).0 m) [
    | inl old ↦ inl (d, old, p, q)
    | inr (inl same) ↦ inr (ground arith)
    | inr (inr none_left) ↦ absurd none_left
  ]

  -- A walk over the larger graph avoids the new edge, or leads to its task and on from its prerequisite.
  Reach-cases :
      {u v : String}
      → Reach (edges ++ e ∷ []) u v
      → Reach edges u v ⊎ (Reach edges u e.task_id × Reach edges e.prerequisite_id v)
  Reach-cases here = inl here
  Reach-cases (step {v} {w} r n) = elim (Needs-cases v w n) [
    | inl old ↦ elim (Reach-cases r) [ inl a ↦ inl (step a old) | inr (a, b) ↦ inr (a, step b old) ]
    | inr (t, p) ↦ elim (Reach-cases r) [
      | inl a ↦ inr (subst (Reach edges _) (sym t) a, subst (Reach edges _) p here)
      | inr (a, b) ↦ inr (a, subst (Reach edges _) p here)
    ]
  ]

  Acyclic-snoc :
      Acyclic edges → ¬ Reach edges e.prerequisite_id e.task_id → Acyclic (edges ++ e ∷ [])
  Acyclic-snoc acyclic fresh u v n r = elim (Needs-cases u v n) [
    | inl old ↦ elim (Reach-cases r) [
      | inl a ↦ acyclic u v old a
      | inr (a, b) ↦ fresh (Reach-trans (step b old) a)
    ]
    | inr (t, p) ↦ elim (Reach-cases r) [
      | inl a ↦
          fresh (subst (λ x. Reach edges x e.task_id) (sym p) (subst (Reach edges v) (sym t) a))
      | inr (a, b) ↦ fresh (subst (λ x. Reach edges x e.task_id) (sym p) a)
    ]
  ]

-- Adding an edge that the validation accepts to a graph without cycles gives a graph without cycles.
pub validate_dependency_edge-Acyclic :
    (edges : List DependencyEdge) (e : DependencyEdge)
    → Acyclic edges
    → validate_dependency_edge edges e.task_id e.prerequisite_id ≡ ok tt
    → Acyclic (edges ++ e ∷ [])
validate_dependency_edge-Acyclic edges e acyclic h =
    Acyclic-snoc edges e acyclic
      ((validate_dependency_edge_iff edges e.task_id e.prerequisite_id).0 h)
