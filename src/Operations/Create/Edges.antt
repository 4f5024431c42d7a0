-- ===== src/Operations/Create/Edges.antt =====
-- Edges from one new task to prerequisites that do not lead to it leave a graph without cycles.
use carryctx.Base.{String, List, ◌++◌, ◌≡◌, ◌⊎◌, inl, inr, sym, ◌∙◌, subst, In, In-append}
use carryctx.Dependency.{DependencyEdge}
use carryctx.Dependency.Walk.{Needs, Reach, here, step, Reach-trans, Acyclic}

-- The edge leads from `task` to a prerequisite that does not lead to it.
abbrev pub Fresh : List DependencyEdge → String → DependencyEdge → Type 0
Fresh edges task e = (e.task_id ≡ task) × (¬ Reach edges e.prerequisite_id task)

module _ (edges new : List DependencyEdge) (task : String)
    (fresh : (e : DependencyEdge) → In e new → Fresh edges task e) where
  Needs-cases :
      (u v : String)
      → Needs (edges ++ new) u v
      → Needs edges u v ⊎ ((u ≡ task) × (¬ Reach edges v task))
  Needs-cases u v (e, m, p, q) = elim ((In-append e edges new).0 m) [
    | inl old ↦ inl (e, old, p, q)
    | inr added ↦
        let (from, no_way) = fresh e added in
        inr (sym p ∙ from, subst (λ x. ¬ Reach edges x task) q no_way)
  ]

  -- A walk over the larger graph is one over the old graph, or one that goes on from a prerequisite.
  Reach-cases :
      {u v : String}
      → Reach (edges ++ new) u v
      → Reach edges u v
        ⊎ (Reach edges u task × ((p : String) × (¬ Reach edges p task) × Reach edges p v))
  Reach-cases here = inl here
  Reach-cases (step {v} {w} r n) = elim (Reach-cases r) [
    | inr (a, (p, no_way, b)) ↦ elim (Needs-cases v w n) [
      | inl old ↦ inr (a, (p, no_way, step b old))
      | inr (from, _) ↦ absurd (no_way (subst (Reach edges p) from b))
    ]
    | inl a ↦ elim (Needs-cases v w n) [
      | inl old ↦ inl (step a old)
      | inr (from, no_way) ↦ inr (subst (Reach edges _) from a, (w, no_way, here))
    ]
  ]

  pub Acyclic-append : Acyclic edges → Acyclic (edges ++ new)
  Acyclic-append acyclic u v n r = elim (Needs-cases u v n) [
    | inl old ↦ elim (Reach-cases r) [
      | inl a ↦ acyclic u v old a
      | inr (a, (p, no_way, b)) ↦ no_way (Reach-trans (step b old) a)
    ]
    | inr (from, no_way) ↦ elim (Reach-cases r) [
      | inl a ↦ no_way (subst (Reach edges v) from a)
      | inr (a, _) ↦ no_way a
    ]
  ]
