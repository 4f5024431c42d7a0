-- ===== src/Dependency/Monotone.antt =====
-- Fewer edges have fewer walks.
use carryctx.Base.{String, List, In}
use carryctx.Dependency.{DependencyEdge}
use carryctx.Dependency.Walk.{Needs, Reach, here, step, Acyclic}

module _ (small large : List DependencyEdge)
    (sub : (e : DependencyEdge) → In e small → In e large) where
  Needs-mono : {u v : String} → Needs small u v → Needs large u v
  Needs-mono (e, m, p, q) = (e, sub e m, p, q)

  Reach-mono : {u v : String} → Reach small u v → Reach large u v
  Reach-mono here = here
  Reach-mono (step r n) = step (Reach-mono r) (Needs-mono n)

  pub Acyclic-mono : Acyclic large → Acyclic small
  Acyclic-mono h u v n r = h u v (Needs-mono n) (Reach-mono r)
