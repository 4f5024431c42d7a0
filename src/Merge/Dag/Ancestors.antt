-- ===== src/Merge/Dag/Ancestors.antt =====
-- What it means that one export is an ancestor of another, and orders of the graph.
use carryctx.Base.{
  String, true, false, ◌||◌, List, [], ◌∷◌, ◌≡◌, inl, inr, sym, arith, ◌==◌, eq_iff, contains,
  Bool-cases, subst,
}
use carryctx.Merge.Dag.{ExportDag, parents_of, insert_text}

abbrev pub Parent : ExportDag → String → String → Type 0
Parent dag u v = contains (parents_of dag u) v ≡ true

-- The exports that `u` builds on, itself among them.
pub data Ancestor (dag : ExportDag) (u : String) : String → Type 0 where
  here : Ancestor dag u u
  step : {v w : String} → Ancestor dag u v → Parent dag v w → Ancestor dag u w

pub Ancestor-trans :
    {dag : ExportDag} {u v w : String} → Ancestor dag u v → Ancestor dag v w → Ancestor dag u w
Ancestor-trans p here = p
Ancestor-trans p (step q n) = step (Ancestor-trans p q) n

pub Ancestor-of_Parent :
    {dag : ExportDag} {u v w : String} → Parent dag u v → Ancestor dag v w → Ancestor dag u w
Ancestor-of_Parent n q = Ancestor-trans (step here n) q

-- The export is a proper ancestor of itself.
abbrev pub OnCycle : ExportDag → String → Type 0
OnCycle dag u = (p : String) × Parent dag u p × Ancestor dag p u

pub contains-insert_text :
    (a : String) (set : List String) (v : String)
    → contains (insert_text a set) v ≡ (a == v || contains set v)
contains-insert_text a set v = elim (Bool-cases (contains set a)) [
  | inl old ↦ ground (arith, old, eq_iff a v)
  | inr new ↦ ground (arith, new)
]

-- The parents of each node of the list stand behind it, and no node stands twice.
abbrev pub IsOrdered : ExportDag → List String → Type 0
IsOrdered dag [] = Unit
IsOrdered dag (u ∷ us) =
    (contains us u ≡ false)
    × ((v : String) → Parent dag u v → contains us v ≡ true)
    × IsOrdered dag us

module _ (dag : ExportDag) where
  pub IsOrdered-Parent :
      (us : List String) (u v : String)
      → IsOrdered dag us
      → contains us u ≡ true
      → Parent dag u v
      → contains us v ≡ true
  IsOrdered-Parent [] u v o m n = cc
  IsOrdered-Parent (w ∷ us) u v (new, all, o) m n = elim (Bool-cases (w == u)) [
    | inl same ↦ ground (arith, all v (rw ((eq_iff w u).0 same) n))
    | inr differ ↦ ground (arith, IsOrdered-Parent us u v o (ground (arith, m, differ)) n)
  ]

  pub IsOrdered-Ancestor :
      (us : List String) (u : String) {v : String}
      → IsOrdered dag us
      → contains us u ≡ true
      → Ancestor dag u v
      → contains us v ≡ true
  IsOrdered-Ancestor us u o m here = m
  IsOrdered-Ancestor us u o m (step {v} {w} a n) =
      IsOrdered-Parent us v w o (IsOrdered-Ancestor us u o m a) n

  -- No node of an ordered list is on a cycle.
  pub IsOrdered-acyclic :
      (us : List String) (u : String) → IsOrdered dag us → contains us u ≡ true → ¬ OnCycle dag u
  IsOrdered-acyclic [] u o m c = cc
  IsOrdered-acyclic (w ∷ us) u (new, all, o) m (p, n, a) = elim (Bool-cases (w == u)) [
    | inl same ↦
        let e = (eq_iff w u).0 same in
        let back = IsOrdered-Ancestor us p o (all p (subst (λ x. Parent dag x p) (sym e) n)) a in
        cc (back, new, e)
    | inr differ ↦ IsOrdered-acyclic us u o (ground (arith, m, differ)) (p, n, a)
  ]
