-- ===== src/Merge/Dag/Cycle.antt =====
-- A visit that fails has found an ancestor of its node that is on a cycle.
use carryctx.Base.{
  ℕ, zero, suc, String, true, false, some, List, [], ◌∷◌, ◌≡◌, inl, inr, refl, sym, ◌∙◌, subst,
  arith, ◌==◌, eq_iff, Bool-cases, contains,
}
use carryctx.Merge.Dag.{ExportDag, parents_of, Marks, insert_text, enter, Answer, visit_all, visit}
use carryctx.Merge.Dag.Visit.{visit_all-cons, visit-false, visit-zero, restored}
use carryctx.Merge.Dag.Ancestors.{
  Parent, Ancestor, here, step, Ancestor-of_Parent, OnCycle, contains-insert_text,
}

module _ (dag : ExportDag) where
  -- The node is a proper ancestor of `v`.
  abbrev Proper : String → String → Type 0
  Proper v node = (p : String) × Parent dag v p × Ancestor dag p node

  -- The node is a proper ancestor of everything on the path.
  abbrev pub OnWay : List String → String → Type 0
  OnWay path node = (v : String) → contains path v ≡ true → Proper v node

  -- Some ancestor of the node is on a cycle.
  abbrev pub HasCycle : String → Type 0
  HasCycle node = (c : String) × Ancestor dag node c × OnCycle dag c

  OnWay-Parent :
      (path : List String) (node p : String)
      → OnWay path node
      → Parent dag node p
      → OnWay (insert_text node path) p
  OnWay-Parent path node p w n v m = elim (Bool-cases (node == v)) [
    | inl same ↦ (p, subst (λ x. Parent dag x p) ((eq_iff node v).0 same) n, here)
    | inr differ ↦
        let (q, k, a) = w v (ground (arith, m, differ, contains-insert_text node path v)) in
        (q, k, step a n)
  ]

  all_fails :
      (visit_one : String → Marks → Answer) (ps : List String) (path : List String) (s t : Marks)
      → ((p : String) (u v : Marks)
          → contains ps p ≡ true
          → u.on_path ≡ path
          → visit_one p u ≡ some (false, v)
          → HasCycle p)
      → ((p : String) (u v : Marks) → visit_one p u ≡ some (true, v) → v.on_path ≡ u.on_path)
      → s.on_path ≡ path
      → visit_all visit_one ps s ≡ some (false, t)
      → (p : String) × (contains ps p ≡ true) × HasCycle p
  unfolding visit_all
  all_fails visit_one [] path s t one keeps e h = cc h
  all_fails visit_one (p ∷ ps) path s t one keeps e h =
      elim (visit_all-cons visit_one p ps s t false h) [
        | inl (fails, _) ↦
            let member : contains (p ∷ ps) p ≡ true = ground (arith, eq_iff p p) in
            (p, member, one p s t member e fails)
        | inr (u, good, rest) ↦
            let (q, member, cycle) =
              all_fails visit_one ps path u t (λ q a b m. one q a b (ground (arith, m))) keeps
                (keeps p s u good ∙ e) rest in
            (q, ground (arith, member), cycle)
      ]

  pub visit_fails :
      (fuel : ℕ) (node : String) (s t : Marks)
      → OnWay s.on_path node
      → visit dag fuel node s ≡ some (false, t)
      → HasCycle node
  visit_fails zero node s t w h = cc (visit-zero dag node s, h)
  visit_fails (suc fuel) node s t w h = elim (visit-false dag fuel node s t h) [
    | inl cycle ↦ (node, here, w node cycle)
    | inr (fresh, all) ↦
        let (p, n, (c, a, cycle)) =
          all_fails (visit dag fuel) (parents_of dag node) (insert_text node s.on_path)
            (enter node s) t
            (λ q u v m e k.
              visit_fails fuel q u v
                (subst (λ x. OnWay x q) (sym e) (OnWay-Parent s.on_path node q w m)) k)
            (restored dag fuel) refl all in
        (c, Ancestor-of_Parent n a, cycle)
  ]
