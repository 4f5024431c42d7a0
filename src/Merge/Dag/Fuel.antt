-- ===== src/Merge/Dag/Fuel.antt =====
-- The fuel of `visit` is enough: every node on the path but the last has an entry in the graph.
use carryctx.Base.{
  ℕ, zero, suc, ◌+◌, ◌≤◌, String, Bool, true, false, some, List, [], ◌∷◌, ◌≡◌, ◌⊎◌, inl, inr, refl,
  sym, ap, ◌∙◌, arith, ◌==◌, eq_iff, Bool-cases, Option-cases, length, contains, if◌then◌else◌,
}
use carryctx.Merge.{get}
use carryctx.Merge.Dag.{
  ExportDag, parents_of, Marks, insert_text, enter, leave, Answer, visit_all, finish, unless_marked,
  visit, start,
}
use carryctx.Merge.Dag.Visit.{restored}

-- The entries of the graph that are not on the path.
abbrev pending : ExportDag → List String → ℕ
pending [] path = 0
pending ((k, ps) ∷ dag) path =
    let rest = pending dag path in if contains path k then rest else suc rest

pending-nil : (dag : ExportDag) → pending dag [] ≡ length dag
pending-nil [] = refl
pending-nil ((k, ps) ∷ dag) = ap suc (pending-nil dag)

pending-enter_le :
    (dag : ExportDag) (node : String) (path : List String)
    → pending dag (insert_text node path) ≤ pending dag path
pending-enter_le [] node path = omega arith
pending-enter_le ((k, ps) ∷ dag) node path = ground (arith, pending-enter_le dag node path)

-- An entry that goes on the path is not pending any more.
pending-enter :
    (dag : ExportDag) (node : String) (path ps : List String)
    → contains path node ≡ false
    → get node dag ≡ some ps
    → suc (pending dag (insert_text node path)) ≤ pending dag path
unfolding get
pending-enter [] node path ps h found = cc
pending-enter ((k, qs) ∷ dag) node path ps h found = elim (Bool-cases (node == k)) [
  | inl same ↦
      rw (sym ((eq_iff node k).0 same))
        (ground (arith, h, pending-enter_le dag node path, eq_iff node node))
  | inr differ ↦ ground (arith, h, found, differ, eq_iff node k, pending-enter dag node path ps h)
]

-- An answer within the fuel.
abbrev pub Returns : Answer → Type 0
Returns a = (t : Marks) × ((a ≡ some (true, t)) ⊎ (a ≡ some (false, t)))

all-Returns :
    (visit_one : String → Marks → Answer) (ps : List String) (s : Marks) (path : List String)
    → ((p : String) (u : Marks) → u.on_path ≡ path → Returns (visit_one p u))
    → ((p : String) (u v : Marks) → visit_one p u ≡ some (true, v) → v.on_path ≡ u.on_path)
    → s.on_path ≡ path
    → Returns (visit_all visit_one ps s)
unfolding visit_all
all-Returns visit_one [] s path one keeps h = (s, inl refl)
all-Returns visit_one (p ∷ ps) s path one keeps h =
    let (t, answer) = one p s h in
    elim answer [
      | inl e ↦
          let (u, rest) = all-Returns visit_one ps t path one keeps (keeps p s t e ∙ h) in
          (u, rw (visit_all, e) rest)
      | inr e ↦ (t, inr (rw (visit_all, e) refl))
    ]

Returns-unless_marked :
    (d o : Bool) (node : String) (s : Marks) (a : Answer)
    → (d ≡ false → o ≡ false → Returns a)
    → Returns (unless_marked d o s (finish node a))
Returns-unless_marked true o node s a h = (s, inl refl)
Returns-unless_marked false true node s a h = (s, inr refl)
Returns-unless_marked false false node s a h =
    let (t, answer) = h refl refl in
    elim answer [
      | inl e ↦ (leave node t, inl (ap (finish node) e))
      | inr e ↦ (t, inr (ap (finish node) e))
    ]

module _ (dag : ExportDag) where
  visit-Returns_from :
      (fuel : ℕ) (node : String) (s : Marks)
      → suc (pending dag s.on_path) ≤ fuel
      → Returns (visit dag fuel node s)
  unfolding visit parents_of visit_all
  visit-Returns_from zero node s h = absurd (omega arith)
  visit-Returns_from (suc fuel) node s h =
      Returns-unless_marked (contains s.done node) (contains s.on_path node) node s
        (visit_all (visit dag fuel) (parents_of dag node) (enter node s))
        (λ new fresh. elim (Option-cases (get node dag)) [
          | inl alone ↦ rw (parents_of, alone) (enter node s, inl refl)
          | inr (ps, found) ↦
              all-Returns (visit dag fuel) (parents_of dag node) (enter node s)
                (insert_text node s.on_path)
                (λ p u e.
                  visit-Returns_from fuel p u
                    (rw e (omega (arith, pending-enter dag node s.on_path ps fresh found))))
                (restored dag fuel) refl
        ])

  -- The search for the ancestors of any node of any graph, cyclic ones among them, ends within its fuel.
  pub visit-Returns : (node : String) → Returns (visit dag (length dag + 1) node start)
  visit-Returns node =
      visit-Returns_from (length dag + 1) node start (omega (arith, pending-nil dag))
