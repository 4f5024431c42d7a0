-- ===== src/Merge/Dag/Closed.antt =====
-- A visit that succeeds has put the ancestors of its node, and nothing else, into the result.
use carryctx.Base.{
  ℕ, zero, suc, String, true, not, ◌||◌, some, List, [], ◌∷◌, ◌≡◌, ◌⊎◌, inl, inr, ap, subst, arith,
  ◌==◌, eq_iff, Bool-cases, contains, contains-keep,
}
use carryctx.Merge.Dag.{
  ExportDag, parents_of, Marks, insert_text, enter, leave, Answer, visit_all, visit,
}
use carryctx.Merge.Dag.Visit.{visit_all-cons, visit-true, visit-zero, all_restored, restored}
use carryctx.Merge.Dag.Ancestors.{
  Parent, Ancestor, here, Ancestor-of_Parent, contains-insert_text, IsOrdered,
}

module _ (dag : ExportDag) where
  -- The finished nodes are in order, and the result is these and the path.
  pub record IsGood (s : Marks) : Type 0 where
    pub ordered : IsOrdered dag s.done
    pub marked : (v : String) → contains s.result v ≡ (contains s.done v || contains s.on_path v)

  -- From `s` to `t` nothing is lost, and what is new in the result comes from `Origin`.
  pub record Extends (s t : Marks) (Origin : String → Type 0) : Type 0 where
    pub good : IsGood t
    pub kept : (v : String) → contains s.done v ≡ true → contains t.done v ≡ true
    pub new : (v : String) → contains t.result v ≡ true → (contains s.result v ≡ true) ⊎ Origin v

  Extends-refl : (s : Marks) (Origin : String → Type 0) → IsGood s → Extends s s Origin
  Extends-refl s Origin g = record { good = g; kept = λ v m. m; new = λ v m. inl m }

  -- The ancestors of some of the nodes.
  abbrev OfSome : List String → String → Type 0
  OfSome ps v = (p : String) × (contains ps p ≡ true) × Ancestor dag p v

  Extends-cons :
      (s u t : Marks) (p : String) (ps : List String)
      → Extends s u (Ancestor dag p)
      → Extends u t (OfSome ps)
      → Extends s t (OfSome (p ∷ ps))
  Extends-cons s u t p ps a b = record {
    good = b.good;
    kept = λ v m. b.kept v (a.kept v m);
    new = λ v m. elim (b.new v m) [
      | inl old ↦ elim (a.new v old) [
        | inl older ↦ inl older
        | inr first ↦ inr (p, ground (arith, eq_iff p p), first)
      ]
      | inr (q, member, later) ↦ inr (q, ground (arith, member), later)
    ];
  }

  all_extends :
      (visit_one : String → Marks → Answer) (ps : List String) (s t : Marks)
      → ((p : String) (u v : Marks)
          → IsGood u
          → visit_one p u ≡ some (true, v)
          → Extends u v (Ancestor dag p) × (contains v.done p ≡ true))
      → IsGood s
      → visit_all visit_one ps s ≡ some (true, t)
      → Extends s t (OfSome ps) × ((p : String) → contains ps p ≡ true → contains t.done p ≡ true)
  unfolding visit_all
  all_extends visit_one [] s t one g h =
      (subst (λ x. Extends s x (OfSome [])) (cc h) (Extends-refl s (OfSome []) g), λ p m. cc)
  all_extends visit_one (p ∷ ps) s t one g h = elim (visit_all-cons visit_one p ps s t true h) [
    | inl (_, e) ↦ cc e
    | inr (u, e, rest) ↦
        let (first, finished) = one p s u g e in
        let (others, all) = all_extends visit_one ps u t one first.good rest in
        (
          Extends-cons s u t p ps first others,
          λ q m. elim (Bool-cases (p == q)) [
            | inl same ↦
                others.kept q (subst (λ x. contains u.done x ≡ true) ((eq_iff p q).0 same) finished)
            | inr differ ↦ all q (ground (arith, m, differ))
          ],
        )
  ]

  IsGood-enter : (node : String) (s : Marks) → IsGood s → IsGood (enter node s)
  IsGood-enter node s g = record {
    ordered = g.ordered;
    marked = λ v. ground (
      arith,
      g.marked v,
      contains-insert_text node s.result v,
      contains-insert_text node s.on_path v,
    );
  }

  IsOrdered-insert_text :
      (node : String) (us : List String)
      → IsOrdered dag us
      → ((v : String) → Parent dag node v → contains us v ≡ true)
      → IsOrdered dag (insert_text node us)
  IsOrdered-insert_text node us o all = elim (Bool-cases (contains us node)) [
    | inl old ↦ rw old o
    | inr new ↦ rw new (new, all, o)
  ]

  IsGood-leave :
      (node : String) (path : List String) (u : Marks)
      → u.on_path ≡ insert_text node path
      → ((v : String) → Parent dag node v → contains u.done v ≡ true)
      → IsGood u
      → IsGood (leave node u)
  IsGood-leave node path u e all g = record {
    ordered = IsOrdered-insert_text node u.done g.ordered all;
    marked = λ v. ground (
      arith,
      g.marked v,
      contains-insert_text node u.done v,
      contains-keep (λ x. not (x == node)) u.on_path v,
      ap (λ x. contains x v) e,
      contains-insert_text node path v,
      eq_iff node v,
      eq_iff v node,
    );
  }

  Extends-leave :
      (node : String) (s u : Marks)
      → IsGood (leave node u)
      → Extends (enter node s) u (OfSome (parents_of dag node))
      → Extends s (leave node u) (Ancestor dag node)
  Extends-leave node s u g x = record {
    good = g;
    kept = λ v m. ground (arith, x.kept v m, contains-insert_text node u.done v);
    new = λ v m. elim (x.new v m) [
      | inl old ↦ elim (Bool-cases (node == v)) [
        | inl same ↦ inr (subst (Ancestor dag node) ((eq_iff node v).0 same) here)
        | inr differ ↦ inl (ground (arith, old, differ, contains-insert_text node s.result v))
      ]
      | inr (p, parent, a) ↦ inr (Ancestor-of_Parent parent a)
    ];
  }

  -- A visit that succeeds.
  pub visit_extends :
      (fuel : ℕ) (node : String) (s t : Marks)
      → IsGood s
      → visit dag fuel node s ≡ some (true, t)
      → Extends s t (Ancestor dag node) × (contains t.done node ≡ true)
  visit_extends zero node s t g h = cc (visit-zero dag node s, h)
  visit_extends (suc fuel) node s t g h = elim (visit-true dag fuel node s t h) [
    | inl (old, e) ↦ rw e (Extends-refl s (Ancestor dag node) g, old)
    | inr (u, new, fresh, all, left) ↦
        let (x, parents) =
          all_extends (visit dag fuel) (parents_of dag node) (enter node s) u
            (λ p a b good k. visit_extends fuel p a b good k) (IsGood-enter node s g) all in
        let path =
          all_restored dag (visit dag fuel) (parents_of dag node) (enter node s) u
            (restored dag fuel) all in
        let good = IsGood-leave node s.on_path u path parents x.good in
        rw left (
          Extends-leave node s u good x,
          ground (arith, contains-insert_text node u.done node, eq_iff node node),
        )
  ]
