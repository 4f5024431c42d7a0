-- ===== src/Merge/Dag/Visit.antt =====
-- `visit` ends within its fuel, and a visit that succeeds leaves the path as it was.
use carryctx.Base.{
  ℕ, zero, suc, String, Bool, true, false, not, none, some, List, [], ◌∷◌, ◌≡◌, ◌⊎◌, inl, inr, refl,
  ap, ◌∙◌, arith, ◌==◌, eq_iff, Option-cases, keep, contains,
}
use carryctx.Merge.Dag.{
  ExportDag, parents_of, Marks, insert_text, enter, leave, Answer, visit_all, finish, visit,
  unless_marked,
}

-- How a loop over parents that is not empty came to its answer.
pub visit_all-cons :
    (visit_one : String → Marks → Answer) (p : String) (ps : List String) (s t : Marks) (b : Bool)
    → visit_all visit_one (p ∷ ps) s ≡ some (b, t)
    → ((visit_one p s ≡ some (false, t)) × (b ≡ false))
      ⊎ ((u : Marks) × (visit_one p s ≡ some (true, u)) × (visit_all visit_one ps u ≡ some (b, t)))
unfolding visit_all
visit_all-cons visit_one p ps s t b h = elim (Option-cases (visit_one p s)) [
  | inl out ↦ cc (rw (visit_all, out) at h)
  | inr ((true, u), e) ↦ inr (u, e, (rw (visit_all, e) at h))
  | inr ((false, u), e) ↦ inl (answer_ends visit_one p s t u b e (rw (visit_all, e) at h))
]
  where
    answer_ends :
        (visit_one : String → Marks → Answer) (p : String) (s t u : Marks) (b : Bool)
        → visit_one p s ≡ some (false, u)
        → Path Answer (some (false, u)) (some (b, t))
        → (visit_one p s ≡ some (false, t)) × (b ≡ false)
    answer_ends visit_one p s t u b e k = (cc (e, k), cc k)

unless_marked_cases :
    (d o : Bool) (s t : Marks) (b : Bool) (inner : Answer)
    → unless_marked d o s inner ≡ some (b, t)
    → ((d ≡ true) × (b ≡ true) × (t ≡ s))
      ⊎ (((o ≡ true) × (b ≡ false)) ⊎ ((d ≡ false) × (o ≡ false) × (inner ≡ some (b, t))))
unless_marked_cases true o s t b inner h = inl (refl, cc h, cc h)
unless_marked_cases false true s t b inner h = inr (inl (refl, cc h))
unless_marked_cases false false s t b inner h = inr (inr (refl, refl, h))

finish-true :
    (node : String) (a : Answer) (t : Marks)
    → finish node a ≡ some (true, t)
    → (u : Marks) × (a ≡ some (true, u)) × (t ≡ leave node u)
finish-true node none t h = cc
finish-true node (some (true, u)) t h = (u, refl, cc h)
finish-true node (some (false, u)) t h = cc

pub finish-false :
    (node : String) (a : Answer) (t : Marks) → finish node a ≡ some (false, t) → a ≡ some (false, t)
finish-false node none t h = cc
finish-false node (some (true, u)) t h = cc
finish-false node (some (false, u)) t h = h

keep-other :
    (node : String) (path : List String)
    → contains path node ≡ false
    → keep (λ v. not (v == node)) path ≡ path
keep-other node [] h = refl
keep-other node (v ∷ path) h = ground (arith, h, keep-other node path)

keep-enter :
    (node : String) (path : List String)
    → contains path node ≡ false
    → keep (λ v. not (v == node)) (insert_text node path) ≡ path
keep-enter node path h = ground (arith, h, keep-other node path h, eq_iff node node)

module _ (dag : ExportDag) where
  -- How a visit came to its answer.
  visit-suc :
      (fuel : ℕ) (node : String) (s t : Marks) (b : Bool)
      → visit dag (suc fuel) node s ≡ some (b, t)
      → ((contains s.done node ≡ true) × (b ≡ true) × (t ≡ s))
        ⊎ (((contains s.on_path node ≡ true) × (b ≡ false))
            ⊎ ((contains s.done node ≡ false)
                × (contains s.on_path node ≡ false)
                × (finish node (visit_all (visit dag fuel) (parents_of dag node) (enter node s))
                    ≡ some (b, t))))
  unfolding visit
  visit-suc fuel node s t b h =
      unless_marked_cases (contains s.done node) (contains s.on_path node) s t b
        (finish node (visit_all (visit dag fuel) (parents_of dag node) (enter node s))) h

  -- A visit that succeeds found the node done, or visited the parents and left it.
  pub visit-true :
      (fuel : ℕ) (node : String) (s t : Marks)
      → visit dag (suc fuel) node s ≡ some (true, t)
      → ((contains s.done node ≡ true) × (t ≡ s))
        ⊎ ((u : Marks) × (contains s.done node ≡ false)
            × (contains s.on_path node ≡ false)
            × (visit_all (visit dag fuel) (parents_of dag node) (enter node s) ≡ some (true, u))
            × (t ≡ leave node u))
  visit-true fuel node s t h = elim (visit-suc fuel node s t true h) [
    | inl (old, _, e) ↦ inl (old, e)
    | inr (inl (_, e)) ↦ cc e
    | inr (inr (new, fresh, e)) ↦
        let (u, all, left) =
          finish-true node (visit_all (visit dag fuel) (parents_of dag node) (enter node s)) t e in
        inr (u, new, fresh, all, left)
  ]

  -- A visit that fails found the node on the path, or fails on a parent.
  pub visit-false :
      (fuel : ℕ) (node : String) (s t : Marks)
      → visit dag (suc fuel) node s ≡ some (false, t)
      → (contains s.on_path node ≡ true)
        ⊎ ((contains s.on_path node ≡ false)
            × (visit_all (visit dag fuel) (parents_of dag node) (enter node s) ≡ some (false, t)))
  visit-false fuel node s t h = elim (visit-suc fuel node s t false h) [
    | inl (_, e, _) ↦ cc e
    | inr (inl (cycle, _)) ↦ inl cycle
    | inr (inr (_, fresh, e)) ↦ inr (
      fresh,
      finish-false node (visit_all (visit dag fuel) (parents_of dag node) (enter node s)) t e,
    )
  ]

  pub visit-zero : (node : String) (s : Marks) → visit dag zero node s ≡ none
  unfolding visit
  visit-zero node s = refl

  pub all_restored :
      (visit_one : String → Marks → Answer) (ps : List String) (s t : Marks)
      → ((p : String) (u v : Marks) → visit_one p u ≡ some (true, v) → v.on_path ≡ u.on_path)
      → visit_all visit_one ps s ≡ some (true, t)
      → t.on_path ≡ s.on_path
  unfolding visit_all
  all_restored visit_one [] s t one h = cc h
  all_restored visit_one (p ∷ ps) s t one h = elim (visit_all-cons visit_one p ps s t true h) [
    | inl (_, e) ↦ cc e
    | inr (u, e, rest) ↦ all_restored visit_one ps u t one rest ∙ one p s u e
  ]

  -- A visit that succeeds leaves the path as it was.
  pub restored :
      (fuel : ℕ) (node : String) (s t : Marks)
      → visit dag fuel node s ≡ some (true, t)
      → t.on_path ≡ s.on_path
  restored zero node s t h = cc (visit-zero node s, h)
  restored (suc fuel) node s t h = elim (visit-true fuel node s t h) [
    | inl (_, e) ↦ ap (λ x. x.on_path) e
    | inr (u, new, fresh, all, left) ↦
        ap (λ x. x.on_path) left
        ∙ ap (keep (λ v. not (v == node))) (
            all_restored (visit dag fuel) (parents_of dag node) (enter node s) u (restored fuel)
              all)
        ∙ keep-enter node s.on_path fresh
  ]
