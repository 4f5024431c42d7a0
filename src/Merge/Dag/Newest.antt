-- ===== src/Merge/Dag/Newest.antt =====
-- `ancestors` and `newest_common_ancestor` against what they mean.
use carryctx.Base.{
  ◌+◌, String, true, false, none, some, List, [], ◌∷◌, ◌≡◌, ◌↔◌, inl, inr, refl, ap, ◌∙◌, subst,
  arith, ◌==◌, eq_iff, Bool-cases, Option-cases, length, keep, contains, contains-keep, text_lt,
  text_lt_irrefl, text_asym, not_before_trans, text_lt-either, Text-cases,
}
use carryctx.Merge.Dag.{
  ExportDag, Marks, visit, start, ancestors, result_of, newest, newest_common,
  newest_common_ancestor,
}
use carryctx.Merge.Dag.Fuel.{visit-Returns}
use carryctx.Merge.Dag.Visit.{restored}
use carryctx.Merge.Dag.Ancestors.{Ancestor, IsOrdered-Ancestor, IsOrdered-acyclic}
use carryctx.Merge.Dag.Closed.{IsGood, visit_extends}
use carryctx.Merge.Dag.Cycle.{HasCycle, visit_fails}

module _ (dag : ExportDag) where
  start-IsGood : IsGood dag start
  start-IsGood = record { ordered = tt; marked = λ v. refl }

  -- A search that succeeds answers the ancestors, and none of them is on a cycle.
  visited :
      (u : String) (t : Marks)
      → visit dag (length dag + 1) u start ≡ some (true, t)
      → ((v : String) → (contains t.result v ≡ true) ↔ Ancestor dag u v) × (¬ HasCycle dag u)
  visited u t h =
      let (x, root) = visit_extends dag (length dag + 1) u start t start-IsGood h in
      let path = restored dag (length dag + 1) u start t h in
      (
        λ v. (
          λ m. elim (x.new v m) [ inl old ↦ cc old | inr a ↦ a ],
          λ a.
              ground
                (arith, x.good.marked v, IsOrdered-Ancestor dag t.done u x.good.ordered root a),
        ),
        λ (c, a, cycle).
            IsOrdered-acyclic dag t.done c x.good.ordered
              (IsOrdered-Ancestor dag t.done u x.good.ordered root a) cycle,
      )

  -- The search for ancestors fails exactly when the node has an ancestor on a cycle.
  pub ancestors-none_iff : (u : String) → (ancestors dag u ≡ none) ↔ HasCycle dag u
  unfolding ancestors
  ancestors-none_iff u =
      let (t, answer) = visit-Returns dag u in
      elim answer [
        | inl e ↦ (λ h. cc (ap result_of e, h), λ c. absurd ((visited u t e).1 c))
        | inr e ↦
            (λ h. visit_fails dag (length dag + 1) u start t (λ v m. cc m) e, λ c. ap result_of e)
      ]

  -- The set that the search for ancestors answers has the ancestors and nothing else.
  pub contains-ancestors :
      (u v : String) (set : List String)
      → ancestors dag u ≡ some set
      → (contains set v ≡ true) ↔ Ancestor dag u v
  unfolding ancestors
  contains-ancestors u v set h =
      let (t, answer) = visit-Returns dag u in
      elim answer [
        | inl e ↦
            let same : t.result ≡ set = cc (ap result_of e, h) in
            subst (λ x. (contains x v ≡ true) ↔ Ancestor dag u v) same ((visited u t e).0 v)
        | inr e ↦ cc (ap result_of e, h)
      ]

newest-none : (set : List String) (v : String) → newest set ≡ none → contains set v ≡ false
unfolding newest
newest-none [] v h = refl
newest-none (a ∷ set) v h = elim (Option-cases (newest set)) [
  | inl e ↦ cc (rw (newest, e) at h)
  | inr (b, e) ↦ cc (rw (newest, e) at h)
]

-- The greatest element of a set.
abbrev IsGreatest : List String → String → Type 0
IsGreatest set c =
    (contains set c ≡ true) × ((v : String) → contains set v ≡ true → text_lt c v ≡ false)

newest-IsGreatest : (set : List String) (c : String) → newest set ≡ some c → IsGreatest set c
unfolding newest
newest-IsGreatest [] c h = cc
newest-IsGreatest (a ∷ set) c h = elim (Option-cases (newest set)) [
  | inl e ↦
      let same : a ≡ c = cc (rw (newest, e) at h) in
      (
        ground (arith, same, eq_iff a c),
        λ v m. ground (arith, same, eq_iff a v, newest-none set v e, text_lt_irrefl c, m),
      )
  | inr (b, e) ↦
      let (member, top) = newest-IsGreatest set b e in
      elim (Bool-cases (text_lt a b)) [
        | inl before ↦
            let same : b ≡ c = cc (rw (newest, e, before) at h) in
            (
              ground (arith, same, member),
              λ v m. elim (Bool-cases (a == v)) [
                | inl first ↦ ground (arith, same, eq_iff a v, text_asym b a before)
                | inr other ↦ ground (arith, same, top v, m, other)
              ],
            )
        | inr after ↦
            let same : a ≡ c = cc (rw (newest, e, after) at h) in
            (
              ground (arith, same, eq_iff a c),
              λ v m. elim (Bool-cases (a == v)) [
                | inl first ↦ ground (arith, same, eq_iff a v, text_lt_irrefl a)
                | inr other ↦ ground (
                  arith,
                  same,
                  other,
                  m,
                  not_before_trans v b a (top v (ground (arith, m, other))) after,
                )
              ],
            )
      ]
]

module _ (dag : ExportDag) (ours theirs : String) where
  -- The newest of the common ancestors.
  abbrev pub IsNewestCommon : String → Type 0
  IsNewestCommon c =
      Ancestor dag ours c
      × Ancestor dag theirs c
      × ((v : String) → Ancestor dag ours v → Ancestor dag theirs v → text_lt c v ≡ false)

  IsNewestCommon-unique : (c d : String) → IsNewestCommon c → IsNewestCommon d → c ≡ d
  IsNewestCommon-unique c d (a, b, top) (a', b', top') = elim (Text-cases c d) [
    | inl same ↦ same
    | inr differ ↦ ground (arith, text_lt-either c d differ, top d a' b', top' c a b)
  ]

  common :
      (mine yours : List String) (c : String)
      → ancestors dag ours ≡ some mine
      → ancestors dag theirs ≡ some yours
      → (IsGreatest (keep (contains yours) mine) c → IsNewestCommon c)
        × (IsNewestCommon c → contains (keep (contains yours) mine) c ≡ true)
  common mine yours c h k =
      let o = λ (v : String). contains-ancestors dag ours v mine h in
      let t = λ (v : String). contains-ancestors dag theirs v yours k in
      let both = contains-keep (contains yours) mine in
      (
        λ (m, top). (
          (o c).0 (ground (arith, m, both c)),
          (t c).0 (ground (arith, m, both c)),
          λ v a b. top v (ground (arith, (o v).1 a, (t v).1 b, both v)),
        ),
        λ (a, b, _). ground (arith, (o c).1 a, (t c).1 b, both c),
      )

  newest_is :
      (c : String) (mine yours : List String)
      → ancestors dag ours ≡ some mine
      → ancestors dag theirs ≡ some yours
      → IsNewestCommon c
      → newest (keep (contains yours) mine) ≡ some c
  newest_is c mine yours e f n =
      let both = keep (contains yours) mine in
      elim (Option-cases (newest both)) [
        | inl g ↦ cc (newest-none both c g, (common mine yours c e f).1 n)
        | inr (d, g) ↦
            let other = (common mine yours d e f).0 (newest-IsGreatest both d g) in
            g ∙ ap some (IsNewestCommon-unique d c other n)
      ]

  -- The merge base is the newest of the common ancestors, by the order of the export ids, and there is
  -- one exactly when neither side has a cycle among its ancestors and the two have a common ancestor.
  pub newest_common_ancestor_iff :
      (c : String)
      → (newest_common_ancestor dag ours theirs ≡ some c)
        ↔ (IsNewestCommon c × (¬ HasCycle dag ours) × (¬ HasCycle dag theirs))
  unfolding newest_common_ancestor newest_common
  newest_common_ancestor_iff c = (
    λ h. elim (Option-cases (ancestors dag ours)) [
      | inl e ↦ cc (rw e at h)
      | inr (mine, e) ↦ elim (Option-cases (ancestors dag theirs)) [
        | inl f ↦ cc (rw (e, f) at h)
        | inr (yours, f) ↦ (
          (common mine yours c e f).0
              (newest-IsGreatest (keep (contains yours) mine) c (rw (e, f) at h)),
          λ k. cc ((ancestors-none_iff dag ours).1 k, e),
          λ k. cc ((ancestors-none_iff dag theirs).1 k, f),
        )
      ]
    ],
    λ (n, a, b). elim (Option-cases (ancestors dag ours)) [
      | inl e ↦ absurd (a ((ancestors-none_iff dag ours).0 e))
      | inr (mine, e) ↦ elim (Option-cases (ancestors dag theirs)) [
        | inl f ↦ absurd (b ((ancestors-none_iff dag theirs).0 f))
        | inr (yours, f) ↦ rw (e, f) (newest_is c mine yours e f n)
      ]
    ],
  )
