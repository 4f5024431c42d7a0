-- ===== src/Merge/Aliases/Groups.antt =====
-- The groups of agents by project and name: no two groups have one name, and every id in a group is
-- there under the name of a row.
use carryctx.Base.{
  String, true, false, ◌==◌, Option, none, some, List, [], ◌∷◌, ◌≡◌, inl, inr, refl, sym, ap, ◌∙◌,
  subst, arith, eq_iff, Bool-cases, In, text_lt_trans, text_lt_irrefl, text_lt-either,
}
use mathlib.Core.Bool.{false≢true}
use carryctx.Merge.{Row, get, insert}
use carryctx.Merge.Facts.{get-insert}
use carryctx.Merge.Maps.{IsSorted, insert-IsSorted}
use carryctx.Merge.Index.{RowIndex}
use carryctx.Merge.Loop.{KeySet}
use carryctx.Merge.Aliases.{Group, pair_eq, pair_lt, add_member, add_named, add_agents, name_of}

pair_lt_irrefl : (a : String × String) → pair_lt a a ≡ false
pair_lt_irrefl (p, n) = ground (arith, eq_iff p p, text_lt_irrefl n)

pair_lt_trans :
    (a b c : String × String) → pair_lt a b ≡ true → pair_lt b c ≡ true → pair_lt a c ≡ true
pair_lt_trans (p, n) (q, m) (r, l) h k = ground (
  arith,
  h,
  k,
  eq_iff p q,
  eq_iff q r,
  eq_iff p r,
  text_lt_trans n m l,
  text_lt_trans p q r,
  text_lt_irrefl q,
  text_lt_irrefl p,
)

pair_lt-either :
    (a b : String × String) → pair_eq a b ≡ false → pair_lt a b ≡ false → pair_lt b a ≡ true
pair_lt-either (p, n) (q, m) e h =
    ground (arith, e, h, eq_iff p q, eq_iff q p, eq_iff n m, text_lt-either p q, text_lt-either n m)

abbrev pub Above : String × String → List Group → Type 0
Above a [] = Unit
Above a ((b, ids) ∷ groups) = (pair_lt a b ≡ true) × Above a groups

-- The names rise, the ids of a group rise, and `P` holds of the name and the id of every member.
abbrev pub Sound : (String × String → String → Type 0) → List Group → Type 0
Sound P [] = Unit
Sound P ((a, ids) ∷ groups) =
    Above a groups
    × IsSorted ids
    × ((id : String) (u : Unit {0}) → get id ids ≡ some u → P a id)
    × Sound P groups

Above-trans :
    (a b : String × String) (groups : List Group)
    → pair_lt a b ≡ true
    → Above b groups
    → Above a groups
Above-trans a b [] h k = tt
Above-trans a b ((c, ids) ∷ groups) h (k, rest) =
    (pair_lt_trans a b c h k, Above-trans a b groups h rest)

Above-add_member :
    (a name : String × String) (id : String) (groups : List Group)
    → pair_lt a name ≡ true
    → Above a groups
    → Above a (add_member name id groups)
unfolding add_member
Above-add_member a name id [] h k = (h, tt)
Above-add_member a name id ((b, ids) ∷ groups) h (k, rest) = elim (Bool-cases (pair_eq name b)) [
  | inl same ↦ rw same (k, rest)
  | inr differ ↦ elim (Bool-cases (pair_lt name b)) [
    | inl before ↦ rw (differ, before) (h, (k, rest))
    | inr after ↦ rw (differ, after) (k, Above-add_member a name id groups h rest)
  ]
]

pair_eq_iff : (a b : String × String) → pair_eq a b ≡ true → a ≡ b
pair_eq_iff (p, n) (q, m) h = ground (arith, h, eq_iff p q, eq_iff n m)

module _ (P : String × String → String → Type 0) where
  alone :
      (name : String × String) (id : String)
      → P name id
      → (k : String) (u : Unit {0}) → get k ((id, tt) ∷ []) ≡ some u
      → P name k
  unfolding get
  alone name id p k u h = elim (Bool-cases (k == id)) [
    | inl same ↦ subst (P name) (sym ((eq_iff k id).0 same)) p
    | inr differ ↦ absurd (ground (arith, differ, h))
  ]

  joined :
      (name : String × String) (id : String) (ids : KeySet)
      → P name id
      → ((k : String) (u : Unit {0}) → get k ids ≡ some u → P name k)
      → (k : String) (u : Unit {0}) → get k (insert id tt ids) ≡ some u
      → P name k
  joined name id ids p all k u h = elim (Bool-cases (k == id)) [
    | inl same ↦ subst (P name) (sym ((eq_iff k id).0 same)) p
    | inr differ ↦ all k u (ground (arith, differ, h, get-insert k id tt ids))
  ]

  pub add_member-Sound :
      (name : String × String) (id : String) (groups : List Group)
      → P name id
      → Sound P groups
      → Sound P (add_member name id groups)
  unfolding add_member
  add_member-Sound name id [] p s = (tt, (tt, tt), alone name id p, tt)
  add_member-Sound name id ((b, ids) ∷ groups) p (above, rising, all, rest) =
      elim (Bool-cases (pair_eq name b)) [
        | inl same ↦ rw same (
          above,
          insert-IsSorted id tt ids rising,
          joined b id ids (subst (λ x. P x id) (pair_eq_iff name b same) p) all,
          rest,
        )
        | inr differ ↦ elim (Bool-cases (pair_lt name b)) [
          | inl before ↦
              rw (differ, before)
                (
                  (before, Above-trans name b groups before above),
                  (tt, tt),
                  alone name id p,
                  (above, rising, all, rest),
                )
          | inr after ↦
              rw (differ, after)
                (
                  Above-add_member b name id groups (pair_lt-either name b differ after) above,
                  rising,
                  all,
                  add_member-Sound name id groups p rest,
                )
        ]
      ]

  add_named-Sound :
      (found : Option (String × String)) (id : String) (groups : List Group)
      → ((name : String × String) → found ≡ some name → P name id)
      → Sound P groups
      → Sound P (add_named found id groups)
  add_named-Sound none id groups p s = s
  add_named-Sound (some name) id groups p s = add_member-Sound name id groups (p name refl) s

  pub add_agents-Sound :
      (agents : RowIndex) (groups : List Group)
      → ((id : String) (row : Row) (name : String × String)
          → In (id, row) agents
          → name_of row ≡ some name
          → P name id)
      → Sound P groups
      → Sound P (add_agents agents groups)
  unfolding add_agents
  add_agents-Sound [] groups p s = s
  add_agents-Sound ((id, row) ∷ agents) groups p s =
      add_agents-Sound agents (add_named (name_of row) id groups) (λ i r n m e. p i r n (inr m) e)
        (add_named-Sound (name_of row) id groups (λ n e. p id row n (inl refl) e) s)

In-Above :
    (a : String × String) (g : Group) (groups : List Group)
    → Above a groups
    → In g groups
    → pair_lt a g.0 ≡ true
In-Above a g [] above m = absurd m
In-Above a g (h ∷ groups) (first, above) m = elim m [
  | inl e ↦ subst (λ (x : Group). pair_lt a x.0 ≡ true) (sym e) first
  | inr later ↦ In-Above a g groups above later
]

-- One group for each name.
pub Sound-unique :
    (P : String × String → String → Type 0) (groups : List Group) (g h : Group)
    → Sound P groups
    → In g groups
    → In h groups
    → g.0 ≡ h.0
    → g ≡ h
Sound-unique P [] g h s m n e = absurd m
Sound-unique P (f ∷ groups) g h (above, _, _, rest) m n e = elim m [
  | inl here ↦ elim n [
    | inl there ↦ here ∙ sym there
    | inr later ↦ absurd (
        false≢true (
          sym (pair_lt_irrefl f.0)
          ∙ subst (λ x. pair_lt f.0 x ≡ true) (sym e ∙ ap (λ (x : Group). x.0) here)
              (In-Above f.0 h groups above later)))
  ]
  | inr later ↦ elim n [
    | inl there ↦ absurd (
        false≢true (
          sym (pair_lt_irrefl f.0)
          ∙ subst (λ x. pair_lt f.0 x ≡ true) (e ∙ ap (λ (x : Group). x.0) there)
              (In-Above f.0 g groups above later)))
    | inr last ↦ Sound-unique P groups g h rest later last e
  ]
]

-- The members of a group, as the loops left them.
pub Sound-In :
    (P : String × String → String → Type 0) (groups : List Group) (g : Group)
    → Sound P groups
    → In g groups
    → IsSorted g.1 × ((id : String) (u : Unit {0}) → get id g.1 ≡ some u → P g.0 id)
Sound-In P [] g s m = absurd m
Sound-In P (f ∷ groups) g (_, rising, all, rest) m = elim m [
  | inl here ↦
      subst
        (λ (x : Group).
          IsSorted x.1 × ((id : String) (u : Unit {0}) → get id x.1 ≡ some u → P x.0 id))
        (sym here) (rising, all)
  | inr later ↦ Sound-In P groups g rest later
]
