-- ===== src/Merge/Aliases/Stable.antt =====
-- A survivor is not folded into another agent, where an id has one name on both sides.
use carryctx.Base.{
  String, true, false, none, some, List, [], ◌∷◌, map, ◌≡◌, ◌≢◌, ◌⊎◌, inl, inr, refl, sym, ap, ◌∙◌,
  subst, arith, ◌==◌, eq_iff, Bool-cases, Option-cases, In, In-append, text_lt, text_lt_irrefl,
}
use mathlib.Core.Bool.{false≢true}
use carryctx.Merge.{Row, get, insert}
use carryctx.Merge.Facts.{get-insert}
use carryctx.Merge.Maps
use carryctx.Merge.Maps.{IsSorted}
use carryctx.Merge.Index.{RowIndex}
use carryctx.Merge.Loop.{KeySet}
use carryctx.Merge.Aliases.{
  AgentAlias, Group, add_agents, name_of, alias_of, aliases_of, all_aliases, plan_aliases, Remap,
  collect,
}
use carryctx.Merge.Aliases.Groups.{Sound, add_agents-Sound, Sound-unique, Sound-In}

module _ {A : Type 0} where
  In-lt :
      (k d : String) (v : A) (m : List (String × A))
      → Maps.Above k m
      → In (d, v) m
      → text_lt k d ≡ true
  In-lt k d v [] above h = absurd h
  In-lt k d v ((e, w) ∷ m) (first, above) h = elim h [
    | inl here ↦ subst (λ (x : String × A). text_lt k x.0 ≡ true) (sym here) first
    | inr later ↦ In-lt k d v m above later
  ]

  -- An entry of a map is what the map has under its key.
  pub In-get :
      (k : String) (v : A) (m : List (String × A)) → IsSorted m → In (k, v) m → get k m ≡ some v
  unfolding get
  In-get k v [] s h = absurd h
  In-get k v ((d, w) ∷ m) (above, s) h = elim h [
    | inl here ↦
        let same = (eq_iff k d).1 (ap (λ (x : String × A). x.0) here) in
        rw same (ap (λ (x : String × A). some x.1) (sym here))
    | inr later ↦
        let before = In-lt d k v m above later in
        let differ : (k == d) ≡ false =
          ground (arith, before, eq_iff k d, text_lt_irrefl d, ap (text_lt d)) in
        rw differ (In-get k v m s later)
  ]

-- Where both sides have an agent of one id, they have it in one project under one name.
abbrev pub OneName : RowIndex → RowIndex → Type 0
OneName ours theirs =
    (id : String) (o t : Row)
    → get id ours ≡ some o
    → get id theirs ≡ some t
    → name_of o ≡ name_of t

-- A side has the agent under that name.
abbrev Named : RowIndex → RowIndex → String × String → String → Type 0
Named ours theirs name id =
    (row : Row) × (name_of row ≡ some name)
    × ((get id ours ≡ some row) ⊎ (get id theirs ≡ some row))

module _ (ours theirs : RowIndex) (one : OneName ours theirs) where
  Named-unique :
      (a b : String × String) (id : String)
      → Named ours theirs a id
      → Named ours theirs b id
      → a ≡ b
  Named-unique a b id (r, e, h) (q, f, k) = elim h [
    | inl o ↦ elim k [ inl o' ↦ cc | inr t ↦ cc (one id r q o t) ]
    | inr t ↦ elim k [ inl o ↦ cc (one id q r o t) | inr t' ↦ cc ]
  ]

  abbrev gathered : List Group
  gathered = add_agents theirs (add_agents ours [])

  gathered-Sound : IsSorted ours → IsSorted theirs → Sound (Named ours theirs) gathered
  gathered-Sound s t =
      add_agents-Sound (Named ours theirs) theirs (add_agents ours [])
        (λ id row name m e. (row, e, inr (In-get id row theirs t m)))
        (add_agents-Sound (Named ours theirs) ours []
          (λ id row name m e. (row, e, inl (In-get id row ours s m))) tt)

-- The group that an alias comes from, with its survivor at the head.
abbrev From : List Group → AgentAlias → Type 0
From groups a =
    (name : String × String) × (u : Unit {0}) × (v : Unit {0}) × (losers : KeySet) × In
      (name, (a.existing_agent_id, u) ∷ losers) groups
    × In (a.incoming_agent_id, v) losers

In-map_alias :
    (name : String × String) (survivor : String) (losers : KeySet) (a : AgentAlias)
    → In a (map (λ (loser, _). alias_of name survivor loser) losers)
    → (v : Unit {0}) × (a.existing_agent_id ≡ survivor) × In (a.incoming_agent_id, v) losers
In-map_alias name survivor [] a m = absurd m
In-map_alias name survivor ((l, v) ∷ losers) a m = elim m [
  | inl here ↦ (
    v,
    ap (λ (x : AgentAlias). x.existing_agent_id) here,
    inl (ap (λ (x : AgentAlias). (x.incoming_agent_id, v)) here),
  )
  | inr later ↦ let (w, e, k) = In-map_alias name survivor losers a later in (w, e, inr k)
]

In-aliases_of :
    (g : Group) (groups : List Group) (a : AgentAlias)
    → In g groups
    → In a (aliases_of g)
    → From groups a
In-aliases_of (name, []) groups a k m = absurd m
In-aliases_of (name, (survivor, u) ∷ losers) groups a k m =
    let (v, e, l) = In-map_alias name survivor losers a m in
    (name, u, v, losers, subst (λ x. In (name, (x, u) ∷ losers) groups) (sym e) k, l)

In-all_aliases : (groups : List Group) (a : AgentAlias) → In a (all_aliases groups) → From groups a
unfolding all_aliases
In-all_aliases [] a m = absurd m
In-all_aliases (g ∷ groups) a m = elim ((In-append a (aliases_of g) (all_aliases groups)).0 m) [
  | inl here ↦ In-aliases_of g (g ∷ groups) a (inl refl) here
  | inr later ↦
      let (name, u, v, losers, k, l) = In-all_aliases groups a later in
      (name, u, v, losers, inr k, l)
]

get-collect :
    (aliases : List AgentAlias) (remap : Remap) (id e : String)
    → get id (collect remap aliases) ≡ some e
    → (get id remap ≡ some e)
      ⊎ ((a : AgentAlias) × In a aliases × (a.incoming_agent_id ≡ id) × (a.existing_agent_id ≡ e))
unfolding collect
get-collect [] remap id e h = inl h
get-collect (a ∷ aliases) remap id e h =
    elim (get-collect aliases (insert a.incoming_agent_id a.existing_agent_id remap) id e h) [
      | inl old ↦ elim (Bool-cases (id == a.incoming_agent_id)) [
        | inl same ↦ inr (
          a,
          inl refl,
          sym ((eq_iff id a.incoming_agent_id).0 same),
          ground (arith, same, old, get-insert id a.incoming_agent_id a.existing_agent_id remap),
        )
        | inr differ ↦ inl (
            ground
              (arith, differ, old, get-insert id a.incoming_agent_id a.existing_agent_id remap))
      ]
      | inr (b, m, i, j) ↦ inr (b, inr m, i, j)
    ]

-- What an id is mapped to is not mapped again.
abbrev pub Stable : Remap → Type 0
Stable remap = (id e : String) → get id remap ≡ some e → get e remap ≡ none

source :
    (gs : List Group) (x y : String)
    → get x (collect [] (all_aliases gs)) ≡ some y
    → (a : AgentAlias) × From gs a × (a.incoming_agent_id ≡ x) × (a.existing_agent_id ≡ y)
unfolding get
source gs x y h = elim (get-collect (all_aliases gs) [] x y h) [
  | inl n ↦ cc
  | inr (a, m, i, j) ↦ (a, In-all_aliases gs a m, i, j)
]

-- The survivor of one alias is not the folded agent of another.
clash :
    (ours theirs : RowIndex)
    → OneName ours theirs
    → (gs : List Group) → Sound (Named ours theirs) gs
    → (a b : AgentAlias) → From gs a
    → From gs b
    → a.existing_agent_id ≢ b.incoming_agent_id
unfolding get
clash ours theirs one gs sound a b (n, u, v, losers, g, l) (m, u', v', others, h, k) same =
    let e = a.existing_agent_id in
    let P = Named ours theirs in
    let (_, all) = Sound-In P gs (n, (e, u) ∷ losers) sound g in
    let (rising, every) = Sound-In P gs (m, (b.existing_agent_id, u') ∷ others) sound h in
    let p = all e u (ground (arith, eq_iff e e)) in
    let q =
      every b.incoming_agent_id v'
        (In-get b.incoming_agent_id v' ((b.existing_agent_id, u') ∷ others) rising (inr k)) in
    let name = Named-unique ours theirs one n m e p (subst (P m) (sym same) q) in
    let group =
      Sound-unique P gs (n, (e, u) ∷ losers) (m, (b.existing_agent_id, u') ∷ others) sound g h
        name in
    let heads : e ≡ b.existing_agent_id = cc (group) in
    let before = In-lt b.existing_agent_id b.incoming_agent_id v' others rising.0 k in
    false≢true (
      sym (text_lt_irrefl e)
      ∙ subst (λ x. text_lt x e ≡ true) (sym heads)
          (subst (λ x. text_lt b.existing_agent_id x ≡ true) (sym same) before))

pub collect-Stable :
    (ours theirs : RowIndex)
    → IsSorted ours
    → IsSorted theirs
    → OneName ours theirs
    → Stable (collect [] (plan_aliases ours theirs))
unfolding plan_aliases
collect-Stable ours theirs s t one id e h =
    let gs = gathered ours theirs one in
    let sound = gathered-Sound ours theirs one s t in
    let remap = collect [] (all_aliases gs) in
    elim (Option-cases (get e remap)) [
      | inl free ↦ free
      | inr (f, folded) ↦
          let (a, from, _, j) = source gs id e h in
          let (b, into, i, _) = source gs e f folded in
          absurd (clash ours theirs one gs sound a b from into (j ∙ sym i))
    ]
