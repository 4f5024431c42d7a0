-- ===== src/Merge/Renumber/Distinct.antt =====
-- After the renumbering no two rows of a table have one display id.
use carryctx.Base.{
  ℕ, ◌≤◌, String, some, List, [], ◌∷◌, ◌++◌, ◌≡◌, ◌⊎◌, inl, inr, refl, sym, ◌∙◌, subst, arith,
  Bool-cases, In, All, text_lt,
}
use carryctx.Merge.{Row}
use carryctx.Merge.Renumber.{
  Counters, DisplayKind, display_kind, renumber_all, but_first, sort_members, place_member, Groups,
  renumber_groups,
}
use carryctx.Merge.Renumber.Counters.{Respects}
use carryctx.Merge.Renumber.Fresh
use carryctx.Merge.Renumber.Issued
use carryctx.Merge.Renumber.Fresh.{Shows, Differ, Distinct}

module _ (sequences high_water : Counters) (table project : String) where
  abbrev next : Counters → String → ℕ
  next = Fresh.next sequences high_water table project

  abbrev pub Known : String → Type 0
  Known = Fresh.Known sequences high_water table project

  abbrev pub OfProject : String × Row → Type 0
  OfProject = Fresh.OfProject sequences high_water table project

  abbrev New : Counters → Counters → Row → Type 0
  New = Fresh.New sequences high_water table project

  abbrev pub Room : Counters → Type 0
  Room = Fresh.Room sequences high_water table project

  abbrev pub Rises : Counters → Counters → Type 0
  Rises = Fresh.Rises sequences high_water table project

  abbrev Ran : Counters → Counters → (Row → Type 0) → List Row → Type 0
  Ran = Issued.Ran sequences high_water table project

  -- A row of a group: of the project, with the display id of the group.
  abbrev pub OfGroup : String → String × Row → Type 0
  OfGroup d m = OfProject m × Shows m.1 d

  place_member-All :
      (P : String × Row → Type 0) (m : String × Row) (members : List (String × Row))
      → P m
      → All P members
      → All P (place_member m members)
  unfolding place_member
  place_member-All P m [] h a = (h, tt)
  place_member-All P m (n ∷ members) h (first, rest) = elim (Bool-cases (text_lt n.0 m.0)) [
    | inl later ↦ rw later (first, place_member-All P m members h rest)
    | inr here ↦ rw here (h, (first, rest))
  ]

  sort_members-All :
      (P : String × Row → Type 0) (members : List (String × Row))
      → All P members
      → All P (sort_members members)
  unfolding sort_members
  sort_members-All P [] a = tt
  sort_members-All P (m ∷ members) (first, rest) =
      place_member-All P m (sort_members members) first (sort_members-All P members rest)

  -- A row of the result: it shows one of the display ids, or a number that was given out.
  abbrev pub Old : List String → Row → Type 0
  Old ds row = (d : String) × In d ds × Shows row d

  abbrev pub Kept : List String → Counters → Counters → Row → Type 0
  Kept ds u v row = Old ds row ⊎ New u v row

  but_first-Ran :
      (d : String) (members : List (String × Row)) (u : Counters)
      → Known d
      → Respects sequences high_water u
      → All (OfGroup d) members
      → Room (but_first sequences high_water table d members u).0
      → Ran u
          (but_first sequences high_water table d members u).0
          (Kept (d ∷ []) u (but_first sequences high_water table d members u).0)
          (but_first sequences high_water table d members u).1
  but_first-Ran d [] u known r all room = (r, λ kind. omega arith, tt, tt)
  but_first-Ran d (m ∷ members) u (k, is, seen) r ((_, shown), rest) room =
      let v = (renumber_all sequences high_water table d members u).0 in
      let rows = (renumber_all sequences high_water table d members u).1 in
      let (rv, up, news, distinct) =
        Issued.renumber_all-Ran sequences high_water table project d k members u is r
          (members_of members rest) room in
      (
        rv,
        up,
        (
          inl (d, inl refl, shown),
          Issued.All-impl sequences high_water table project (New u v) (Kept (d ∷ []) u v) rows
              (λ row h. inr h) news,
        ),
        (
          Issued.All-impl sequences high_water table project (New u v) (Differ m.1) rows
              (λ row new e h i.
                Fresh.New-fresh sequences high_water table project u v d row r (k, is, seen) new
                  (subst (Shows row) (some-inj (sym h ∙ shown)) i))
              news,
          distinct,
        ),
      )
    where
      some-inj : {a b : String} → some a ≡ some b → a ≡ b
      some-inj e = cc

      members_of : (members : List (String × Row)) → All (OfGroup d) members → All OfProject members
      members_of [] a = tt
      members_of (m ∷ members) ((first, _), rest) = (first, members_of members rest)

  renumber_all-Rises :
      (d : String) (k : DisplayKind) (members : List (String × Row)) (u : Counters)
      → display_kind table d ≡ some k
      → All OfProject members
      → Rises u (renumber_all sequences high_water table d members u).0
  unfolding renumber_all
  renumber_all-Rises d k [] u is a kind = omega arith
  renumber_all-Rises d k (m ∷ members) u is (first, rest) kind =
      let (same, _) =
        Issued.renumber_all-cons sequences high_water table project d k m members u is first in
      let up =
        renumber_all-Rises d k members (Fresh.after sequences high_water table project k.kind u) is
          rest kind in
      subst (λ x. next u kind ≤ next x kind) (sym same)
        (omega (arith, up, Fresh.Rises-after sequences high_water table project k.kind u kind))

  members_of :
      (d : String) (members : List (String × Row)) → All (OfGroup d) members → All OfProject members
  members_of d [] a = tt
  members_of d (m ∷ members) ((first, _), rest) = (first, members_of d members rest)

  but_first-Rises :
      (d : String) (members : List (String × Row)) (u : Counters)
      → Known d
      → All (OfGroup d) members
      → Rises u (but_first sequences high_water table d members u).0
  but_first-Rises d [] u known a kind = omega arith
  but_first-Rises d (m ∷ members) u (k, is, _) (_, rest) kind =
      renumber_all-Rises d k members u is (members_of d members rest) kind

  -- Groups of rows of the project by their display ids, each id known and with one group.
  abbrev pub keys : Groups → List String
  keys [] = []
  keys ((d, _) ∷ groups) = d ∷ keys groups

  abbrev pub Grouped : Groups → Type 0
  Grouped [] = Unit
  Grouped ((d, members) ∷ groups) =
      Known d × All (OfGroup d) members × (¬ In d (keys groups)) × Grouped groups

  Known-In : (groups : Groups) (d : String) → Grouped groups → In d (keys groups) → Known d
  Known-In [] d g m = absurd m
  Known-In ((e, members) ∷ groups) d (known, _, _, rest) m = elim m [
    | inl here ↦ subst Known (sym here) known
    | inr later ↦ Known-In groups d rest later
  ]

  pub renumber_groups-Rises :
      (groups : Groups) (u : Counters)
      → Grouped groups
      → Rises u (renumber_groups sequences high_water table groups u).0
  unfolding renumber_groups
  renumber_groups-Rises [] u g kind = omega arith
  renumber_groups-Rises ((d, members) ∷ groups) u (known, of, _, rest) kind =
      let v = (but_first sequences high_water table d (sort_members members) u).0 in
      omega (
        arith,
        but_first-Rises d (sort_members members) u known (sort_members-All (OfGroup d) members of)
            kind,
        renumber_groups-Rises groups v rest kind,
      )

  All-append : (P : Row → Type 0) (xs ys : List Row) → All P xs → All P ys → All P (xs ++ ys)
  All-append P [] ys a b = b
  All-append P (x ∷ xs) ys (first, rest) b = (first, All-append P xs ys rest b)

  Distinct-append :
      (xs ys : List Row)
      → Distinct xs
      → Distinct ys
      → All (λ x. All (Differ x) ys) xs
      → Distinct (xs ++ ys)
  Distinct-append [] ys a b c = b
  Distinct-append (x ∷ xs) ys (first, a) b (across, c) =
      (All-append (Differ x) xs ys first across, Distinct-append xs ys a b c)

  some-inj : {a b : String} → some a ≡ some b → a ≡ b
  some-inj e = cc

  apart :
      (d : String) (groups : Groups) (u v w : Counters) (row other : Row)
      → Known d
      → (¬ In d (keys groups))
      → Grouped groups
      → Respects sequences high_water u
      → Respects sequences high_water v
      → Kept (d ∷ []) u v row
      → Kept (keys groups) v w other
      → Differ row other
  apart d groups u v w row other known alone g r rv p q e h i = elim p [
    | inl (d', m, shown) ↦
        let is : e ≡ d = elim m [ inl here ↦ some-inj (sym h ∙ shown) ∙ here | inr n ↦ absurd n ] in
        elim q [
          | inl (f, there, shown') ↦
              alone (subst (λ x. In x (keys groups)) (some-inj (sym shown' ∙ i) ∙ is) there)
          | inr new ↦
              Fresh.New-fresh sequences high_water table project v w d other rv known new
                (subst (Shows other) is i)
        ]
    | inr new ↦ elim q [
      | inl (f, there, shown') ↦
          Fresh.New-fresh sequences high_water table project u v f row r (Known-In groups f g there)
            new (subst (Shows row) (some-inj (sym i ∙ shown')) h)
      | inr newer ↦
          Fresh.New-Differ sequences high_water table project u v w row other new newer e h i
    ]
  ]

  Kept-widen :
      (short long : List String) (u u' v v' : Counters) (row : Row)
      → ((x : String) → In x short → In x long)
      → Rises u u'
      → Rises v v'
      → Room v'
      → Kept short u' v row
      → Kept long u v' row
  Kept-widen short long u u' v v' row grows rise up room h = elim h [
    | inl (e, m, shown) ↦ inl (e, grows e m, shown)
    | inr new ↦ inr (Fresh.widen sequences high_water table project u u' v v' row rise up room new)
  ]

  pub renumber_groups-Ran :
      (groups : Groups) (u : Counters)
      → Grouped groups
      → Respects sequences high_water u
      → Room (renumber_groups sequences high_water table groups u).0
      → Ran u
          (renumber_groups sequences high_water table groups u).0
          (Kept (keys groups) u (renumber_groups sequences high_water table groups u).0)
          (renumber_groups sequences high_water table groups u).1
  unfolding renumber_groups
  renumber_groups-Ran [] u g r room = (r, λ kind. omega arith, tt, tt)
  renumber_groups-Ran ((d, members) ∷ groups) u (known, of, alone, rest) r room =
      let sorted = sort_members-All (OfGroup d) members of in
      let first = but_first sequences high_water table d (sort_members members) u in
      let v = first.0 in
      let others = renumber_groups sequences high_water table groups v in
      let w = others.0 in
      let up = renumber_groups-Rises groups v rest in
      let room' : Room v = λ kind. omega (arith, up kind, room kind) in
      let (rv, rise, kept, distinct) =
        but_first-Ran d (sort_members members) u known r sorted room' in
      let (rw', _, kept', distinct') = renumber_groups-Ran groups v rest rv room in
      (
        rw',
        λ kind. omega (arith, rise kind, up kind),
        All-append (Kept (d ∷ keys groups) u w) first.1 others.1
            (Issued.All-impl sequences high_water table project (Kept (d ∷ []) u v)
              (Kept (d ∷ keys groups) u w) first.1
              (λ row.
                Kept-widen (d ∷ []) (d ∷ keys groups) u u v w row
                  (λ x m. elim m [ inl here ↦ inl here | inr n ↦ absurd n ]) (λ kind. omega arith)
                  up room)
              kept)
            (Issued.All-impl sequences high_water table project (Kept (keys groups) v w)
              (Kept (d ∷ keys groups) u w) others.1
              (λ row.
                Kept-widen (keys groups) (d ∷ keys groups) u v w w row (λ x m. inr m) rise
                  (λ kind. omega arith) room)
              kept'),
        Distinct-append first.1 others.1 distinct distinct' (
            Issued.All-impl sequences high_water table project (Kept (d ∷ []) u v)
              (λ x. All (Differ x) others.1) first.1
              (λ row p.
                Issued.All-impl sequences high_water table project (Kept (keys groups) v w)
                  (Differ row) others.1
                  (λ other q. apart d groups u v w row other known alone rest r rv p q) kept')
              kept),
      )
