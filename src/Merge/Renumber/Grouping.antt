-- ===== src/Merge/Renumber/Grouping.antt =====
-- The rows of a table come into one group for each display id.
use carryctx.Base.{
  String, true, Option, none, some, List, [], ◌∷◌, ◌++◌, ◌≡◌, inl, inr, refl, sym, ◌∙◌, subst,
  arith, ◌==◌, eq_iff, Bool-cases, In, All, text_lt, text_lt_irrefl,
}
use mathlib.Core.Bool.{false≢true}
use carryctx.Merge.{Row, get, insert, External, key_or_empty}
use carryctx.Merge.Maps
use carryctx.Merge.Maps.{IsSorted, insert-IsSorted}
use carryctx.Merge.Tombstones.{text_of}
use carryctx.Merge.Renumber.{
  Counters, display_id, non_empty, Groups, or_no_members, join_group, group_rows,
}
use carryctx.Merge.Renumber.Fresh.{Shows}
use carryctx.Merge.Renumber.Distinct.{Known, OfGroup, keys, Grouped}

module _ (sequences high_water : Counters) (table project : String) where
  -- The groups without the order.
  abbrev Each : Groups → Type 0
  Each [] = Unit
  Each ((d, members) ∷ groups) =
      Known sequences high_water table project d
      × All (OfGroup sequences high_water table project d) members
      × Each groups

  not-In-keys :
      (d : String) (groups : Groups)
      → Maps.Above d groups
      → ¬ In d (keys sequences high_water table project groups)
  not-In-keys d [] above m = absurd m
  not-In-keys d ((e, _) ∷ groups) (before, above) m = elim m [
    | inl here ↦
        false≢true (sym (text_lt_irrefl d) ∙ subst (λ x. text_lt d x ≡ true) (sym here) before)
    | inr later ↦ not-In-keys d groups above later
  ]

  Each-Grouped :
      (groups : Groups)
      → IsSorted groups
      → Each groups
      → Grouped sequences high_water table project groups
  Each-Grouped [] s e = tt
  Each-Grouped ((d, members) ∷ groups) (above, s) (known, of, e) =
      (known, of, not-In-keys d groups above, Each-Grouped groups s e)

  Each-insert :
      (d : String) (members : List (String × Row)) (groups : Groups)
      → Known sequences high_water table project d
      → All (OfGroup sequences high_water table project d) members
      → Each groups
      → Each (insert d members groups)
  unfolding insert
  Each-insert d members [] known of e = (known, of, tt)
  Each-insert d members ((f, others) ∷ groups) known of (first, of', e) =
      elim (Bool-cases (d == f)) [
        | inl same ↦ rw same (known, of, e)
        | inr differ ↦ elim (Bool-cases (text_lt d f)) [
          | inl before ↦ rw (differ, before) (known, of, (first, of', e))
          | inr after ↦ rw (differ, after) (first, of', Each-insert d members groups known of e)
        ]
      ]

  Each-get :
      (d : String) (groups : Groups)
      → Each groups
      → All (OfGroup sequences high_water table project d) (or_no_members (get d groups))
  unfolding get
  Each-get d [] e = tt
  Each-get d ((f, members) ∷ groups) (known, of, e) = elim (Bool-cases (d == f)) [
    | inl same ↦ rw same (
        subst (λ x. All (OfGroup sequences high_water table project x) members)
          (sym ((eq_iff d f).0 same)) of)
    | inr differ ↦ rw differ (Each-get d groups e)
  ]

  All-snoc :
      (P : String × Row → Type 0) (members : List (String × Row)) (m : String × Row)
      → All P members
      → P m
      → All P (members ++ m ∷ [])
  All-snoc P [] m a h = (h, tt)
  All-snoc P (n ∷ members) m (first, a) h = (first, All-snoc P members m a h)

  -- A row of the project whose display id, if it has one, is known.
  abbrev pub Regular : Row → Type 0
  Regular row =
      (text_of "project_id" row ≡ some project)
      × ((d : String) → display_id row ≡ some d → Known sequences high_water table project d)

  non_empty-some : (found : Option String) (d : String) → non_empty found ≡ some d → found ≡ some d
  non_empty-some none d h = cc
  non_empty-some (some s) d h = ground (arith, h)

  display_id-Shows : (row : Row) (d : String) → display_id row ≡ some d → Shows row d
  unfolding display_id
  display_id-Shows row d h = non_empty-some (text_of "display_id" row) d h

  abbrev Ready : Groups → Type 0
  Ready groups = IsSorted groups × Each groups

  join_group-Ready :
      (key : String) (row : Row) (found : Option String) (groups : Groups)
      → display_id row ≡ found
      → Regular row
      → Ready groups
      → Ready (join_group found (key, row) groups)
  join_group-Ready key row none groups h r g = g
  join_group-Ready key row (some d) groups h (of, known) (s, e) = (
    insert-IsSorted d (or_no_members (get d groups) ++ (key, row) ∷ []) groups s,
    Each-insert d (or_no_members (get d groups) ++ (key, row) ∷ []) groups (known d h)
        (All-snoc (OfGroup sequences high_water table project d) (or_no_members (get d groups))
          (key, row) (Each-get d groups e) (of, display_id-Shows row d h))
        e,
  )

  group_rows-Ready :
      (ext : External) (groups : Groups) (rows : List Row)
      → All Regular rows
      → Ready groups
      → Ready (group_rows ext table groups rows)
  unfolding group_rows
  group_rows-Ready ext groups [] a g = g
  group_rows-Ready ext groups (row ∷ rows) (first, a) g =
      group_rows-Ready ext (join_group (display_id row) (key_or_empty ext table row, row) groups)
        rows a
        (join_group-Ready (key_or_empty ext table row) row (display_id row) groups refl first g)

  pub group_rows-Grouped :
      (ext : External) (rows : List Row)
      → All Regular rows
      → Grouped sequences high_water table project (group_rows ext table [] rows)
  group_rows-Grouped ext rows a =
      let (s, e) = group_rows-Ready ext [] rows a (tt, tt) in
      Each-Grouped (group_rows ext table [] rows) s e
