-- ===== src/Merge/Renumber/HighWater.antt =====
-- The numbers that the renumbering has seen: `display_high_water` covers each row of the display tables.
use carryctx.Base.{
  ℕ, ◌≤◌, max, String, Option, none, some, List, [], ◌∷◌, ◌≡◌, inl, inr, ap, subst, arith, eq_iff,
  Bool-cases, All,
}
use carryctx.Merge.{Row}
use carryctx.Merge.Tombstones.{TableSet, text_of}
use carryctx.Merge.Aliases.{pair_eq}
use carryctx.Merge.Aliases.Redirect.{rows_of}
use carryctx.Merge.Renumber.{
  Counters, number_at, or_number, DisplayKind, DisplayParts, display_kind, split_display_id,
  display_id, raise_to, see_parts, see, see_rows,
}
use carryctx.Merge.Renumber.Counters.{pair_eq_iff, number_at-put_number}
use carryctx.Merge.Renumber.Tables.{display_high_water}
use carryctx.Merge.Renumber.Grouping.{Regular}

abbrev pub seen : String × String → Counters → ℕ
seen key counters = or_number 0 (number_at key counters)

abbrev pub Below : Counters → Counters → Type 0
Below c w = (key : String × String) → seen key c ≤ seen key w

Below-raise_to : (key : String × String) (n : ℕ) (c : Counters) → Below c (raise_to key n c)
Below-raise_to key n c other = elim (Bool-cases (pair_eq other key)) [
  | inl same ↦
      let is = pair_eq_iff other key same in
      ground
        (arith, same, ap (λ x. seen x c) is, number_at-put_number other key (max (seen key c) n) c)
  | inr differ ↦ ground (arith, differ, number_at-put_number other key (max (seen key c) n) c)
]

seen-raise_to : (key : String × String) (n : ℕ) (c : Counters) → n ≤ seen key (raise_to key n c)
seen-raise_to (p, k) n c =
    ground
      (arith, number_at-put_number (p, k) (p, k) (max (seen (p, k) c) n) c, eq_iff p p, eq_iff k k)

Below-see_parts :
    (project table : String) (parts : Option DisplayParts) (kind : Option DisplayKind)
    (c : Counters)
    → Below c (see_parts project table parts kind c)
Below-see_parts project table (some parts) (some kind) c =
    Below-raise_to (project, kind.kind) parts.number c
Below-see_parts project table (some parts) none c = λ key. omega arith
Below-see_parts project table none kind c = λ key. omega arith

Below-see :
    (table : String) (project display : Option String) (c : Counters)
    → Below c (see table project display c)
Below-see table (some project) (some display) c =
    Below-see_parts project table (split_display_id display) (display_kind table display) c
Below-see table (some project) none c = λ key. omega arith
Below-see table none display c = λ key. omega arith

Below-see_rows : (table : String) (rows : List Row) (c : Counters) → Below c (see_rows table c rows)
unfolding see_rows
Below-see_rows table [] c key = omega arith
Below-see_rows table (row ∷ rows) c key =
    let next = see table (text_of "project_id" row) (display_id row) c in
    omega (
      arith,
      Below-see table (text_of "project_id" row) (display_id row) c key,
      Below-see_rows table rows next key,
    )

Below-display_high_water :
    (tables : List String) (result : TableSet) (c : Counters)
    → Below c (display_high_water tables result c)
unfolding display_high_water
Below-display_high_water [] result c key = omega arith
Below-display_high_water (table ∷ tables) result c key =
    let next = see_rows table c (rows_of table result) in
    omega (
      arith,
      Below-see_rows table (rows_of table result) c key,
      Below-display_high_water tables result next key,
    )

-- A row of the project whose display id, if it has one, splits.
abbrev pub Numbered : String → String → Row → Type 0
Numbered project table row =
    (text_of "project_id" row ≡ some project)
    × ((d : String) → display_id row ≡ some d → (k : DisplayKind) × (display_kind table d ≡ some k))

module _ (sequences high_water : Counters) (project : String) where
  see_row-Regular :
      (table : String) (row : Row) (c : Counters)
      → Below (see table (text_of "project_id" row) (display_id row) c) high_water
      → Numbered project table row
      → Regular sequences high_water table project row
  see_row-Regular table row c below (of, splits) = (
    of,
    λ d h.
        let (k, is) = splits d h in
        (
          k,
          is,
          λ parts split.
              let here : seen (project, k.kind) (see table (some project) (some d) c)
                  ≤ seen (project, k.kind) high_water =
                subst
                  (λ x.
                    seen (project, k.kind) (see table x (some d) c)
                    ≤ seen (project, k.kind) high_water)
                  of
                  (subst
                    (λ x.
                      seen (project, k.kind) (see table (text_of "project_id" row) x c)
                      ≤ seen (project, k.kind) high_water)
                    h (below (project, k.kind))) in
              omega (arith, seen-raise_to (project, k.kind) parts.number c, rw (split, is) at here),
        ),
  )

  see_rows-Regular :
      (table : String) (rows : List Row) (c : Counters)
      → Below (see_rows table c rows) high_water
      → All (Numbered project table) rows
      → All (Regular sequences high_water table project) rows
  unfolding see_rows
  see_rows-Regular table [] c below all = tt
  see_rows-Regular table (row ∷ rows) c below (first, all) =
      let next = see table (text_of "project_id" row) (display_id row) c in
      (
        see_row-Regular table row c
            (λ key. omega (arith, below key, Below-see_rows table rows next key)) first,
        see_rows-Regular table rows next below all,
      )

  -- Every row of the tables is known.
  pub display_high_water-Regular :
      (tables : List String) (result : TableSet) (c : Counters)
      → Below (display_high_water tables result c) high_water
      → All (λ table. All (Numbered project table) (rows_of table result)) tables
      → All
          (λ table. All (Regular sequences high_water table project) (rows_of table result))
          tables
  unfolding display_high_water
  display_high_water-Regular [] result c below all = tt
  display_high_water-Regular (table ∷ tables) result c below (first, all) =
      let next = see_rows table c (rows_of table result) in
      (
        see_rows-Regular table (rows_of table result) c
            (λ key. omega (arith, below key, Below-display_high_water tables result next key))
            first,
        display_high_water-Regular tables result next below all,
      )
