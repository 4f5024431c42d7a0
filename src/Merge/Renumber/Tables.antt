-- ===== src/Merge/Renumber/Tables.antt =====
-- `plan_display_renumbers` over the display tables of a merge result, and what it writes back to the
-- sequences.
use carryctx.Base.{
  ℕ, String, Bool, Option, none, some, List, [], ◌∷◌, ◌++◌, map, any, ◌&&◌, ◌||◌, text_lt, ◌==◌,
  if◌then◌else◌,
}
use carryctx.Merge.{Row, text, number, get, insert, External}
use carryctx.Merge.Tables.{or_no_rows}
use carryctx.Merge.Tombstones.{TableSet, text_of}
use carryctx.Merge.Sequences.{or_empty}
use carryctx.Merge.Aliases.{pair_eq, pair_lt}
use carryctx.Merge.Aliases.Redirect.{rows_of}
use carryctx.Merge.Renumber.{
  display_tables, Counters, number_at, Renumber, renumber_groups, group_rows, see_rows,
  sequence_state,
}

-- The numbers that the display tables hold.
unfoldable pub display_high_water : List String → TableSet → Counters → Counters
unfolding see_rows rows_of
display_high_water [] result counters = counters
display_high_water (table ∷ tables) result counters =
    display_high_water tables result (see_rows table counters (rows_of table result))

module _ (ext : External) (sequences high_water : Counters) where
  abbrev pub Planned : Type 0
  Planned = Counters × TableSet × List Renumber

  -- A table that the result lacks is passed over.
  unfoldable pub renumber_table : String → Option (List Row) → TableSet → Counters → Planned
  unfolding insert renumber_groups group_rows
  renumber_table table none result updates = (updates, result, [])
  renumber_table table (some rows) result updates =
      let (next, merged, notes) =
        renumber_groups sequences high_water table (group_rows ext table [] rows) updates in
      (next, insert table merged result, notes)

  unfoldable pub renumber_tables : List String → TableSet → Counters → Planned
  unfolding get renumber_table
  renumber_tables [] result updates = (updates, result, [])
  renumber_tables (table ∷ tables) result updates =
      let (next, merged, notes) = renumber_table table (get table result) result updates in
      let (last, after, more) = renumber_tables tables merged next in (last, after, notes ++ more)

abbrev pub sequence_of : Row → String × String
sequence_of row = (or_empty (text_of "project_id" row), or_empty (text_of "kind" row))

abbrev with_next : Row → Option ℕ → Row
with_next row none = row
with_next row (some n) = insert "next_value" (number n) row

abbrev new_sequence : String × String → ℕ → Row
new_sequence (project, kind) n =
    ("kind", text kind) ∷ ("next_value", number n) ∷ ("project_id", text project) ∷ []

-- The counters that no row has.
abbrev new_sequences : List Row → Counters → List Row
new_sequences rows [] = []
new_sequences rows ((key, n) ∷ updates) =
    let rest = new_sequences rows updates in
    if any (λ row. pair_eq (sequence_of row) key) rows then rest else new_sequence key n ∷ rest

unfoldable pub write_back_sequences : TableSet → Counters → TableSet
unfolding get insert number_at text_of
write_back_sequences result [] = result
write_back_sequences result (u ∷ updates) =
    let rows = or_no_rows (get "sequences" result) in
    insert "sequences"
      (map (λ row. with_next row (number_at (sequence_of row) (u ∷ updates))) rows
        ++ new_sequences rows (u ∷ updates))
      result

-- The order of the report: by table, row and new display id.
abbrev renumber_lt : Renumber → Renumber → Bool
renumber_lt a b =
    text_lt a.table b.table
    || a.table == b.table && pair_lt (a.row_id, a.new_display_id) (b.row_id, b.new_display_id)

unfoldable place_renumber : Renumber → List Renumber → List Renumber
place_renumber n [] = n ∷ []
place_renumber n (m ∷ notes) =
    let rest = place_renumber n notes in if renumber_lt m n then m ∷ rest else n ∷ m ∷ notes

unfoldable sort_renumbers : List Renumber → List Renumber
unfolding place_renumber
sort_renumbers [] = []
sort_renumbers (n ∷ notes) = place_renumber n (sort_renumbers notes)

unfoldable pub plan_display_renumbers : External → TableSet → TableSet × List Renumber
unfolding renumber_tables write_back_sequences sort_renumbers sequence_state display_high_water
    rows_of
plan_display_renumbers ext result =
    let (updates, merged, notes) =
      renumber_tables ext (sequence_state [] (rows_of "sequences" result))
        (display_high_water display_tables result []) display_tables result [] in
    (write_back_sequences merged updates, sort_renumbers notes)
