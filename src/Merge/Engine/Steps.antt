-- ===== src/Merge/Engine/Steps.antt =====
-- A set of tables on its way through the merge, with what was recorded, and the form of a step (merge/mod.rs).
use carryctx.Base.{
  String, Bool, ◌||◌, ◌==◌, Option, none, some, List, [], ◌∷◌, ◌++◌, map, Result, ok, err,
}
use carryctx.Merge.{Row, get, insert, Conflict, AutoResolution}
use carryctx.Merge.Elect.{Note, conflict, auto}
use carryctx.Merge.Index.{MergeError, RowIndex}
use carryctx.Merge.Tombstones.{TableSet}
use carryctx.Merge.Loop.{KeySet, TombstoneIndex, Merged}
use carryctx.Merge.Unique.{Keyed}
use carryctx.Merge.Report.{try_then}

abbrev pub or_no_tables : Option TableSet → TableSet
or_no_tables none = []
or_no_tables (some tables) = tables

-- The names of the tables, by rising name.
abbrev pub add_names : TableSet → KeySet → KeySet
add_names [] names = names
add_names ((table, _) ∷ tables) names = insert table tt (add_names tables names)

abbrev pub rows_in : RowIndex → List Row
rows_in index = map (λ (_, row). row) index

-- The tombstones of the three sides.
pub record Buried : Type 0 where
  pub base : TombstoneIndex
  pub ours : TombstoneIndex
  pub theirs : TombstoneIndex

-- A set of tables on its way, with what was recorded.
abbrev pub Stage : Type 0
Stage = TableSet × List Note

abbrev pub add_table : String → Merged → Stage → Stage
add_table table (rows, notes) (tables, more) = ((table, rows_in rows) ∷ tables, notes ++ more)

abbrev pub joined :
    String → Result MergeError Merged → Result MergeError Stage → Result MergeError Stage
joined table (err e) rest = err e
joined table (ok merged) (err e) = err e
joined table (ok merged) (ok stage) = ok (add_table table merged stage)

abbrev pub is_separate : String → Bool
is_separate table = table == "tombstones" || table == "sequences"

abbrev pub replace_rows : String → List Note → List Row × List Note → TableSet → Stage
replace_rows table earlier (rows, notes) tables = (insert table rows tables, earlier ++ notes)

abbrev pub conflict_notes : Keyed × List Conflict → List Row × List Note
conflict_notes (rows, conflicts) = (rows_in rows, map conflict conflicts)

abbrev pub auto_notes : List Row × List AutoResolution → List Row × List Note
auto_notes (rows, autos) = (rows, map auto autos)

abbrev pub on_rows :
    String
    → (List Row → Result MergeError (List Row × List Note))
    → Stage
    → Option (List Row)
    → Result MergeError Stage
on_rows table f stage none = ok stage
on_rows table f (tables, notes) (some rows) =
    try_then (f rows) (λ found. ok (replace_rows table notes found tables))

-- A step on the rows of one table, if the set has it.
abbrev pub on_table :
    String → (List Row → Result MergeError (List Row × List Note)) → Stage → Result MergeError Stage
on_table table f (tables, notes) = on_rows table f (tables, notes) (get table tables)

-- One step after another.
unfoldable pub in_turn : List (Stage → Result MergeError Stage) → Stage → Result MergeError Stage
in_turn [] stage = ok stage
in_turn (step ∷ steps) stage = try_then (step stage) (in_turn steps)
