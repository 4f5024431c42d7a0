-- ===== src/Merge/Loop.antt =====
-- `merge_table` of merge/mod.rs: the keys that the rows and the tombstones of the sides name, and the
-- loop over them.
pub mod Pointwise
pub mod Commute
use carryctx.Base.{
  String, Bool, ◌&&◌, ◌==◌, any, Option, none, some, List, [], ◌∷◌, map, if◌then◌else◌, Result, ok,
  err,
}
use carryctx.Merge.{Row, get, insert, is_append_only, External, MergeOptions}
use carryctx.Merge.Elect.{Note}
use carryctx.Merge.Table.{Outcome, merge_key}
use carryctx.Merge.Index.{MergeError, bad_tombstone, RowIndex, index_rows}
use carryctx.Merge.AppendOnly.{merge_append_only}
use carryctx.Merge.Tombstones.{text_of}

-- The keys of the map that `tombstone_index` makes, a table and a row id; nothing reads its rows.
abbrev pub TombstoneIndex : Type 0
TombstoneIndex = List (String × String)

abbrev named :
    Option String
    → Option String
    → Result MergeError TombstoneIndex
    → Result MergeError TombstoneIndex
named (some table) (some row_id) (ok index) = ok ((table, row_id) ∷ index)
named (some table) (some row_id) (err e) = err e
named _ _ rest = err bad_tombstone

unfoldable pub tombstone_index : List Row → Result MergeError TombstoneIndex
unfolding text_of
tombstone_index [] = ok []
tombstone_index (row ∷ rows) =
    named (text_of "table_name" row) (text_of "row_id" row) (tombstone_index rows)

-- `contains_key`
abbrev pub is_deleted : TombstoneIndex → String → String → Bool
is_deleted index table key = any (λ (t, k). t == table && k == key) index

-- A `BTreeSet<String>`.
abbrev pub KeySet : Type 0
KeySet = List (String × Unit {0})

abbrev pub add_keys : RowIndex → KeySet → KeySet
add_keys [] keys = keys
add_keys ((key, _) ∷ index) keys = insert key tt (add_keys index keys)

abbrev pub add_deleted : String → TombstoneIndex → KeySet → KeySet
add_deleted table [] keys = keys
add_deleted table ((t, key) ∷ index) keys =
    let rest = add_deleted table index keys in if t == table then insert key tt rest else rest

-- The indexes of the three sides, a base that is missing being empty.
pub record Sides : Type 0 where
  pub base : RowIndex
  pub ours : RowIndex
  pub theirs : RowIndex
  pub base_tombstones : TombstoneIndex
  pub our_tombstones : TombstoneIndex
  pub their_tombstones : TombstoneIndex

unfoldable pub keys_of : String → Sides → KeySet
unfolding insert
keys_of table s = add_deleted table s.their_tombstones (
    add_deleted table s.our_tombstones (
      add_deleted table s.base_tombstones
        (add_keys s.theirs (add_keys s.ours (add_keys s.base [])))))

abbrev pub Merged : Type 0
Merged = RowIndex × List Note

abbrev push_row : String → Option Row → RowIndex → RowIndex
push_row key none rows = rows
push_row key (some row) rows = (key, row) ∷ rows

abbrev push_note : Option Note → List Note → List Note
push_note none notes = notes
push_note (some n) notes = n ∷ notes

unfoldable pub record_outcome : String → Outcome → Merged → Merged
record_outcome key (row, note) (rows, notes) = (push_row key row rows, push_note note notes)

module _ (ext : External) (options : MergeOptions) (table : String) where
  unfoldable pub merge_at : Sides → String → Outcome
  merge_at s key =
      merge_key ext options table key (get key s.base) (get key s.ours) (get key s.theirs)
        (is_deleted s.our_tombstones table key) (is_deleted s.their_tombstones table key)

  -- The loop over the keys; a row of the result stands beside the key it was merged at.
  unfoldable pub merge_keys : Sides → KeySet → Merged
  unfolding merge_at record_outcome
  merge_keys s [] = ([], [])
  merge_keys s ((key, _) ∷ keys) = record_outcome key (merge_at s key) (merge_keys s keys)

  unfoldable pub merge_sides : Sides → Merged
  unfolding merge_keys keys_of
  merge_sides s = merge_keys s (keys_of table s)

  abbrev pub united : Result MergeError RowIndex → Result MergeError Merged
  united (err e) = err e
  united (ok rows) = ok (rows, [])

  abbrev indexed :
      (RowIndex → RowIndex → RowIndex → Sides)
      → Result MergeError RowIndex
      → Result MergeError RowIndex
      → Result MergeError RowIndex
      → Result MergeError Merged
  indexed sides (ok base) (ok ours) (ok theirs) = ok (merge_sides (sides base ours theirs))
  indexed sides (err e) _ _ = err e
  indexed sides (ok _) (err e) _ = err e
  indexed sides (ok _) (ok _) (err e) = err e

  unfoldable pub merge_table :
      List Row
      → List Row
      → List Row
      → TombstoneIndex
      → TombstoneIndex
      → TombstoneIndex
      → Result MergeError Merged
  unfolding merge_sides index_rows is_append_only merge_append_only
  merge_table base ours theirs base_tombstones our_tombstones their_tombstones =
      if is_append_only table
      then united (merge_append_only ext table base ours theirs)
      else indexed
          (λ b o t. record {
            base = b;
            ours = o;
            theirs = t;
            base_tombstones = base_tombstones;
            our_tombstones = our_tombstones;
            their_tombstones = their_tombstones;
          })
          (index_rows ext table base) (index_rows ext table ours) (index_rows ext table theirs)
