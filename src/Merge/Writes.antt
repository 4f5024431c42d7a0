-- ===== src/Merge/Writes.antt =====
-- `compute_writes_deletes` of merge/mod.rs, for one table: what the candidate database must write and
-- delete to get from our rows to the merged ones.
pub mod Patch
use carryctx.Base.{
  String, Bool, true, false, not, Option, none, some, List, [], ◌∷◌, if◌then◌else◌, is_some, Result,
  ok, err,
}
use carryctx.Merge.{Row, get, frame, row_eq, External}
use carryctx.Merge.Index.{MergeError, RowIndex, index_rows}

pub data WriteKind : Type 0 where
  insert_row update_row : WriteKind

pub record RowWrite : Type 0 where
  pub row : Row
  pub kind : WriteKind

module _ (table : String) where
  -- What is written for a row of the result, next to our row of its key.
  unfoldable pub write_for : Row → Option Row → Option RowWrite
  unfolding frame row_eq
  write_for row none = some (record { row = row; kind = insert_row })
  write_for row (some our_row) =
      if not (row_eq (frame table our_row) (frame table row))
      then some (record { row = row; kind = update_row })
      else none

  abbrev push : String → Option RowWrite → List (String × RowWrite) → List (String × RowWrite)
  push key none writes = writes
  push key (some w) writes = (key, w) ∷ writes

  -- The loop over the merged rows.
  unfoldable pub writes_of : RowIndex → RowIndex → List (String × RowWrite)
  unfolding write_for get
  writes_of ours [] = []
  writes_of ours ((key, row) ∷ result) =
      push key (write_for row (get key ours)) (writes_of ours result)

  -- The loop over our keys.
  unfoldable pub deletes_of : RowIndex → RowIndex → List String
  unfolding get
  deletes_of [] result = []
  deletes_of ((key, row) ∷ ours) result =
      let rest = deletes_of ours result in
      if not (is_some (get key result)) then key ∷ rest else rest

module _ (ext : External) (table : String) where
  abbrev pub Patch : Type 0
  Patch = List (String × RowWrite) × List String

  unfoldable pub patch_between :
      Result MergeError RowIndex → Result MergeError RowIndex → Result MergeError Patch
  unfolding writes_of deletes_of
  patch_between (err e) _ = err e
  patch_between (ok ours) (err e) = err e
  patch_between (ok ours) (ok result) =
      ok (writes_of table ours result, deletes_of table ours result)

  -- Both sides are indexed, ours first.
  unfoldable pub compute_writes_deletes : List Row → List Row → Result MergeError Patch
  unfolding patch_between index_rows
  compute_writes_deletes ours result =
      patch_between (index_rows ext table ours) (index_rows ext table result)
