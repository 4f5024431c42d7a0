-- ===== src/Merge/Index.antt =====
-- Rows by identity key, as merge/mod.rs collects them: each loop of that file over the rows of one or
-- more sides puts a row into a map under its key, and says what happens to a key that is there
-- already. `index_rows` is one of these loops.
pub mod Kept
pub mod Minimal
use carryctx.Base.{
  String, Bool, Option, none, some, List, [], ◌∷◌, if◌then◌else◌, text_lt, Result, ok, err,
}
use carryctx.Merge.{Row, get, insert, identity_key, External}
use carryctx.Merge.Elect.{canonical_frame}

-- The errors of the engine, all of them validation errors: an identity column that is missing or
-- empty, an append-only row that two sides hold with different content, a tombstone without a name of
-- its table or its row, and a base that is required and missing.
pub data MergeError : Type 0 where
  no_key : String → MergeError
  tampered : String → String → MergeError
  bad_tombstone : MergeError
  base_required_missing : MergeError

abbrev pub RowIndex : Type 0
RowIndex = List (String × Row)

module _ (key_of : Row → Result MergeError String)
    (pick : String → Row → Row → Result MergeError Row) where
  unfoldable pub replace : RowIndex → String → Result MergeError Row → Result MergeError RowIndex
  replace index key (err e) = err e
  replace index key (ok row) = ok (insert key row index)

  unfoldable pub place : RowIndex → Row → String → Option Row → Result MergeError RowIndex
  unfolding replace
  place index row key none = ok (insert key row index)
  place index row key (some existing) = replace index key (pick key existing row)

  unfoldable pub add_keyed : RowIndex → Row → Result MergeError String → Result MergeError RowIndex
  unfolding place get
  add_keyed index row (err e) = err e
  add_keyed index row (ok key) = place index row key (get key index)

  -- The loop over the rows.
  unfoldable pub gather : RowIndex → List Row → Result MergeError RowIndex
  unfolding add_keyed
  gather index [] = ok index
  gather index (row ∷ rows) = elim (add_keyed index row (key_of row)) [
    | err e ↦ err e
    | ok next ↦ gather next rows
  ]

module _ (ext : External) (table : String) where
  abbrev pub key_or_error : Option String → Result MergeError String
  key_or_error none = err (no_key table)
  key_or_error (some key) = ok key

  unfoldable pub row_key : Row → Result MergeError String
  unfolding identity_key
  row_key row = key_or_error (identity_key ext table row)

  -- The canonical minimum stays. The warning on differing content is left out.
  unfoldable pub minimal : String → Row → Row → Result MergeError Row
  unfolding canonical_frame
  minimal key existing row = ok (
      if text_lt (canonical_frame ext table row) (canonical_frame ext table existing)
      then row
      else existing)

  unfoldable pub index_rows : List Row → Result MergeError RowIndex
  unfolding gather row_key minimal
  index_rows rows = gather row_key minimal [] rows
