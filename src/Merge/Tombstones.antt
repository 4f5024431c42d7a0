-- ===== src/Merge/Tombstones.antt =====
-- Tombstones of merge/mod.rs: `merge_tombstones`, `earlier_tombstone`, `tombstone_index` and
-- `filter_tombstones`.
pub mod Earliest
pub mod Live
use carryctx.Base.{
  ℕ, String, Bool, true, false, not, ◌&&◌, ◌||◌, Option, none, some, List, [], ◌∷◌, ◌++◌, ◌==◌,
  if◌then◌else◌, text_lt, ltb, nat_eq, Result, ok, err, keep, any,
}
use carryctx.Cleanup.{concat}
use carryctx.Merge.{Row, get, insert, as_text, External, identity_key}
use carryctx.Merge.Elect.{canonical_frame, parse_instant}
use carryctx.Merge.Sequences.{or_empty}
use carryctx.Merge.Index.{MergeError, bad_tombstone, RowIndex, gather}

-- The rows of each table of a snapshot.
abbrev pub TableSet : Type 0
TableSet = List (String × List Row)

unfoldable pub text_of : String → Row → Option String
unfolding get
text_of column row = as_text (get column row)

unfoldable pub tombstone_key : Row → String
unfolding text_of concat
tombstone_key row = concat (or_empty (text_of "project_id" row)) (
    concat "\u{1}" (
      concat (or_empty (text_of "table_name" row))
        (concat "\u{1}" (or_empty (text_of "row_id" row)))))

module _ (ext : External) where
  unfoldable pub canon : Row → String
  unfolding canonical_frame
  canon row = canonical_frame ext "tombstones" row

  unfoldable pub time_of : Row → Option ℕ
  unfolding parse_instant
  time_of row = parse_instant ext "deleted_at" row

  unfoldable pub earlier_by : Row → Row → Option ℕ → Option ℕ → Bool
  unfolding canon
  earlier_by candidate current (some a) (some b) =
      if not (nat_eq a b) then ltb a b else text_lt (canon candidate) (canon current)
  earlier_by candidate current (some a) none = true
  earlier_by candidate current none (some b) = false
  earlier_by candidate current none none = text_lt (canon candidate) (canon current)

  unfoldable pub earlier_tombstone : Row → Row → Bool
  unfolding earlier_by time_of
  earlier_tombstone candidate current =
      earlier_by candidate current (time_of candidate) (time_of current)

  unfoldable pub earliest : String → Row → Row → Result MergeError Row
  unfolding earlier_tombstone
  earliest key existing row = ok (if earlier_tombstone row existing then row else existing)

  -- The tombstones of the base, if there is one, of ours and of theirs.
  unfoldable pub merge_tombstones : List Row → List Row → List Row → Result MergeError RowIndex
  unfolding gather tombstone_key earliest
  merge_tombstones base ours theirs =
      gather (λ row. ok (tombstone_key row)) earliest [] (base ++ ours ++ theirs)

  abbrev key_is : String → Option String → Bool
  key_is row_id none = false
  key_is row_id (some key) = key == row_id

  -- `present.contains`: the result has a row of that table and key.
  unfoldable pub is_present : TableSet → String → String → Bool
  unfolding identity_key
  is_present result table row_id =
      any
        (λ (name, rows).
          not (name == "tombstones")
          && name == table
          && any (λ row. key_is row_id (identity_key ext name row)) rows)
        result

  unfoldable pub is_dead : TableSet → Option String → Option String → Bool
  unfolding is_present
  is_dead result (some table) (some row_id) = not (is_present result table row_id)
  is_dead result _ _ = true

  unfoldable pub filter_tombstones : TableSet → List Row → List Row
  unfolding is_dead text_of
  filter_tombstones result tombstones =
      keep (λ row. is_dead result (text_of "table_name" row) (text_of "row_id" row)) tombstones
