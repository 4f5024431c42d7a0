-- ===== src/Merge/Elect.antt =====
-- `Builder::elect` and what it uses (merge/mod.rs): which of two rows, both changed, the merge keeps.
use carryctx.Base.{
  ℕ, String, Bool, true, false, not, ◌||◌, Option, none, some, List, [], ◌∷◌, ◌==◌, if◌then◌else◌,
  ltb, text_lt,
}
use carryctx.Merge.{
  Value, Row, get, insert, as_text, is_null, monotonic_columns, machine_local_columns, frame,
  key_or_empty, External, MergeOptions, Conflict, AutoResolution,
}

unfoldable pub status : Row → String
unfolding get
status row = elim (as_text (get "status" row)) [ none ↦ "" | some s ↦ s ]

unfoldable pub is_terminal_status : String → Bool
is_terminal_status s = s == "completed" || s == "cancelled"

-- What the builder records of one election.
pub data Note : Type 0 where
  conflict : Conflict → Note
  auto : AutoResolution → Note

-- `is_none_or(Value::is_null)`
abbrev pub is_missing : Option Value → Bool
is_missing none = true
is_missing (some v) = is_null v

abbrev pub insert_fact : String → Option Value → Row → Row
insert_fact c none row = row
insert_fact c (some v) row = if is_null v then row else insert c v row

-- A column of the loser that the winner lacks, or has as null, is taken over unless it is null too.
unfoldable pub fill : Row → String → Row → Row
unfolding get insert
fill loser c elected =
    if is_missing (get c elected) then insert_fact c (get c loser) elected else elected

unfoldable pub fill_all : Row → List String → Row → Row
fill_all loser [] elected = elected
fill_all loser (c ∷ columns) elected = fill_all loser columns (fill loser c elected)

abbrev pub copy_value : String → Option Value → Row → Row
copy_value c none row = row
copy_value c (some v) row = insert c v row

unfoldable pub copy_columns : Row → List String → Row → Row
copy_columns ours [] row = row
copy_columns ours (c ∷ columns) row = copy_columns ours columns (copy_value c (get c ours) row)

unfoldable pub overlay_machine_local : String → Row → Row → Row
unfolding copy_columns
overlay_machine_local table row ours = copy_columns ours (machine_local_columns table) row

unfoldable pub elected_row : String → Row → Row → Row → Row
unfolding fill_all overlay_machine_local
elected_row table winner loser ours =
    overlay_machine_local table (fill_all loser monotonic_columns winner) ours

module _ (ext : External) where
  unfoldable pub canonical_frame : String → Row → String
  canonical_frame table row = ext.to_json (frame table row)

  unfoldable pub row_digest : String → Row → String
  unfolding canonical_frame
  row_digest table row = ext.sha256_hex (canonical_frame table row)

  unfoldable pub parse_instant : String → Row → Option ℕ
  parse_instant column row = elim (as_text (get column row)) [
    | none ↦ none
    | some s ↦ ext.parse_from_rfc3339 s
  ]

  -- The tie-break by the canonical content, then by the identity key.
  unfoldable pub tie_break : String → Row → Row → Row × Row
  unfolding canonical_frame key_or_empty
  tie_break table ours theirs =
      if not (canonical_frame table ours == canonical_frame table theirs)
      then if text_lt (canonical_frame table theirs) (canonical_frame table ours)
        then (ours, theirs)
        else (theirs, ours)
      else if text_lt (key_or_empty ext table ours) (key_or_empty ext table theirs)
      then (theirs, ours)
      else (ours, theirs)

  -- The winner and the loser, by the two times.
  unfoldable pub by_time : String → Row → Row → Option ℕ → Option ℕ → Row × Row
  unfolding tie_break
  by_time table ours theirs (some a) (some b) =
      if ltb b a
      then (ours, theirs)
      else if ltb a b
      then (theirs, ours)
      else tie_break table ours theirs
  by_time table ours theirs _ _ = tie_break table ours theirs

  unfoldable pub lww : String → Row → Row → Row × Row
  unfolding by_time parse_instant
  lww table ours theirs =
      by_time table ours theirs (parse_instant "updated_at" ours)
        (parse_instant "updated_at" theirs)

  unfoldable pub resolved : String → String → String → Row → Row × Note
  unfolding row_digest
  resolved table key kind elected = (
    elected,
    auto (record { table = table; key = key; kind = kind; winner = row_digest table elected }),
  )

  unfoldable pub conflicting : String → String → String → Option Row → Row → Row → Row × Note
  conflicting table key kind base ours theirs = (
    ours,
    conflict (record {
      kind = kind;
      table = table;
      key = key;
      base = base;
      ours = some ours;
      theirs = some theirs;
    }),
  )

  unfoldable pub edit_resolved : String → String → Row → Row × Row → Row × Note
  edit_resolved table key ours (winner, loser) =
      resolved table key "row_edit" (elected_row table winner loser ours)

  unfoldable pub elect_by_edit :
      MergeOptions → String → String → Option Row → Row → Row → Row × Note
  elect_by_edit options table key base ours theirs =
      if options.strict_edits
      then conflicting table key "row_edit" base ours theirs
      else edit_resolved table key ours (lww table ours theirs)

  -- The branch on the two terminal tests; `gap` says that the two statuses differ.
  unfoldable pub elect_task :
      MergeOptions → String → String → Option Row → Row → Row → Bool → Bool → Bool → Row × Note
  elect_task options table key base ours theirs true true gap =
      if gap
      then conflicting table key "status_gap" base ours theirs
      else elect_by_edit options table key base ours theirs
  elect_task options table key base ours theirs true false gap =
      resolved table key "status_terminal" (elected_row table ours theirs ours)
  elect_task options table key base ours theirs false true gap =
      resolved table key "status_terminal" (elected_row table theirs ours ours)
  elect_task options table key base ours theirs false false gap =
      elect_by_edit options table key base ours theirs

  unfoldable pub elect : MergeOptions → String → String → Option Row → Row → Row → Row × Note
  elect options table key base ours theirs =
      if table == "tasks"
      then elect_task options table key base ours theirs (is_terminal_status (status ours))
          (is_terminal_status (status theirs)) (not (status ours == status theirs))
      else elect_by_edit options table key base ours theirs
