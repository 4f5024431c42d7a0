-- ===== src/Merge/Table.antt =====
-- `merge_table` of merge/mod.rs, for one key: the delete rules and the three-way classification.
use carryctx.Base.{String, Bool, true, not, ◌&&◌, ◌||◌, Option, none, some, ◌==◌, if◌then◌else◌}
use carryctx.Merge.{
  Row, get, as_text, row_eq, frame, content_eq, is_immutable, External, MergeOptions, keep_columns,
}
use carryctx.Merge.Elect.{Note, conflict, auto, elect, overlay_machine_local, row_digest}

-- `changed`, and the test `base.is_none_or(..)` of the delete rules
unfoldable pub changed : String → Row → Option Row → Bool
unfolding content_eq
changed table side none = true
changed table side (some base) = not (content_eq table side base)

-- What a key comes to: the row that stays, if one does, and what is recorded.
abbrev pub Outcome : Type 0
Outcome = Option Row × Option Note

unfoldable pub blocked :
    String → String → String → Option Row → Option Row → Option Row → Option Note
blocked kind table key base ours theirs = some (
    conflict
      (record { kind = kind; table = table; key = key; base = base; ours = ours; theirs = theirs }))

-- One side deleted the row, and the other has `other`, which stays deleted unless it was edited.
unfoldable pub delete_or_conflict :
    String → String → Option Row → Option Row → Option Row → Option Row → Outcome
unfolding changed blocked
delete_or_conflict table key base ours theirs none = (none, none)
delete_or_conflict table key base ours theirs (some other) =
    if changed table other base
    then (ours, blocked "delete_vs_edit" table key base ours theirs)
    else (none, none)

unfoldable pub resolve_delete_vs_edit :
    String → String → Option Row → Option Row → Option Row → Bool → Bool → Outcome
unfolding delete_or_conflict
resolve_delete_vs_edit table key base ours theirs our_deleted their_deleted =
    if our_deleted && their_deleted
    then (none, none)
    else delete_or_conflict table key base ours theirs (if our_deleted then theirs else ours)

abbrev pub is_dependency_kind : String → Bool
is_dependency_kind kind = kind == "strong" || kind == "informational"

unfoldable pub frame_without_kind : String → Row → Row
unfolding frame
frame_without_kind table row = keep_columns (λ c. not (c == "kind")) (frame table row)

-- Rows of one edge that differ in nothing but the kind: strong wins.
unfoldable pub kind_winner : String → Row → Row → Option String → Option String → Option Row
unfolding frame_without_kind row_eq
kind_winner table ours theirs (some our_kind) (some their_kind) =
    if our_kind == their_kind
      || not (is_dependency_kind our_kind)
      || not (is_dependency_kind their_kind)
    then none
    else if not (row_eq (frame_without_kind table ours) (frame_without_kind table theirs))
    then none
    else some (if our_kind == "strong" then ours else theirs)
kind_winner table ours theirs _ _ = none

unfoldable pub dependency_kind_election : String → Row → Row → Option Row
unfolding kind_winner get
dependency_kind_election table ours theirs =
    if table == "task_dependencies"
    then kind_winner table ours theirs (as_text (get "kind" ours)) (as_text (get "kind" theirs))
    else none

module _ (ext : External) (options : MergeOptions) (table key : String) where
  unfoldable pub merge_immutable : Option Row → Row → Row → Option Row → Outcome
  unfolding row_digest blocked
  merge_immutable base ours theirs none =
      (some ours, blocked "immutable_edit" table key base (some ours) (some theirs))
  merge_immutable base ours theirs (some elected) = (
    some elected,
    some (
        auto (record {
          table = table;
          key = key;
          kind = "dependency_kind";
          winner = row_digest ext table elected;
        })),
  )

  abbrev elected : Row × Note → Outcome
  elected (row, note) = (some row, some note)

  -- Rows on both sides: equal, immutable, changed on both sides, on ours only, or not on ours.
  unfoldable pub merge_both : Option Row → Row → Row → Outcome
  merge_both base ours theirs =
      if content_eq table ours theirs
      then (some ours, none)
      else if is_immutable table
      then merge_immutable base ours theirs (dependency_kind_election table ours theirs)
      else if changed table ours base && changed table theirs base
      then elected (elect ext options table key base ours theirs)
      else if changed table ours base
      then (some ours, none)
      else (some (overlay_machine_local table theirs ours), none)

  unfoldable pub merge_rows : Option Row → Option Row → Option Row → Outcome
  unfolding merge_both
  merge_rows base (some ours) (some theirs) = merge_both base ours theirs
  merge_rows base (some ours) none = (some ours, none)
  merge_rows base none (some theirs) = (some theirs, none)
  merge_rows base none none = (none, none)

  -- The body of the loop over the keys.
  unfoldable pub merge_key : Option Row → Option Row → Option Row → Bool → Bool → Outcome
  unfolding merge_rows resolve_delete_vs_edit
  merge_key base ours theirs our_deleted their_deleted =
      if our_deleted || their_deleted
      then resolve_delete_vs_edit table key base ours theirs our_deleted their_deleted
      else merge_rows base ours theirs
