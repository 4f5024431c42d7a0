-- ===== src/Examples/Snapshots.antt =====
-- The theorems on append-only rows, tombstones, the patch and the merge base, at concrete rows.
use carryctx.Base.{
  ◌+◌, String, true, false, none, some, [], ◌∷◌, ◌++◌, ◌≡◌, ◌↔◌, inl, refl, In, ok, length, text_lt,
  is_some, List,
}
use carryctx.Merge.{text, Row, get, identity_key, Value}
use carryctx.Merge.Elect.{canonical_frame}
use carryctx.Merge.Index.{RowIndex, row_key, index_rows}
use carryctx.Merge.Index.Minimal.{index_rows-minimal}
use carryctx.Merge.AppendOnly.{merge_append_only, Untampered, merge_append_only_iff}
use carryctx.Merge.Tombstones.{
  TableSet, tombstone_key, earlier_tombstone, merge_tombstones, filter_tombstones,
}
use carryctx.Merge.Tombstones.Earliest.{merge_tombstones-earliest}
use carryctx.Merge.Tombstones.Live.{NamesRow, filter_tombstones_iff}
use carryctx.Merge.Writes.{RowWrite, insert_row, compute_writes_deletes}
use carryctx.Merge.Writes.Patch.{content, patched, content-patched}
use carryctx.Merge.Dag.{
  ExportDag, ancestors, visit, start, newest_common_ancestor, select_merge_base,
}
use carryctx.Merge.Dag.Fuel.{Returns, visit-Returns}
use carryctx.Merge.Dag.Cycle.{HasCycle}
use carryctx.Merge.Dag.Newest.{ancestors-none_iff, IsNewestCommon, newest_common_ancestor_iff}
use carryctx.Examples.Merging.{plain}

abbrev event : String → String → Row
event id kind = ("event_type", text kind) ∷ ("id", text id) ∷ []

abbrev our_events : List Row
our_events = event "01A" "task.created" ∷ event "01B" "task.claimed" ∷ []

abbrev their_events : List Row
their_events = event "01A" "task.created" ∷ []

abbrev united : RowIndex
united = ("01A", event "01A" "task.created") ∷ ("01B", event "01B" "task.claimed") ∷ []

merge_append_only_iff_example :
    ((out : RowIndex) × (merge_append_only plain "events" [] our_events their_events ≡ ok out))
    ↔ Untampered plain "events" ([] ++ our_events ++ their_events)
merge_append_only_iff_example = merge_append_only_iff plain "events" [] our_events their_events

indexed : index_rows plain "events" our_events ≡ ok united
unfolding index_rows carryctx.Merge.insert
indexed = refl

index_rows-minimal_example :
    (key : String) × (w : Row) × (row_key plain "events" (event "01A" "task.created") ≡ ok key)
    × (get key united ≡ some w)
    × (text_lt
          (canonical_frame plain "events" (event "01A" "task.created"))
          (canonical_frame plain "events" w)
        ≡ false)
    × In w our_events
    × (row_key plain "events" w ≡ ok key)
index_rows-minimal_example =
    index_rows-minimal plain "events" our_events united (event "01A" "task.created") indexed
      (inl refl)

abbrev grave : String → Row
grave id = ("row_id", text id) ∷ ("table_name", text "tasks") ∷ []

merge_tombstones-earliest_example :
    (out : RowIndex) × (w : Row) × (merge_tombstones plain [] (grave "01A" ∷ []) (grave "01A" ∷ [])
      ≡ ok out)
    × (get (tombstone_key (grave "01A")) out ≡ some w)
    × (earlier_tombstone plain (grave "01A") w ≡ false)
    × In w ([] ++ (grave "01A" ∷ []) ++ (grave "01A" ∷ []))
    × (tombstone_key w ≡ tombstone_key (grave "01A"))
merge_tombstones-earliest_example =
    merge_tombstones-earliest plain [] (grave "01A" ∷ []) (grave "01A" ∷ []) (grave "01A")
      (inl refl)

abbrev task : Row
task = ("id", text "01B") ∷ []

abbrev merged_tables : TableSet
merged_tables = ("tasks", task ∷ []) ∷ []

filter_tombstones_iff_example :
    In (grave "01A") (filter_tombstones plain merged_tables (grave "01A" ∷ []))
    ↔ (In (grave "01A") (grave "01A" ∷ []) × (¬ NamesRow plain merged_tables (grave "01A")))
filter_tombstones_iff_example =
    filter_tombstones_iff plain merged_tables (grave "01A" ∷ []) (grave "01A")

abbrev new_rows : List (String × RowWrite)
new_rows = ("01B", record { row = event "01B" "task.claimed"; kind = insert_row }) ∷ []

written : compute_writes_deletes plain "events" their_events our_events ≡ ok (new_rows, [])
unfolding compute_writes_deletes carryctx.Merge.insert carryctx.Merge.machine_local_columns
written = refl

content-patched_example :
    (our_index index : RowIndex) × (index_rows plain "events" their_events ≡ ok our_index)
    × (index_rows plain "events" our_events ≡ ok index)
    × (content "events" (patched new_rows [] our_index "01B") ≡ content "events" (get "01B" index))
    × (¬ (
        (content "events" (get "01B" our_index) ≡ content "events" (get "01B" index))
        × (is_some (get "01B" new_rows) ≡ true)))
content-patched_example =
    content-patched plain "events" their_events our_events new_rows [] "01B" written

-- Two exports on one base.
abbrev history : ExportDag
history = ("01A", []) ∷ ("01B", "01A" ∷ []) ∷ ("01C", "01A" ∷ []) ∷ []

the_base : newest_common_ancestor history "01B" "01C" ≡ some "01A"
unfolding newest_common_ancestor
the_base = refl

select :
    select_merge_base
      (record { export_id = "01D"; parents = "01B" ∷ "01C" ∷ [] }
        ∷ record { export_id = "01E"; parents = "01B" ∷ "01C" ∷ [] }
        ∷ [])
      "01D"
      "01E"
    ≡ some "01C"
unfolding select_merge_base
select = refl

cyclic : ancestors (("01X", "01Y" ∷ []) ∷ ("01Y", "01X" ∷ []) ∷ []) "01X" ≡ none
unfolding ancestors
cyclic = refl

newest_common_ancestor_iff_example : (newest_common_ancestor history "01B" "01C" ≡ some "01A") ↔ (
    IsNewestCommon history "01B" "01C" "01A"
    × (¬ HasCycle history "01B")
    × (¬ HasCycle history "01C"))
newest_common_ancestor_iff_example = newest_common_ancestor_iff history "01B" "01C" "01A"

ancestors-none_iff_example : (ancestors history "01B" ≡ none) ↔ HasCycle history "01B"
ancestors-none_iff_example = ancestors-none_iff history "01B"

visit-Returns_example : Returns (visit history (length history + 1) "01B" start)
visit-Returns_example = visit-Returns history "01B"
