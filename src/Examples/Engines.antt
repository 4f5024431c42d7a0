-- ===== src/Examples/Engines.antt =====
-- Memberships that a folded agent doubles, and a whole merge of two sides with events.
use carryctx.Base.{String, none, true, List, [], ◌∷◌, ◌++◌, ◌≡◌, inl, inr, In, refl, ok}
use carryctx.Merge
use carryctx.Merge.{Row, AutoResolution, text, is_append_only}
use carryctx.Merge.Index.{row_key}
use carryctx.Merge.AppendOnly.{Untampered}
use carryctx.Merge.Tombstones.{TableSet}
use carryctx.Merge.Sequences.{add_all}
use carryctx.Merge.Aliases.Redirect.{rows_of}
use carryctx.Merge.Members.{reconcile_team_members_after_remap}
use carryctx.Merge.Members.Highest.{IsReconciled, reconcile_team_members-IsReconciled}
use carryctx.Merge.Writes.{insert_row}
use carryctx.Merge.Dag.{no_base}
use carryctx.Merge.Report.{MergeReport}
use carryctx.Merge.Engine.{or_no_tables, merge_tables_with_source}
use carryctx.Merge.Engine.FailClosed.{all_rows, merge_tables-Untampered}
use carryctx.Merge.Engine.Complete.{merge_tables_complete}
use carryctx.Examples.Merging.{plain, lenient}

abbrev member : String → Row
member role = ("agent_id", text "01A") ∷ ("role", text role) ∷ ("team_id", text "01T") ∷ []

abbrev both_members : List Row
both_members = member "coder" ∷ member "reviewer" ∷ []

abbrev kept_rows : List Row
kept_rows = member "reviewer" ∷ []

abbrev kept_notes : List AutoResolution
kept_notes =
    record { table = "team_members"; key = "-"; kind = "team_member_alias"; winner = "reviewer" }
    ∷ []

kept : reconcile_team_members_after_remap plain both_members ≡ ok (kept_rows, kept_notes)
unfolding reconcile_team_members_after_remap Merge.insert Merge.frame Merge.machine_local_columns
kept = refl

abbrev event : String → Row
event id = ("id", text id) ∷ ("type", text "task.created") ∷ []

abbrev our_events : TableSet
our_events = ("events", event "01A" ∷ []) ∷ []

abbrev their_events : TableSet
their_events = ("events", event "01A" ∷ event "01B" ∷ []) ∷ []

abbrev report : MergeReport
report = record {
  result = ("events", event "01A" ∷ event "01B" ∷ []) ∷ [];
  writes = ("events", ("01B", record { row = event "01B"; kind = insert_row }) ∷ []) ∷ [];
  deletes = ("events", []) ∷ [];
  renumbers = [];
  aliases = [];
  auto_resolutions = [];
  conflicts = [];
  base_source = no_base;
  degraded = true;
}

merged : merge_tables_with_source plain lenient none our_events their_events none ≡ ok report
unfolding merge_tables_with_source Merge.machine_local_columns add_all
merged = refl

events_append : is_append_only "events" ≡ true
unfolding is_append_only
events_append = refl

reconcile_team_members-IsReconciled_example : IsReconciled plain both_members kept_rows
reconcile_team_members-IsReconciled_example =
    reconcile_team_members-IsReconciled plain both_members kept_rows kept_notes kept

merge_tables-Untampered_example : Untampered plain "events" (
    rows_of "events" (or_no_tables none)
    ++ rows_of "events" our_events
    ++ rows_of "events" their_events)
merge_tables-Untampered_example =
    merge_tables-Untampered plain lenient none our_events their_events none report "events" merged
      events_append

their_event : In (event "01B") (all_rows plain lenient none our_events their_events "events")
unfolding rows_of
their_event = inr (inr (inl refl))

merge_tables_complete_example :
    (w : Row) × In w (rows_of "events" report.result)
    × (row_key plain "events" w ≡ row_key plain "events" (event "01B"))
merge_tables_complete_example =
    merge_tables_complete plain lenient none our_events their_events none report "events"
      (event "01B") merged events_append their_event
