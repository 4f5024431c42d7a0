-- ===== src/Merge/Engine.antt =====
-- `merge_tables_with_source` of merge/mod.rs: the merge of two sets of tables.
pub mod Steps
pub mod FailClosed
pub mod Lasting
pub mod Complete
use carryctx.Base.{
  String, Bool, true, false, not, ◌&&◌, ◌||◌, ◌==◌, Option, none, some, List, [], ◌∷◌, ◌++◌, map,
  is_empty, is_some, if◌then◌else◌, text_lt, Result, ok, err, opt_eq,
}
use carryctx.Merge.{
  Row, get, insert, External, MergeOptions, Conflict, AutoResolution, key_or_empty, row_eq,
}
use carryctx.Merge.Elect.{Note, conflict, auto}
use carryctx.Merge.Index.{MergeError, base_required_missing, RowIndex}
use carryctx.Merge.Tombstones.{TableSet, merge_tombstones, filter_tombstones}
use carryctx.Merge.Sequences.{merge_sequences}
use carryctx.Merge.Loop.{KeySet, TombstoneIndex, tombstone_index, Merged, merge_table}
use carryctx.Merge.Aliases.{AgentAlias, plan_agent_aliases, remap_agent_references}
use carryctx.Merge.Aliases.Redirect.{rows_of}
use carryctx.Merge.Members.{reconcile_team_members_after_remap}
use carryctx.Merge.Unique.{Keyed, resolve_unique_collisions}
use carryctx.Merge.Kinds.{resolve_dependency_kind_collisions}
use carryctx.Merge.Projects.{stabilize_projects}
use carryctx.Merge.Renumber.{Renumber}
use carryctx.Merge.Renumber.Tables.{plan_display_renumbers}
use carryctx.Merge.Writes.{RowWrite, compute_writes_deletes}
use carryctx.Merge.Report.{
  try_then, named_lt, of_conflict, auto_lt, conflict_eq, auto_eq, sort_by, dedup, conflicts_of,
  autos_of, MergeReport,
}
use carryctx.Merge.Dag.{BaseSource, explicit, no_base}
pub use carryctx.Merge.Engine.Steps.{
  or_no_tables, add_names, rows_in, Buried, Stage, add_table, joined, is_separate, replace_rows,
  conflict_notes, auto_notes, on_rows, on_table,
}
unfoldable pub use carryctx.Merge.Engine.Steps.{in_turn}

module _ (ext : External) (options : MergeOptions) (base : Option TableSet)
    (ours theirs : TableSet) where
  abbrev base_rows : String → List Row
  base_rows table = rows_of table (or_no_tables base)

  -- The loop over the tables.
  unfoldable pub merge_each : Buried → KeySet → Result MergeError Stage
  unfolding merge_table rows_of
  merge_each buried [] = ok ([], [])
  merge_each buried ((table, _) ∷ names) =
      let rest = merge_each buried names in
      if is_separate table
      then rest
      else joined table
          (merge_table ext options table (base_rows table) (rows_of table ours)
            (rows_of table theirs) buried.base buried.ours buried.theirs)
          rest

  abbrev pub unique_in : String → List String → Stage → Result MergeError Stage
  unique_in table columns = on_table table (λ rows.
      try_then
        (resolve_unique_collisions ext table columns (rows_of table ours) (rows_of table theirs)
          (some rows))
        (λ found. ok (conflict_notes found)))

  abbrev pub members_in : List AgentAlias → Stage → Result MergeError Stage
  members_in [] stage = ok stage
  members_in (_ ∷ _) stage =
      on_table "team_members"
        (λ rows.
          try_then (reconcile_team_members_after_remap ext rows) (λ found. ok (auto_notes found)))
        stage

  abbrev pub kinds_in : Stage → Result MergeError Stage
  kinds_in = on_table "task_dependencies" (λ rows.
      try_then (resolve_dependency_kind_collisions ext rows) (λ found. ok (auto_notes found)))

  -- The steps between the folding of agents and the renumbering.
  abbrev pub steps : List AgentAlias → List (Stage → Result MergeError Stage)
  steps aliases =
      members_in aliases
      ∷ unique_in "teams" ("project_id" ∷ "name" ∷ [])
      ∷ unique_in "worktrees" ("project_id" ∷ "normalized_path" ∷ [])
      ∷ kinds_in
      ∷ unique_in "task_dependencies" ("task_id" ∷ "prerequisite_task_id" ∷ [])
      ∷ unique_in "scopes" ("task_id" ∷ "pattern" ∷ [])
      ∷ []

  unfoldable pub reconcile : List AgentAlias → Stage → Result MergeError Stage
  unfolding reconcile_team_members_after_remap resolve_unique_collisions
      resolve_dependency_kind_collisions rows_of get insert in_turn
  reconcile aliases stage = in_turn (steps aliases) stage

  abbrev has_name : String → KeySet → Bool
  has_name table names = is_some (get table names)

  -- A table is in the result if a side has it or there are rows for it.
  abbrev pub insert_rows : KeySet → String → List Row → TableSet → TableSet
  insert_rows names table rows tables =
      if has_name table names || not (is_empty rows) then insert table rows tables else tables

  abbrev pub row_lt : String → Row → Row → Bool
  row_lt table a b = text_lt (key_or_empty ext table a) (key_or_empty ext table b)

  unfoldable pub sort_tables : TableSet → TableSet
  unfolding sort_by key_or_empty
  sort_tables tables = map (λ (table, rows). (table, sort_by (row_lt table) rows)) tables

  abbrev Patches : Type 0
  Patches = List (String × List (String × RowWrite)) × List (String × List String)

  abbrev add_patch : String → List (String × RowWrite) × List String → Patches → Patches
  add_patch table (writes, deletes) (all_writes, all_deletes) =
      ((table, writes) ∷ all_writes, (table, deletes) ∷ all_deletes)

  -- `compute_writes_deletes` over the tables of ours and of the result.
  unfoldable pub patches : TableSet → KeySet → Result MergeError Patches
  unfolding compute_writes_deletes rows_of
  patches result [] = ok ([], [])
  patches result ((table, _) ∷ names) =
      let rest = patches result names in
      try_then (compute_writes_deletes ext table (rows_of table ours) (rows_of table result))
        (λ patch. try_then rest (λ more. ok (add_patch table patch more)))

  abbrev source_or : Option BaseSource → BaseSource
  source_or (some source) = source
  source_or none = if is_some base then explicit else no_base

  abbrev pub report_of :
      Option BaseSource
      → List AgentAlias
      → List Note
      → List Renumber
      → TableSet
      → Patches
      → MergeReport
  report_of source aliases notes renumbers result (writes, deletes) = record {
    result = result;
    writes = writes;
    deletes = deletes;
    renumbers = renumbers;
    aliases = aliases;
    auto_resolutions = dedup auto_eq (sort_by auto_lt (autos_of notes));
    conflicts =
        dedup conflict_eq
          (sort_by (λ a b. named_lt (of_conflict a) (of_conflict b)) (conflicts_of notes));
    base_source = source_or source;
    degraded = not (is_some base);
  }

  abbrev pub numbered_in : TableSet → TableSet × List Renumber
  numbered_in tables =
      plan_display_renumbers ext (stabilize_projects (rows_of "projects" ours) tables)

  abbrev pub in_order : KeySet → List Row → TableSet → TableSet
  in_order names tombstones numbered =
      sort_tables
        (insert_rows names "tombstones" (filter_tombstones ext numbered tombstones) numbered)

  -- The renumbering, the live tombstones, the order of the rows, and the writes and deletes.
  unfoldable pub conclude :
      Option BaseSource
      → KeySet
      → List AgentAlias
      → List Row
      → Stage
      → Result MergeError MergeReport
  unfolding stabilize_projects plan_display_renumbers filter_tombstones sort_tables patches dedup
      sort_by row_eq rows_of get insert
  conclude source names aliases tombstones (tables, notes) =
      let (numbered, renumbers) = numbered_in tables in
      let result = in_order names tombstones numbered in
      try_then (patches result (add_names ours (add_names result [])))
        (λ found. ok (report_of source aliases notes renumbers result found))

  abbrev pub counted : KeySet → TableSet → TableSet
  counted names tables =
      insert_rows names "sequences"
        (rows_in (
          merge_sequences (base_rows "sequences") (rows_of "sequences" ours)
            (rows_of "sequences" theirs)))
        tables

  abbrev pub with_aliases :
      Option BaseSource
      → KeySet
      → Stage
      → RowIndex
      → List AgentAlias
      → Result MergeError MergeReport
  with_aliases source names (tables, notes) tombstones aliases =
      try_then (reconcile aliases (remap_agent_references aliases (counted names tables), notes))
        (conclude source names aliases (rows_in tombstones))

  abbrev pub with_tombstones :
      Option BaseSource → KeySet → Stage → RowIndex → Result MergeError MergeReport
  with_tombstones source names stage tombstones =
      try_then (plan_agent_aliases ext (rows_of "agents" ours) (rows_of "agents" theirs))
        (with_aliases source names stage tombstones)

  -- After the loop over the tables.
  unfoldable pub after_tables : Option BaseSource → KeySet → Stage → Result MergeError MergeReport
  unfolding merge_sequences merge_tombstones plan_agent_aliases remap_agent_references reconcile
      conclude insert rows_of
  after_tables source names stage =
      try_then
        (merge_tombstones ext (base_rows "tombstones") (rows_of "tombstones" ours)
          (rows_of "tombstones" theirs))
        (with_tombstones source names stage)

  abbrev pub names_of : KeySet
  names_of = add_names theirs (add_names ours (add_names (or_no_tables base) []))

  -- The tombstones are read side by side.
  abbrev pub with_theirs :
      Option BaseSource
      → TombstoneIndex
      → TombstoneIndex
      → TombstoneIndex
      → Result MergeError MergeReport
  with_theirs source b o t =
      try_then (merge_each (record { base = b; ours = o; theirs = t }) names_of)
        (after_tables source names_of)

  abbrev pub with_ours :
      Option BaseSource → TombstoneIndex → TombstoneIndex → Result MergeError MergeReport
  with_ours source b o =
      try_then (tombstone_index (rows_of "tombstones" theirs)) (with_theirs source b o)

  abbrev pub with_base : Option BaseSource → TombstoneIndex → Result MergeError MergeReport
  with_base source b = try_then (tombstone_index (rows_of "tombstones" ours)) (with_ours source b)

  unfoldable pub merge_tables_with_source : Option BaseSource → Result MergeError MergeReport
  unfolding tombstone_index merge_each after_tables insert
  merge_tables_with_source source =
      if options.require_base && not (is_some base)
      then err base_required_missing
      else try_then (tombstone_index (base_rows "tombstones")) (with_base source)
