-- ===== src/Merge/Projects.antt =====
-- `stabilize_projects` of merge/mod.rs: the columns that identify a project stay ours.
use carryctx.Base.{String, List, [], ◌∷◌, map}
use carryctx.Merge.{Row}
use carryctx.Merge.Elect.{copy_columns}
use carryctx.Merge.Tombstones.{TableSet}
use carryctx.Merge.Aliases.{update_rows}

abbrev pub anchored_columns : List String
anchored_columns = "id" ∷ "name" ∷ "task_prefix" ∷ []

-- Our first project row counts. The warnings on a bundle that differs are left out.
unfoldable pub stabilize_projects : List Row → TableSet → TableSet
unfolding copy_columns
stabilize_projects [] result = result
stabilize_projects (our_project ∷ _) result =
    update_rows "projects" (map (copy_columns our_project anchored_columns)) result
