-- ===== src/Examples/Listing.antt =====
-- The theorems on the tasks that are shown and listed, at the project of the test data.
use carryctx.Base.{
  In, ◌↔◌, ◌≡◌, refl, ok, none, some, List, [], ◌∷◌, map, length, ◌≤◌, arith, false, true,
}
use carryctx.Task.{ready}
use carryctx.Dependency.{strong}
use carryctx.Store.{TaskRecord, take}
use carryctx.Store.Counts.{count_by_status, list_display_ids_by_status}
use carryctx.Operations.Show.{
  TaskWithDependencies, TaskFilter, entry_of, show_task, list_tasks, or_default,
}
use carryctx.Operations.Show.Mirror.{show_task-mirror}
use carryctx.Operations.Show.Listed.{
  IsListing, list_tasks-IsListing, by_status, list_tasks-count_by_status,
}
use carryctx.Examples.{design, build, project}

abbrev shown_design : TaskWithDependencies
shown_design = record { task = design; depends_on = []; blocks = entry_of strong build ∷ [] }

abbrev shown_build : TaskWithDependencies
shown_build = record { task = build; depends_on = entry_of strong design ∷ []; blocks = [] }

show_design : show_task "CTX-1" project ≡ ok (shown_design, project)
unfolding show_task
show_design = refl

show_build : show_task "01B" project ≡ ok (shown_build, project)
unfolding show_task
show_build = refl

show_task-mirror_example :
    In (entry_of strong design) shown_build.depends_on
    ↔ In (entry_of strong build) shown_design.blocks
show_task-mirror_example =
    show_task-mirror project project project "01B" "CTX-1" shown_build shown_design strong
      (refl, (refl, tt)) show_build show_design

abbrev all_of_two : TaskFilter
all_of_two = record {
  status = none;
  owner_agent_id = none;
  ready = true;
  blocked = false;
  mine = none;
}

list_tasks-IsListing_example :
    (found : List TaskRecord) × (list_tasks all_of_two (some 1) project ≡ ok found)
    × IsListing all_of_two 1 project.tasks found
list_tasks-IsListing_example = list_tasks-IsListing all_of_two (some 1) project (omega arith)

list_ready : list_tasks (by_status ready) none project ≡ ok (design ∷ [])
unfolding list_tasks carryctx.Task.TaskStatus-discrete mathlib.Core.Bool.decide
list_ready = refl

list_tasks-count_by_status_example :
    (map (λ t. t.display_id) (design ∷ [])
      ≡ take (or_default none) (list_display_ids_by_status project ready))
    × ((length (design ∷ []) ≡ count_by_status project ready)
        ↔ (count_by_status project ready ≤ or_default none))
list_tasks-count_by_status_example =
    list_tasks-count_by_status ready none project (design ∷ []) list_ready
