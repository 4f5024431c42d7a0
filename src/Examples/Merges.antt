-- ===== src/Examples/Merges.antt =====
-- The theorems on whole tables of a merge, at concrete rows.
use carryctx.Base.{
  String, some, List, [], ◌∷◌, ◌≡◌, ◌↔◌, inl, inr, refl, sym, subst, arith, In, ok, eq_iff,
}
use carryctx.Merge
use carryctx.Merge.{Row, Value, text, null, get, frame, as_text}
use carryctx.Merge.Elect.{Note, canonical_frame}
use carryctx.Merge.Index.{RowIndex, index_rows}
use carryctx.Merge.Loop.{Sides, merge_at, merge_sides}
use carryctx.Merge.Loop.Pointwise.{get-merge_sides}
use carryctx.Merge.Loop.Commute.{Agrees, Tells, swapped, merge_at-Agrees}
use carryctx.Merge.Tombstones.{TableSet}
use carryctx.Merge.Aliases.{plan_aliases, collect, remap_agent_references}
use carryctx.Merge.Aliases.Stable.{OneName}
use carryctx.Merge.Aliases.Redirect.{rows_of, Current, remap_agent_references-Current}
use carryctx.Merge.Unique.{Keyed, resolve_keyed, unique_value}
use carryctx.Merge.Unique.Least.{IdOnce, IsLeast, resolve_keyed_iff}
use carryctx.Examples.Merging.{plain, lenient, row_at}

-- Two sides changed one task, and each has one of its own; theirs deleted a fourth.
abbrev sides : Sides
sides = record {
  base = [];
  ours = ("01A", row_at "completed" null) ∷ ("01B", row_at "ready" null) ∷ [];
  theirs = ("01A", row_at "ready" (text "t1")) ∷ ("01C", row_at "planned" null) ∷ [];
  base_tombstones = [];
  our_tombstones = [];
  their_tombstones = ("tasks", "01D") ∷ [];
}

get-merge_sides_example :
    ((k : String)
      → get k (merge_sides plain lenient "tasks" sides).0
        ≡ (merge_at plain lenient "tasks" sides k).0)
    × ((n : Note)
        → In n (merge_sides plain lenient "tasks" sides).1
          ↔ ((k : String) × ((merge_at plain lenient "tasks" sides k).1 ≡ some n)))
get-merge_sides_example = get-merge_sides plain lenient "tasks" sides

-- The two contents of the task that both sides have differ in their texts.
told_apart :
    (k : String) (o t : Row)
    → get k sides.ours ≡ some o
    → get k sides.theirs ≡ some t
    → Tells plain "tasks" o t
unfolding get canonical_frame frame Merge.machine_local_columns Merge.identity_columns
told_apart k o t h i e =
    ground
      (arith, h, i, e, eq_iff k "01A", eq_iff k "01B", eq_iff k "01C", eq_iff "completed" "ready")

merge_at-Agrees_example :
    Agrees "tasks"
      (merge_at plain lenient "tasks" sides "01A")
      (merge_at plain lenient "tasks" (swapped sides) "01A")
merge_at-Agrees_example = merge_at-Agrees plain lenient "tasks" sides told_apart "01A"

abbrev agent : String → String → Row
agent id name = ("id", text id) ∷ ("name", text name) ∷ ("project_id", text "p") ∷ []

abbrev our_agents : RowIndex
our_agents = ("01A", agent "01A" "ada") ∷ []

abbrev their_agents : RowIndex
their_agents = ("01B", agent "01B" "ada") ∷ []

abbrev tables : TableSet
tables =
    ("agents", agent "01A" "ada" ∷ agent "01B" "ada" ∷ [])
    ∷ ("tasks", (("id", text "01T") ∷ ("owner_agent_id", text "01B") ∷ []) ∷ [])
    ∷ []

abbrev tables_after : TableSet
tables_after =
    ("agents", agent "01A" "ada" ∷ [])
    ∷ ("tasks", (("id", text "01T") ∷ ("owner_agent_id", text "01A") ∷ []) ∷ [])
    ∷ []

-- The younger agent is folded, and its task gets the older one as its owner.
folded : remap_agent_references (plan_aliases our_agents their_agents) tables ≡ tables_after
unfolding remap_agent_references plan_aliases
folded = refl

abbrev our_agent_rows : List Row
our_agent_rows = agent "01A" "ada" ∷ []

abbrev their_agent_rows : List Row
their_agent_rows = agent "01B" "ada" ∷ []

our_index : index_rows plain "agents" our_agent_rows ≡ ok our_agents
unfolding index_rows Merge.insert
our_index = refl

their_index : index_rows plain "agents" their_agent_rows ≡ ok their_agents
unfolding index_rows Merge.insert
their_index = refl

no_common : OneName our_agents their_agents
unfolding get
no_common id o t h k = ground (arith, h, k, eq_iff id "01A", eq_iff id "01B")

abbrev our_task : Row
our_task = ("id", text "01T") ∷ ("owner_agent_id", text "01A") ∷ []

task_after :
    In our_task
      (rows_of "tasks" (remap_agent_references (plan_aliases our_agents their_agents) tables))
unfolding rows_of
task_after = subst (λ x. In our_task (rows_of "tasks" x)) (sym folded) (inl refl)

remap_agent_references-Current_example :
    Current (collect [] (plan_aliases our_agents their_agents)) "owner_agent_id" our_task
remap_agent_references-Current_example =
    remap_agent_references-Current plain our_agent_rows their_agent_rows our_agents their_agents
      tables "tasks" "owner_agent_id" our_task our_index their_index no_common (inr (inl refl))
      task_after

-- An agent that one side has renamed is in two groups: it survives in the one and is folded in the other, and
-- then a reference names an agent that the result lacks.
abbrev renamed_ours : RowIndex
renamed_ours = ("01B", agent "01B" "ada") ∷ ("01C", agent "01C" "bob") ∷ []

abbrev renamed_theirs : RowIndex
renamed_theirs = ("01A", agent "01A" "ada") ∷ ("01B", agent "01B" "bob") ∷ []

abbrev bobs_task : TableSet
bobs_task =
    ("agents", agent "01A" "ada" ∷ agent "01B" "ada" ∷ agent "01C" "bob" ∷ [])
    ∷ ("tasks", (("id", text "01T") ∷ ("owner_agent_id", text "01C") ∷ []) ∷ [])
    ∷ []

renamed_agent_dangles :
    remap_agent_references (plan_aliases renamed_ours renamed_theirs) bobs_task
    ≡ ("agents", agent "01A" "ada" ∷ [])
      ∷ ("tasks", (("id", text "01T") ∷ ("owner_agent_id", text "01B") ∷ []) ∷ [])
      ∷ []
unfolding remap_agent_references plan_aliases
renamed_agent_dangles = refl

abbrev edge : String → Row
edge id = ("id", text id) ∷ ("prerequisite_task_id", text "01B") ∷ ("task_id", text "01A") ∷ []

abbrev edges : Keyed
edges = ("E2", edge "E2") ∷ ("E1", edge "E1") ∷ []

ids_once : IdOnce edges
ids_once k r q h i = ground (arith, h, i, eq_iff "E1" "E2")

resolve_keyed_iff_example :
    In
      ("E1", edge "E1")
      (resolve_keyed "task_dependencies" ("prerequisite_task_id" ∷ "task_id" ∷ []) [] [] edges).0
    ↔ (In ("E1", edge "E1") edges
        × IsLeast (unique_value ("prerequisite_task_id" ∷ "task_id" ∷ [])) edges "E1" (edge "E1"))
resolve_keyed_iff_example =
    resolve_keyed_iff "task_dependencies" ("prerequisite_task_id" ∷ "task_id" ∷ []) [] [] edges
      ids_once "E1" (edge "E1")
