-- ===== src/Lib.antt =====
-- Verification of CarryCtx, the task store that coding agents share (crates/ of this repository).
--
-- A command runs a use case in one transaction of a project's database. The model follows the layers:
-- - Error: crates/carryctx-core/src/error.rs, a constructor for each function that makes an error.
-- - Task, Dependency, Session, Progress, Cleanup, Agent: the pure rules of
--   crates/carryctx-core/src/domain. Task/Lifecycle has the theorems on `evaluate_transition`,
--   Task/Finish the way to a completed task, Dependency/Search and Dependency/Acyclic the theorems on
--   the cycle test.
-- - Store: the rows of one project and the statements of crates/carryctx-sqlite/src/repos.rs that the
--   task operations run; an action takes the rows and returns a result with the new rows, or an error.
--   Store/State has the rows and the actions, Store/Rows lemmas on rows, Store/Steps the rules for
--   relations between the rows before and after; Store/Codec has the texts of statuses and kinds
--   (`*_to_sql`, `*_from_sql`), Store/Counts the exact counts.
-- - Operations: the use cases of crates/carryctx-cli/src/application/task.rs: Operations/Create
--   (`create_task`; below it, Born is about the new row), Operations/Edit (`edit_task`; below it,
--   Authorized), Operations/Claim (`claim_task`), Operations/Transition (`transition_task`; below it,
--   Written is about the task itself and Others about the other ones), Operations/Depend
--   (`add_dependency`, `remove_dependency`), Operations/Show (`list_tasks`, `show_task`; below it,
--   Mirror is about the two directions of the edges, Listed about the filter and the counts).
--   Operations/Conserve shows what the commands conserve, Operations/History runs sequences of them,
--   each in a unit of work (crates/carryctx-sqlite/src/unit_of_work.rs).
-- - Merge: crates/carryctx-pack/src/merge. This file has rows, frames and identity keys (identity.rs,
--   plan.rs); Merge/Elect has the election between two changed rows, Merge/Table the decision for one
--   key, Merge/Sequences the counters (mod.rs). Merge/Symmetric, Merge/Facts and Merge/Deletes have
--   the theorems on them, with Merge/ThreeWay; Merge/Frame has lemmas on content frames.
--   Merge/Index is the loop that puts rows under their keys, with `index_rows`; Merge/AppendOnly and
--   Merge/Tombstones are two more loops of that form; Merge/Writes is `compute_writes_deletes`;
--   Merge/Loop is `merge_table`, with Pointwise and Commute; Merge/Aliases folds agents of one name
--   (`plan_agent_aliases`, `remap_agent_references`); Merge/Unique is `resolve_unique_collisions`;
--   Merge/Renumber is `plan_display_renumbers`, with the display ids of identity.rs; Merge/Members,
--   Merge/Kinds and Merge/Projects are the three steps between. Merge/Engine puts the steps together as
--   `merge_tables_with_source` does; below it, Steps has the form of a step, FailClosed and Complete
--   are about append-only tables, Lasting about the steps that keep their rows. Merge/Tables has
--   lemmas on sets of tables, Merge/Report has the report, Merge/Request `MergeRequest`.
--   Merge/Dag is dag.rs, the choice of the merge base. Merge/Maps has lemmas on maps by rising key.
-- - Duration, Ids: durations and display ids of crates/carryctx-core/src/domain.
-- - Examples: data and the theorems at that data.
--
-- Fuel: the cycle search takes one more step than there are edges; a node is expanded once, so this is
-- enough, and the equivalence of the test with reachability rests on that. The search for ancestors in
-- the export DAG takes one step more than the graph has entries, since a path repeats no node; a number
-- is printed with fuel for the twenty digits of 64 bits.
--
-- Outside: the JSON text of a row, the SHA-256 digest and the reading of a time are the record
-- `External` of Merge, about which nothing is assumed. A row of a snapshot is taken to be a JSON
-- object. In Operations, the clock and the id generator are the record `Env`: one id, that of the
-- row a use case makes; `create_task` takes a function for the ids of the edges. SQLite is taken to
-- run the statements as written; only the constraints that a statement can hit are errors, but for
-- the foreign key of a task's owner: an owner without an agent is refused by the event of the same
-- command, with another error. A new task stands first, which is its place by time of creation if the
-- clock does not go back.
--
-- Not modelled: the use cases on other tables (sessions, handoffs, teams, checkpoints, worktree
-- cleanup), of which only the rules in Session, Progress and Cleanup are here, for its size; the
-- warnings of a merge, the reasons and the rewritten references in its report, which are texts for a
-- reader; the command line, rendering, the pack files, git and jj, hooks and migrations, which are
-- input and output.
pub mod Base
pub mod Error
pub mod Agent
pub mod Task
pub mod Dependency
pub mod Session
pub mod Progress
pub mod Cleanup
pub mod Store
pub mod Operations
pub mod Merge
pub mod Duration
pub mod Ids
pub mod Examples
