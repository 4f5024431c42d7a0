-- ===== src/Examples.antt =====
-- Test data for the theorems: a project with three tasks, two agents and a strong edge.
mod Domain
mod Tasks
mod Listing
mod Merging
mod Values
mod Snapshots
mod Merges
mod Renumbering
mod Engines
use carryctx.Base.{String, Option, none, some, List, [], ◌∷◌, true, false}
use carryctx.Agent
use carryctx.Agent.{Agent}
use carryctx.Task.{TaskStatus, planned, ready, in_progress}
use carryctx.Task
use carryctx.Dependency.{strong}
use carryctx.Store.{Store, TaskRecord}
use carryctx.Operations.{Env}
use carryctx.Operations.Claim.{PolicyConfig}

abbrev pub task_at : String → String → TaskStatus → Option String → TaskRecord
task_at id display_id status owner = record {
  id = id;
  display_id = display_id;
  title = "title";
  description = none;
  status = status;
  priority = Task.normal;
  owner_agent_id = owner;
  parent_task_id = none;
  created_at = "t0";
  updated_at = "t0";
  started_at = none;
  completed_at = none;
  required_role = none;
  team_id = none;
}

abbrev pub agent_at : String → String → Agent
agent_at id name = record {
  id = id;
  project_id = "p";
  name = name;
  role = none;
  kind = none;
  status = Agent.active;
}

abbrev pub design : TaskRecord
design = task_at "01A" "CTX-1" ready none

abbrev pub build : TaskRecord
build = task_at "01B" "CTX-2" planned none

abbrev pub project : Store
project = record {
  tasks = design ∷ build ∷ [];
  dependencies =
      record {
        id = "d1";
        edge = record { task_id = "01B"; prerequisite_id = "01A"; kind = strong };
      }
      ∷ [];
  agents = agent_at "a1" "ada" ∷ agent_at "a2" "bob" ∷ [];
  events = [];
  sessions = [];
  progress_items = [];
  worktrees = [];
  cleanup_requests = [];
  tombstones = [];
  sequences = [];
  teams = [];
}

abbrev pub env : Env
env = record { now = "t1"; new_id = "n1" }

abbrev pub policy : PolicyConfig
policy = record { enforce_role_matching = true; single_active_task = true }
