-- ===== src/Merge/Dag.antt =====
-- crates/carryctx-pack/src/merge/dag.rs: the export DAG and the choice of the merge base.
pub mod Visit
pub mod Fuel
pub mod Ancestors
pub mod Closed
pub mod Cycle
pub mod Newest
use carryctx.Base.{
  ℕ, zero, suc, ◌+◌, String, Bool, true, false, not, Option, none, some, List, [], ◌∷◌, ◌==◌,
  if◌then◌else◌, length, keep, contains, text_lt,
}
use carryctx.Merge.{get, insert}
use carryctx.Merge.Tombstones.{TableSet}

-- `parents`, by rising export id.
abbrev pub ExportDag : Type 0
ExportDag = List (String × List String)

pub record SnapshotNode : Type 0 where
  pub export_id : String
  pub parents : List String

-- `entry(..).or_default()`
unfoldable pub or_default : String → Option (List String) → ExportDag → ExportDag
unfolding insert
or_default export_id none dag = insert export_id [] dag
or_default export_id (some _) dag = dag

unfoldable pub add_node : String → ExportDag → ExportDag
unfolding or_default get
add_node export_id dag = or_default export_id (get export_id dag) dag

unfoldable pub add_nodes : List String → ExportDag → ExportDag
unfolding add_node
add_nodes [] dag = dag
add_nodes (parent ∷ parents) dag = add_nodes parents (add_node parent dag)

unfoldable pub insert_edge : String → List String → ExportDag → ExportDag
unfolding add_nodes insert
insert_edge export_id parents dag = insert export_id parents (add_nodes parents dag)

unfoldable pub from_nodes : ExportDag → List SnapshotNode → ExportDag
unfolding insert_edge
from_nodes dag [] = dag
from_nodes dag (node ∷ nodes) = from_nodes (insert_edge node.export_id node.parents dag) nodes

unfoldable pub from_snapshot_nodes : List SnapshotNode → ExportDag
unfolding from_nodes
from_snapshot_nodes nodes = from_nodes [] nodes

abbrev or_empty_list : Option (List String) → List String
or_empty_list none = []
or_empty_list (some parents) = parents

unfoldable pub parents_of : ExportDag → String → List String
unfolding get
parents_of dag export_id = or_empty_list (get export_id dag)

-- The three sets that `visit` changes; a set is a list without repetition.
pub record Marks : Type 0 where
  pub on_path : List String
  pub done : List String
  pub result : List String

abbrev pub insert_text : String → List String → List String
insert_text a set = if contains set a then set else a ∷ set

abbrev pub enter : String → Marks → Marks
enter node s = record {
  on_path = insert_text node s.on_path;
  done = s.done;
  result = insert_text node s.result;
}

abbrev pub leave : String → Marks → Marks
leave node s = record {
  on_path = keep (λ v. not (v == node)) s.on_path;
  done = insert_text node s.done;
  result = s.result;
}

-- What `visit` answers, with the sets after it; `none` means that the fuel ran out.
abbrev pub Answer : Type 0
Answer = Option (Bool × Marks)

-- The loop over the parents, which stops at the first `false`.
unfoldable pub visit_all : (String → Marks → Answer) → List String → Marks → Answer
visit_all visit_one [] s = some (true, s)
visit_all visit_one (parent ∷ parents) s = elim (visit_one parent s) [
  | none ↦ none
  | some (ok_one, t) ↦ if ok_one then visit_all visit_one parents t else some (false, t)
]

abbrev pub finish : String → Answer → Answer
finish node none = none
finish node (some (true, t)) = some (true, leave node t)
finish node (some (false, t)) = some (false, t)

-- The two early returns: the node is done, or on the path.
abbrev pub unless_marked : Bool → Bool → Marks → Answer → Answer
unless_marked true _ s inner = some (true, s)
unless_marked false true s inner = some (false, s)
unless_marked false false s inner = inner

abbrev pub start : Marks
start = record { on_path = []; done = []; result = [] }

abbrev pub result_of : Answer → Option (List String)
result_of (some (true, t)) = some t.result
result_of _ = none

abbrev pub later : String → Option String → Option String
later a none = some a
later a (some b) = some (if text_lt a b then b else a)

-- `iter().max()`
unfoldable pub newest : List String → Option String
newest [] = none
newest (a ∷ set) = later a (newest set)

unfoldable pub newest_common : Option (List String) → Option (List String) → Option String
unfolding newest
newest_common (some ours) (some theirs) = newest (keep (contains theirs) ours)
newest_common _ _ = none

module _ (dag : ExportDag) where
  unfoldable pub visit : ℕ → String → Marks → Answer
  unfolding visit_all parents_of
  visit zero node s = none
  visit (suc fuel) node s =
      let inner = finish node (visit_all (visit fuel) (parents_of dag node) (enter node s)) in
      unless_marked (contains s.done node) (contains s.on_path node) s inner

  -- A path has no node twice, so it is at most one node longer than there are entries.
  unfoldable pub ancestors : String → Option (List String)
  unfolding visit
  ancestors export_id = result_of (visit (length dag + 1) export_id start)

  unfoldable pub newest_common_ancestor : String → String → Option String
  unfolding newest_common ancestors
  newest_common_ancestor ours theirs = newest_common (ancestors ours) (ancestors theirs)

unfoldable pub select_merge_base : List SnapshotNode → String → String → Option String
unfolding from_snapshot_nodes newest_common_ancestor
select_merge_base nodes ours theirs = newest_common_ancestor (from_snapshot_nodes nodes) ours theirs

pub data BaseSource : Type 0 where
  explicit ancestor snapshot no_base : BaseSource

pub data BaseResolution : Type 0 where
  resolved : TableSet → BaseSource → BaseResolution
  degraded required_missing : BaseResolution

unfoldable pub unresolved : Bool → BaseResolution
unresolved require_base = if require_base then required_missing else degraded

-- `snapshot` is the lookup that the caller supplies.
module _ (dag : ExportDag) (snapshot_of : String → Option TableSet) (require_base : Bool) where
  abbrev or_unresolved : Option TableSet → BaseResolution
  or_unresolved none = unresolved require_base
  or_unresolved (some base) = resolved base snapshot

  unfoldable pub from_snapshot : Option String → BaseResolution
  unfolding unresolved
  from_snapshot none = unresolved require_base
  from_snapshot (some ours) = or_unresolved (snapshot_of ours)

  abbrev or_snapshot : String → Option TableSet → BaseResolution
  or_snapshot ours none = from_snapshot (some ours)
  or_snapshot ours (some base) = resolved base ancestor

  abbrev at_ancestor : String → Option String → BaseResolution
  at_ancestor ours none = from_snapshot (some ours)
  at_ancestor ours (some id) = or_snapshot ours (snapshot_of id)

  unfoldable pub from_ancestor : Option String → Option String → BaseResolution
  unfolding from_snapshot newest_common_ancestor
  from_ancestor (some ours) (some theirs) =
      at_ancestor ours (newest_common_ancestor dag ours theirs)
  from_ancestor ours _ = from_snapshot ours

  unfoldable pub resolve_base : Option TableSet → Option String → Option String → BaseResolution
  unfolding from_ancestor
  resolve_base (some base) ours theirs = resolved base explicit
  resolve_base none ours theirs = from_ancestor ours theirs
