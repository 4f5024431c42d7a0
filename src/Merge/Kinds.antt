-- ===== src/Merge/Kinds.antt =====
-- `resolve_dependency_kind_collisions` of merge/mod.rs: edges with different ids between the same two
-- tasks that differ only in their kind.
use carryctx.Base.{
  String, Bool, true, false, not, ◌&&◌, ◌==◌, Option, none, some, List, [], ◌∷◌, ◌++◌, keep, find,
  contains, any, opt_eq, if◌then◌else◌, Result, ok, err,
}
use carryctx.Merge.{
  Row, get, insert, External, key_parts, join_parts, identity_key, row_eq, AutoResolution,
}
use carryctx.Merge.Elect.{row_digest}
use carryctx.Merge.Table.{frame_without_kind}
use carryctx.Merge.Index.{MergeError, RowIndex, row_key, key_or_error}
use carryctx.Merge.Tombstones.{text_of}
use carryctx.Merge.Unique.{sort_texts, Groups, or_no_keys}

abbrev edge_columns : List String
edge_columns = "task_id" ∷ "prerequisite_task_id" ∷ []

-- The keys of each edge, and the first row of each key.
abbrev pub EdgeGroups : Type 0
EdgeGroups = Groups × RowIndex

abbrev keep_first : String → Row → Option Row → RowIndex → RowIndex
keep_first key row none rows = insert key row rows
keep_first key row (some _) rows = rows

abbrev with_edge :
    Row
    → Result MergeError String
    → Result MergeError String
    → EdgeGroups
    → Result MergeError EdgeGroups
with_edge row (err e) _ _ = err e
with_edge row (ok edge) (err e) _ = err e
with_edge row (ok edge) (ok key) (groups, rows) = ok (
  insert edge (or_no_keys (get edge groups) ++ key ∷ []) groups,
  keep_first key row (get key rows) rows,
)

abbrev kind_of_key : RowIndex → String → Option String
kind_of_key rows key = elim (get key rows) [ none ↦ none | some row ↦ text_of "kind" row ]

abbrev has_kind : RowIndex → String → String → Bool
has_kind rows kind key = opt_eq (kind_of_key rows key) (some kind)

abbrev has_frame : RowIndex → Row → String → Bool
has_frame rows first key = elim (get key rows) [
  | none ↦ false
  | some row ↦
      row_eq (frame_without_kind "task_dependencies" row)
        (frame_without_kind "task_dependencies" first)
]

abbrev all_keys : (String → Bool) → List String → Bool
all_keys p keys = not (any (λ key. not (p key)) keys)

-- The keys of an edge in order; the strong one survives if nothing but the kinds differs.
unfoldable pub surviving : RowIndex → List String → Option String
unfolding get text_of frame_without_kind row_eq
surviving rows [] = none
surviving rows (_ ∷ []) = none
surviving rows (a ∷ b ∷ keys) = elim (get a rows) [
  | none ↦ none
  | some first ↦
      if any (has_kind rows "strong") (a ∷ b ∷ keys)
        && any (has_kind rows "informational") (a ∷ b ∷ keys)
        && all_keys (has_frame rows first) (a ∷ b ∷ keys)
      then find (has_kind rows "strong") (a ∷ b ∷ keys)
      else none
]

module _ (ext : External) where
  unfoldable pub semantic_key : Row → Result MergeError String
  unfolding key_parts
  semantic_key row =
      key_or_error ext "task_dependencies" (join_parts ext (key_parts ext row edge_columns))

  unfoldable pub edge_groups : EdgeGroups → List Row → Result MergeError EdgeGroups
  unfolding semantic_key row_key get insert
  edge_groups found [] = ok found
  edge_groups found (row ∷ rows) =
      elim (with_edge row (semantic_key row) (row_key ext "task_dependencies" row) found) [
        | err e ↦ err e
        | ok next ↦ edge_groups next rows
      ]

  -- The keys that go, and what is recorded.
  abbrev elected_edge : RowIndex → List String → Option String → List String × List AutoResolution
  elected_edge rows keys none = ([], [])
  elected_edge rows keys (some survivor) = (
    keep (λ key. not (key == survivor)) keys,
    record {
      table = "task_dependencies";
      key = survivor;
      kind = "dependency_kind";
      winner = elim (get survivor rows) [
        | none ↦ ""
        | some row ↦ row_digest ext "task_dependencies" row
      ];
    }
        ∷ [],
  )

  unfoldable pub elect_edges : RowIndex → Groups → List String × List AutoResolution
  unfolding surviving row_digest get sort_texts
  elect_edges rows [] = ([], [])
  elect_edges rows ((_, keys) ∷ groups) =
      let members = sort_texts keys in
      let (drop, notes) = elected_edge rows members (surviving rows members) in
      let (others, more) = elect_edges rows groups in (drop ++ others, notes ++ more)

  abbrev stays_edge : List String → Option String → Bool
  stays_edge drop none = true
  stays_edge drop (some key) = not (contains drop key)

  abbrev retained :
      List Row → Result MergeError EdgeGroups → Result MergeError (List Row × List AutoResolution)
  retained rows (err e) = err e
  retained rows (ok (groups, index)) =
      let (drop, notes) = elect_edges index groups in
      ok (keep (λ row. stays_edge drop (identity_key ext "task_dependencies" row)) rows, notes)

  unfoldable pub resolve_dependency_kind_collisions :
      List Row → Result MergeError (List Row × List AutoResolution)
  unfolding edge_groups elect_edges identity_key
  resolve_dependency_kind_collisions rows = retained rows (edge_groups ([], []) rows)
