-- ===== src/Merge.antt =====
-- crates/carryctx-pack/src/merge: the merge engine. This file has its data: JSON rows, table
-- classes and content frames (merge/identity.rs), options, conflicts and resolutions (merge/plan.rs).
pub mod Frame
pub mod Maps
pub mod Index
pub mod AppendOnly
pub mod Writes
pub mod Dag
pub mod Tombstones
pub mod Elect
pub mod Symmetric
pub mod Table
pub mod Facts
pub mod Deletes
pub mod Sequences
pub mod ThreeWay
pub mod Loop
pub mod Aliases
pub mod Members
pub mod Projects
pub mod Kinds
pub mod Unique
pub mod Tables
pub mod Renumber
pub mod Report
pub mod Engine
pub mod Request
use carryctx.Base.{
  ℕ, String, Bool, true, false, not, ◌&&◌, ◌||◌, Option, none, some, List, [], ◌∷◌, ◌==◌,
  if◌then◌else◌, nat_eq, text_lt, keep, contains, is_some, is_empty,
}

-- `serde_json::Value`. An array, an object and a number that is no u64 stand as `other`, their JSON text.
pub data Value : Type 0 where
  null : Value
  boolean : Bool → Value
  number : ℕ → Value
  text : String → Value
  other : String → Value

abbrev bool_eq : Bool → Bool → Bool
bool_eq true b = b
bool_eq false b = not b

unfoldable pub value_eq : Value → Value → Bool
value_eq null null = true
value_eq (boolean a) (boolean b) = bool_eq a b
value_eq (number a) (number b) = nat_eq a b
value_eq (text a) (text b) = a == b
value_eq (other a) (other b) = a == b
value_eq _ _ = false

-- `Map<String, Value>`, by rising column.
abbrev pub Row : Type 0
Row = List (String × Value)

-- A `BTreeMap<String, _>` is a list by rising key, a row among them.
unfoldable pub get : {A : Type 0} → String → List (String × A) → Option A
get c [] = none
get c ((d, v) ∷ row) = let rest = get c row in if c == d then some v else rest

unfoldable pub insert : {A : Type 0} → String → A → List (String × A) → List (String × A)
insert c v [] = (c, v) ∷ []
insert c v ((d, w) ∷ row) =
    let rest = insert c v row in
    if c == d then (c, v) ∷ row else if text_lt c d then (c, v) ∷ (d, w) ∷ row else (d, w) ∷ rest

unfoldable pub row_eq : Row → Row → Bool
unfolding value_eq
row_eq [] [] = true
row_eq ((c, v) ∷ a) ((d, w) ∷ b) = c == d && value_eq v w && row_eq a b
row_eq _ _ = false

-- `Value::as_str` of a column
abbrev pub as_text : Option Value → Option String
as_text none = none
as_text (some v) = elim v [ text s ↦ some s | _ ↦ none ]

abbrev pub is_null : Value → Bool
is_null null = true
is_null _ = false

abbrev pub monotonic_columns : List String
monotonic_columns =
    "started_at" ∷ "completed_at" ∷ "accepted_at" ∷ "declined_at" ∷ "ended_at" ∷ "superseded_by"
    ∷ []

unfoldable pub is_append_only : String → Bool
is_append_only table = contains ("events" ∷ "checkpoints" ∷ "checkpoint_corrections" ∷ []) table

unfoldable pub is_immutable : String → Bool
is_immutable table = contains ("task_dependencies" ∷ "scopes" ∷ "graph_edges" ∷ []) table

unfoldable pub machine_local_columns : String → List String
machine_local_columns table =
    if table == "projects"
    then "repository_root" ∷ "git_common_dir" ∷ []
    else if table == "worktrees"
    then "normalized_path" ∷ "git_common_dir" ∷ []
    else if table == "sessions"
    then "working_directory" ∷ []
    else []

unfoldable pub identity_columns : String → List String
identity_columns table =
    if table == "team_members"
    then "team_id" ∷ "agent_id" ∷ []
    else if table == "graph_edges"
    then "source_id" ∷ "target_id" ∷ "relation_type" ∷ []
    else if table == "sequences"
    then "project_id" ∷ "kind" ∷ []
    else if table == "tombstones"
    then "project_id" ∷ "table_name" ∷ "row_id" ∷ []
    else "id" ∷ []

abbrev pub keep_columns : (String → Bool) → Row → Row
keep_columns p row = keep (λ (c, v). p c) row

-- The columns that the content frame keeps.
unfoldable pub is_framed : String → String → Bool
is_framed table c =
    not (contains (machine_local_columns table) c) && not (contains (identity_columns table) c)

unfoldable pub frame : String → Row → Row
unfolding is_framed
frame table row = keep_columns (is_framed table) row

unfoldable pub content_eq : String → Row → Row → Bool
unfolding row_eq frame
content_eq table a b = row_eq (frame table a) (frame table b)

-- What the engine calls in other crates: `serde_json::to_string` of a frame and of a list of key parts,
-- the SHA-256 digest in hexadecimal, and `DateTime::parse_from_rfc3339`, as an instant that orders.
pub record External : Type 0 where
  pub to_json : Row → String
  pub parts_to_json : List String → String
  pub value_to_json : Value → String
  pub sha256_hex : String → String
  pub parse_from_rfc3339 : String → Option ℕ

unfoldable pub key_component : External → Option Value → Option String
key_component ext none = none
key_component ext (some v) = elim v [
  | text s ↦ if s == "" then none else some s
  | w ↦ some (ext.value_to_json w)
]

abbrev pub cons_part : Option String → Option (List String) → Option (List String)
cons_part (some p) (some ps) = some (p ∷ ps)
cons_part _ _ = none

unfoldable pub key_parts : External → Row → List String → Option (List String)
unfolding key_component get
key_parts ext row [] = some []
key_parts ext row (c ∷ columns) =
    cons_part (key_component ext (get c row)) (key_parts ext row columns)

abbrev pub join_parts : External → Option (List String) → Option String
join_parts ext none = none
join_parts ext (some parts) = elim parts [
  | [] ↦ some (ext.parts_to_json [])
  | p ∷ ps ↦ some (if is_empty ps then p else ext.parts_to_json (p ∷ ps))
]

-- The identity key; `none` is the validation error of a missing or empty column.
unfoldable pub identity_key : External → String → Row → Option String
unfolding key_parts identity_columns
identity_key ext table row = join_parts ext (key_parts ext row (identity_columns table))

-- `identity_key(..).unwrap_or_default()`
unfoldable pub key_or_empty : External → String → Row → String
unfolding identity_key
key_or_empty ext table row = elim (identity_key ext table row) [ none ↦ "" | some key ↦ key ]

pub record MergeOptions : Type 0 where
  pub strict_edits : Bool
  pub require_base : Bool

-- Without the texts `id`, which is made from kind, table and key, and `reason`.
pub record Conflict : Type 0 where
  pub kind : String
  pub table : String
  pub key : String
  pub base : Option Row
  pub ours : Option Row
  pub theirs : Option Row

pub record AutoResolution : Type 0 where
  pub table : String
  pub key : String
  pub kind : String
  pub winner : String
