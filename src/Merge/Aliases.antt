-- ===== src/Merge/Aliases.antt =====
-- Agents of one name under two ids, in merge/mod.rs: `plan_agent_aliases` and `remap_agent_references`.
-- The list of the cells that were rewritten, which an alias carries for people, is left out.
pub mod Groups
pub mod Stable
pub mod Redirect
use carryctx.Base.{
  String, Bool, true, false, not, ◌&&◌, ◌==◌, Option, none, some, List, [], ◌∷◌, ◌++◌, map, keep,
  if◌then◌else◌, text_lt, is_some, is_empty, Result, ok, err,
}
use carryctx.Merge.{Row, text, get, insert, as_text, External}
use carryctx.Merge.Index.{MergeError, RowIndex, index_rows}
use carryctx.Merge.Loop.{KeySet}
use carryctx.Merge.Tombstones.{TableSet, text_of}

-- `AGENT_REFERENCE_COLUMNS`, a table and a column
abbrev pub agent_reference_columns : List (String × String)
agent_reference_columns =
    ("sessions", "agent_id")
    ∷ ("tasks", "owner_agent_id")
    ∷ ("handoffs", "from_agent_id")
    ∷ ("handoffs", "to_agent_id")
    ∷ ("events", "actor_agent_id")
    ∷ ("teams", "commander_agent_id")
    ∷ ("team_members", "agent_id")
    ∷ []

pub record AgentAlias : Type 0 where
  pub project_id : String
  pub name : String
  pub existing_agent_id : String
  pub incoming_agent_id : String

-- The order of pairs of texts.
abbrev pub pair_eq : String × String → String × String → Bool
pair_eq (p, n) (q, m) = p == q && n == m

abbrev pub pair_lt : String × String → String × String → Bool
pair_lt (p, n) (q, m) = if p == q then text_lt n m else text_lt p q

-- The ids of the agents of one project and name; the groups stand by rising project and name.
abbrev pub Group : Type 0
Group = (String × String) × KeySet

-- `entry(..).or_default().insert(id)`
unfoldable pub add_member : String × String → String → List Group → List Group
unfolding insert
add_member name id [] = (name, (id, tt) ∷ []) ∷ []
add_member name id ((other, ids) ∷ groups) =
    let rest = add_member name id groups in
    if pair_eq name other
    then (other, insert id tt ids) ∷ groups
    else if pair_lt name other
    then (name, (id, tt) ∷ []) ∷ (other, ids) ∷ groups
    else (other, ids) ∷ rest

abbrev both_texts : Option String → Option String → Option (String × String)
both_texts (some p) (some n) = some (p, n)
both_texts _ _ = none

unfoldable pub name_of : Row → Option (String × String)
unfolding text_of
name_of row = both_texts (text_of "project_id" row) (text_of "name" row)

abbrev pub add_named : Option (String × String) → String → List Group → List Group
add_named none id groups = groups
add_named (some name) id groups = add_member name id groups

unfoldable pub add_agents : RowIndex → List Group → List Group
unfolding add_member name_of
add_agents [] groups = groups
add_agents ((id, row) ∷ agents) groups = add_agents agents (add_named (name_of row) id groups)

abbrev pub alias_of : String × String → String → String → AgentAlias
alias_of (project_id, name) survivor loser = record {
  project_id = project_id;
  name = name;
  existing_agent_id = survivor;
  incoming_agent_id = loser;
}

-- The first id of a group survives.
abbrev pub aliases_of : Group → List AgentAlias
aliases_of (name, []) = []
aliases_of (name, (survivor, _) ∷ losers) = map (λ (loser, _). alias_of name survivor loser) losers

unfoldable pub all_aliases : List Group → List AgentAlias
all_aliases [] = []
all_aliases (group ∷ groups) = aliases_of group ++ all_aliases groups

-- The groups come by rising name and their ids rise, so that the sort at the end changes nothing.
unfoldable pub plan_aliases : RowIndex → RowIndex → List AgentAlias
unfolding all_aliases add_agents
plan_aliases ours theirs = all_aliases (add_agents theirs (add_agents ours []))

abbrev between :
    Result MergeError RowIndex → Result MergeError RowIndex → Result MergeError (List AgentAlias)
between (err e) _ = err e
between (ok ours) (err e) = err e
between (ok ours) (ok theirs) = ok (plan_aliases ours theirs)

unfoldable pub plan_agent_aliases :
    External → List Row → List Row → Result MergeError (List AgentAlias)
unfolding plan_aliases index_rows
plan_agent_aliases ext ours theirs =
    between (index_rows ext "agents" ours) (index_rows ext "agents" theirs)

-- The map from a folded id to its survivor: the last alias of an id counts.
abbrev pub Remap : Type 0
Remap = List (String × String)

unfoldable pub collect : Remap → List AgentAlias → Remap
unfolding insert
collect remap [] = remap
collect remap (a ∷ aliases) = collect (insert a.incoming_agent_id a.existing_agent_id remap) aliases

abbrev pub redirected : String → Row → Option String → Row
redirected column row none = row
redirected column row (some existing) = insert column (text existing) row

abbrev pub redirect_text : Remap → String → Row → Option String → Row
redirect_text remap column row none = row
redirect_text remap column row (some current) = redirected column row (get current remap)

unfoldable pub redirect : Remap → String → Row → Row
unfolding get insert
redirect remap column row = redirect_text remap column row (as_text (get column row))

abbrev pub update_rows : String → (List Row → List Row) → TableSet → TableSet
update_rows table f [] = []
update_rows table f ((name, rows) ∷ tables) =
    let rest = update_rows table f tables in
    if name == table then (name, f rows) ∷ tables else (name, rows) ∷ rest

unfoldable pub redirect_all : Remap → List (String × String) → TableSet → TableSet
unfolding redirect
redirect_all remap [] result = result
redirect_all remap ((table, column) ∷ columns) result =
    redirect_all remap columns (update_rows table (map (redirect remap column)) result)

-- A row without a text for its id stays.
abbrev pub stays : Remap → Option String → Bool
stays remap none = true
stays remap (some id) = not (is_some (get id remap))

unfoldable pub remap_agent_references : List AgentAlias → TableSet → TableSet
unfolding collect redirect_all text_of get
remap_agent_references aliases result =
    let remap = collect [] aliases in
    if is_empty remap
    then result
    else update_rows "agents" (keep (λ row. stays remap (text_of "id" row)))
        (redirect_all remap agent_reference_columns result)
