-- ===== src/Merge/Renumber.antt =====
-- Display ids in a merge: the splitting and rendering of merge/identity.rs, and
-- `plan_display_renumbers` of merge/mod.rs, which gives a new number to all but one of the rows of a
-- table that share a display id.
pub mod Numbers
pub mod Counters
pub mod Fresh
pub mod Issued
pub mod Distinct
pub mod Tables
pub mod Grouping
pub mod HighWater
pub mod Project
use Prim.Native.String.{len}
use Prim.Native.String
use carryctx.Base.{
  ℕ, ◌+◌, max, String, Bool, true, false, Option, none, some, List, [], ◌∷◌, ◌++◌, ◌==◌, ◌||◌,
  if◌then◌else◌, text_lt, trim, leb,
}
use carryctx.Base.Numbers.{parse_uint, pad_to}
use carryctx.Cleanup.{concat}
use carryctx.Duration.{max_u64}
use carryctx.Ids.{split_dash}
use carryctx.Merge.{Value, number, text, Row, get, insert, as_text, External, key_or_empty}
use carryctx.Merge.Tombstones.{TableSet, text_of}
use carryctx.Merge.Sequences.{or_empty}
use carryctx.Merge.Aliases.{pair_eq, pair_lt}

abbrev pub display_tables : List String
display_tables = "tasks" ∷ "progress_items" ∷ "decisions" ∷ "handoffs" ∷ []

abbrev non_empty : Option String → Option String
non_empty none = none
non_empty (some s) = if s == "" then none else some s

unfoldable pub display_id : Row → Option String
unfolding text_of
display_id row = non_empty (text_of "display_id" row)

pub record DisplayParts : Type 0 where
  pub prefix : String
  pub number : ℕ
  pub width : ℕ

abbrev numbered : String → ℕ → Option ℕ → Option DisplayParts
numbered prefix width none = none
numbered prefix width (some n) = some (record { prefix = prefix; number = n; width = width })

abbrev parts_of : String → String → Option DisplayParts
parts_of prefix digits =
    if prefix == "" || digits == ""
    then none
    else numbered prefix (len digits) (parse_uint max_u64 digits)

abbrev trimmed_parts : Option (String × String) → Option DisplayParts
trimmed_parts none = none
trimmed_parts (some (prefix, digits)) = parts_of (trim prefix) (trim digits)

unfoldable pub split_display_id : String → Option DisplayParts
unfolding split_dash parse_uint
split_display_id display = trimmed_parts (split_dash display)

pub record DisplayKind : Type 0 where
  pub kind : String
  pub prefix : String
  pub width : ℕ

-- The name of the sequence; other tables have none.
unfoldable pub kind_name : String → String → Option String
unfolding concat
kind_name table prefix =
    if table == "tasks"
    then some (concat "display_id_" prefix)
    else if table == "progress_items"
    then some "display_id_progress"
    else if table == "decisions"
    then some "display_id_decision"
    else if table == "handoffs"
    then some "display_id_handoff"
    else none

abbrev kind_with : DisplayParts → Option String → Option DisplayKind
kind_with parts none = none
kind_with parts (some kind) =
    some (record { kind = kind; prefix = parts.prefix; width = max parts.width 1 })

abbrev pub kind_from : String → Option DisplayParts → Option DisplayKind
kind_from table none = none
kind_from table (some parts) = kind_with parts (kind_name table parts.prefix)

unfoldable pub display_kind : String → String → Option DisplayKind
unfolding kind_name split_display_id
display_kind table display = kind_from table (split_display_id display)

unfoldable pub render_display_id : String → ℕ → ℕ → String
unfolding pad_to
render_display_id prefix value width =
    String.◌++◌ prefix (String.◌++◌ "-" (pad_to (max width 1) value))

-- `saturating_add(1)` of a 64-bit number
abbrev pub next_u64 : ℕ → ℕ
next_u64 n = if leb max_u64 n then n else n + 1

-- A number for each project and kind of sequence.
abbrev pub Counters : Type 0
Counters = List ((String × String) × ℕ)

unfoldable pub number_at : String × String → Counters → Option ℕ
number_at key [] = none
number_at key ((other, n) ∷ counters) =
    let rest = number_at key counters in if pair_eq key other then some n else rest

unfoldable pub put_number : String × String → ℕ → Counters → Counters
put_number key n [] = (key, n) ∷ []
put_number key n ((other, k) ∷ counters) =
    let rest = put_number key n counters in
    if pair_eq key other
    then (key, n) ∷ counters
    else if pair_lt key other
    then (key, n) ∷ (other, k) ∷ counters
    else (other, k) ∷ rest

abbrev pub or_number : ℕ → Option ℕ → ℕ
or_number n none = n
or_number n (some k) = k

abbrev as_u64 : Option Value → Option ℕ
as_u64 none = none
as_u64 (some v) = elim v [ number n ↦ some n | _ ↦ none ]

abbrev put_sequence : Option String → Option String → Option ℕ → Counters → Counters
put_sequence (some project) (some kind) (some next) counters =
    put_number (project, kind) next counters
put_sequence _ _ _ counters = counters

unfoldable pub sequence_state : Counters → List Row → Counters
unfolding text_of put_number get
sequence_state counters [] = counters
sequence_state counters (row ∷ rows) =
    sequence_state
      (put_sequence (text_of "project_id" row) (text_of "kind" row) (as_u64 (get "next_value" row))
        counters)
      rows

-- The largest number seen of a kind.
abbrev pub raise_to : String × String → ℕ → Counters → Counters
raise_to key n counters = put_number key (max (or_number 0 (number_at key counters)) n) counters

abbrev pub see_parts :
    String → String → Option DisplayParts → Option DisplayKind → Counters → Counters
see_parts project table (some parts) (some kind) counters =
    raise_to (project, kind.kind) parts.number counters
see_parts project table _ _ counters = counters

abbrev pub see : String → Option String → Option String → Counters → Counters
see table (some project) (some display) counters =
    see_parts project table (split_display_id display) (display_kind table display) counters
see table _ _ counters = counters

unfoldable pub see_rows : String → Counters → List Row → Counters
unfolding display_kind display_id put_number number_at
see_rows table counters [] = counters
see_rows table counters (row ∷ rows) =
    see_rows table (see table (text_of "project_id" row) (display_id row) counters) rows

-- What the renumbering records, without the reason, which is a fixed text.
pub record Renumber : Type 0 where
  pub table : String
  pub row_id : String
  pub display_id : String
  pub new_display_id : String

abbrev pub Renumbered : Type 0
Renumbered = Counters × Row × List Renumber

abbrev pub Run : Type 0
Run = Counters × List Row × List Renumber

abbrev pub Groups : Type 0
Groups = List (String × List (String × Row))

unfoldable pub place_member : String × Row → List (String × Row) → List (String × Row)
place_member m [] = m ∷ []
place_member m (n ∷ members) =
    let rest = place_member m members in if text_lt n.0 m.0 then n ∷ rest else m ∷ n ∷ members

unfoldable pub sort_members : List (String × Row) → List (String × Row)
unfolding place_member
sort_members [] = []
sort_members (m ∷ members) = place_member m (sort_members members)

module _ (sequences high_water : Counters) where
  -- The first number that is given out.
  unfoldable pub floor : String × String → ℕ
  unfolding number_at
  floor key =
      max
        (max (or_number 1 (number_at key sequences))
          (next_u64 (or_number 0 (number_at key high_water))))
        1

  unfoldable pub next_number : Counters → String × String → ℕ
  unfolding floor
  next_number updates key = or_number (floor key) (number_at key updates)

  abbrev with_number : String → String → Counters → String × Row → DisplayKind → ℕ → Renumbered
  with_number table display updates (key, row) kind n =
      let new = render_display_id kind.prefix n kind.width in
      (
        put_number (or_empty (text_of "project_id" row), kind.kind) (next_u64 n) updates,
        insert "display_id" (text new) row,
        record { table = table; row_id = key; display_id = display; new_display_id = new } ∷ [],
      )

  unfoldable pub renumber :
      String → String → Counters → String × Row → Option DisplayKind → Renumbered
  unfolding put_number next_number render_display_id insert text_of
  renumber table display updates (key, row) none = (updates, row, [])
  renumber table display updates (key, row) (some kind) =
      with_number table display updates (key, row) kind
        (next_number updates (or_empty (text_of "project_id" row), kind.kind))

  abbrev then_rest : Renumbered → (Counters → Run) → Run
  then_rest (updates, row, notes) rest =
      let (last, rows, more) = rest updates in (last, row ∷ rows, notes ++ more)

  unfoldable pub renumber_all : String → String → List (String × Row) → Counters → Run
  unfolding renumber display_kind
  renumber_all table display [] updates = (updates, [], [])
  renumber_all table display (m ∷ members) updates =
      then_rest (renumber table display updates m (display_kind table display))
        (renumber_all table display members)

  -- The first row of a group, by its key, stays as it is.
  abbrev pub but_first : String → String → List (String × Row) → Counters → Run
  but_first table display [] updates = (updates, [], [])
  but_first table display ((_, survivor) ∷ members) updates =
      let (last, rows, notes) = renumber_all table display members updates in
      (last, survivor ∷ rows, notes)

  unfoldable pub renumber_groups : String → Groups → Counters → Run
  unfolding renumber_all sort_members
  renumber_groups table [] updates = (updates, [], [])
  renumber_groups table ((display, members) ∷ groups) updates =
      let (next, rows, notes) = but_first table display (sort_members members) updates in
      let (last, others, more) = renumber_groups table groups next in
      (last, rows ++ others, notes ++ more)

abbrev pub or_no_members : Option (List (String × Row)) → List (String × Row)
or_no_members none = []
or_no_members (some members) = members

abbrev join_group : Option String → String × Row → Groups → Groups
join_group none member groups = groups
join_group (some display) member groups =
    insert display (or_no_members (get display groups) ++ member ∷ []) groups

-- The rows by display id; a row without one is left out.
unfoldable pub group_rows : External → String → Groups → List Row → Groups
unfolding get insert display_id key_or_empty
group_rows ext table groups [] = groups
group_rows ext table groups (row ∷ rows) =
    group_rows ext table (join_group (display_id row) (key_or_empty ext table row, row) groups) rows
