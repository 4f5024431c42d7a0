-- ===== src/Merge/Aliases/Redirect.antt =====
-- After the references are rewritten none names an agent that was folded.
use carryctx.Base.{
  String, Bool, true, false, Option, none, some, List, [], ◌∷◌, map, keep, ◌≡◌, inl, inr, refl, sym,
  ap, ◌∙◌, subst, arith, ◌==◌, eq_iff, Bool-cases, Option-cases, In, All, if◌then◌else◌, is_empty,
  ok,
}
use carryctx.Merge.{Row, text, get, insert, as_text, External}
use carryctx.Merge.Facts.{get-insert}
use carryctx.Merge.Index.{RowIndex, index_rows}
use carryctx.Merge.Index.Minimal.{index_rows-IsSorted}
use carryctx.Merge.Tombstones.{TableSet}
use carryctx.Merge.Aliases.{
  AgentAlias, agent_reference_columns, plan_aliases, Remap, collect, redirect_text, redirect,
  update_rows, redirect_all, stays, remap_agent_references,
}
use carryctx.Merge.Aliases.Stable.{Stable, OneName, collect-Stable}

-- `table_rows`
unfoldable pub rows_of : String → TableSet → List Row
rows_of table [] = []
rows_of table ((name, rows) ∷ tables) =
    let rest = rows_of table tables in if name == table then rows else rest

-- The column names no folded agent.
abbrev pub Current : Remap → String → Row → Type 0
Current remap column row = (id : String) → as_text (get column row) ≡ some id → get id remap ≡ none

redirect_text_keeps :
    (remap : Remap) (column other : String) (row : Row) (found : Option String)
    → (other == column) ≡ false
    → get other (redirect_text remap column row found) ≡ get other row
redirect_text_keeps remap column other row none h = refl
redirect_text_keeps remap column other row (some current) h =
    elim (Option-cases (get current remap)) [
      | inl free ↦ rw free refl
      | inr (existing, folded) ↦
          rw folded (ground (arith, h, get-insert other column (text existing) row))
    ]

pub redirect_other :
    (remap : Remap) (column other : String) (row : Row)
    → (other == column) ≡ false
    → get other (redirect remap column row) ≡ get other row
unfolding redirect
redirect_other remap column other row h =
    redirect_text_keeps remap column other row (as_text (get column row)) h

module _ (remap : Remap) (stable : Stable remap) where
  redirect_text-Current :
      (column : String) (row : Row) (found : Option String)
      → as_text (get column row) ≡ found
      → Current remap column (redirect_text remap column row found)
  redirect_text-Current column row none h id e = cc (h, e)
  redirect_text-Current column row (some current) h id e = elim (Option-cases (get current remap)) [
    | inl free ↦
        let same : as_text (get column row) ≡ some id = rw free at e in
        ground (arith, free, same, h)
    | inr (existing, folded) ↦
        let now : as_text (get column (insert column (text existing) row)) ≡ some id =
          rw folded at e in
        let is : existing ≡ id =
          ground (arith, now, get-insert column column (text existing) row, eq_iff column column) in
        ap (λ x. get x remap) (sym is) ∙ stable current existing folded
  ]

  redirect-Current :
      (column : String) (row : Row) → Current remap column (redirect remap column row)
  unfolding redirect
  redirect-Current column row = redirect_text-Current column row (as_text (get column row)) refl

  redirect_keeps :
      (column other : String) (row : Row)
      → Current remap other row
      → Current remap other (redirect remap column row)
  redirect_keeps column other row h = elim (Bool-cases (other == column)) [
    | inl same ↦
        subst (λ c. Current remap c (redirect remap column row))
          (sym ((eq_iff other column).0 same)) (redirect-Current column row)
    | inr differ ↦
        λ id e. h id (ap as_text (sym (redirect_other remap column other row differ)) ∙ e)
  ]

  All-map :
      (f : Row → Row) (P Q : Row → Type 0) (rows : List Row)
      → ((row : Row) → P row → Q (f row))
      → All P rows
      → All Q (map f rows)
  All-map f P Q [] k a = tt
  All-map f P Q (row ∷ rows) k (first, rest) = (k row first, All-map f P Q rows k rest)

  All-any : (rows : List Row) → All (λ (r : Row). Unit {0}) rows
  All-any [] = tt
  All-any (row ∷ rows) = (tt, All-any rows)

  All-keep :
      (p : Row → Bool) (P : Row → Type 0) (rows : List Row) → All P rows → All P (keep p rows)
  All-keep p P [] a = tt
  All-keep p P (row ∷ rows) (first, rest) = elim (Bool-cases (p row)) [
    | inl y ↦ rw y (first, All-keep p P rows rest)
    | inr n ↦ rw n (All-keep p P rows rest)
  ]

  -- What holds of the rows of a table holds after an update of any table that respects it.
  All-update_rows :
      (P : Row → Type 0) (table other : String) (f : List Row → List Row) (tables : TableSet)
      → ((rows : List Row) → All P rows → All P (f rows))
      → All P (rows_of table tables)
      → All P (rows_of table (update_rows other f tables))
  unfolding rows_of
  All-update_rows P table other f [] k a = tt
  All-update_rows P table other f ((name, rows) ∷ tables) k a = elim (Bool-cases (name == table)) [
    | inl here ↦ elim (Bool-cases (name == other)) [
      | inl updated ↦ rw (updated, here) (k rows (rw here at a))
      | inr left ↦ rw (left, here) (rw here at a)
    ]
    | inr there ↦ elim (Bool-cases (name == other)) [
      | inl updated ↦ rw (updated, there) (rw there at a)
      | inr left ↦ rw (left, there) (All-update_rows P table other f tables k (rw there at a))
    ]
  ]

  All-updated :
      (P : Row → Type 0) (table : String) (f : List Row → List Row) (tables : TableSet)
      → ((rows : List Row) → All P (f rows))
      → All P (rows_of table (update_rows table f tables))
  unfolding rows_of
  All-updated P table f [] k = tt
  All-updated P table f ((name, rows) ∷ tables) k = elim (Bool-cases (name == table)) [
    | inl here ↦ rw (here, here) (k rows)
    | inr there ↦ rw (there, there) (All-updated P table f tables k)
  ]

  redirect_all_keeps :
      (table column : String) (columns : List (String × String)) (result : TableSet)
      → All (Current remap column) (rows_of table result)
      → All (Current remap column) (rows_of table (redirect_all remap columns result))
  unfolding redirect_all
  redirect_all_keeps table column [] result a = a
  redirect_all_keeps table column ((t, c) ∷ columns) result a =
      redirect_all_keeps table column columns (update_rows t (map (redirect remap c)) result) (
        All-update_rows (Current remap column) table t (map (redirect remap c)) result
          (λ rows.
            All-map (redirect remap c) (Current remap column) (Current remap column) rows
              (redirect_keeps c column))
          a)

  redirect_all-Current :
      (table column : String) (columns : List (String × String)) (result : TableSet)
      → In (table, column) columns
      → All (Current remap column) (rows_of table (redirect_all remap columns result))
  unfolding redirect_all
  redirect_all-Current table column [] result m = absurd m
  redirect_all-Current table column ((t, c) ∷ columns) result m = elim m [
    | inl here ↦
        let t' : table ≡ t = ap (λ (x : String × String). x.0) here in
        let c' : column ≡ c = ap (λ (x : String × String). x.1) here in
        rw (t', c')
          (redirect_all_keeps t c columns (update_rows t (map (redirect remap c)) result) (
            All-updated (Current remap c) t (map (redirect remap c)) result (λ rows.
              All-map (redirect remap c) (λ (r : Row). Unit {0}) (Current remap c) rows
                (λ r _. redirect-Current c r) (All-any rows))))
    | inr later ↦
        redirect_all-Current table column columns (update_rows t (map (redirect remap c)) result)
          later
  ]

  agents_keep :
      (table column : String) (result : TableSet)
      → All (Current remap column) (rows_of table result)
      → All (Current remap column) (
          rows_of table
            (update_rows "agents" (keep (λ row. stays remap (as_text (get "id" row)))) result))
  agents_keep table column result a =
      All-update_rows (Current remap column) table "agents"
        (keep (λ row. stays remap (as_text (get "id" row)))) result
        (All-keep (λ row. stays remap (as_text (get "id" row))) (Current remap column)) a

All-In : (P : Row → Type 0) (rows : List Row) (row : Row) → All P rows → In row rows → P row
All-In P [] row a m = absurd m
All-In P (r ∷ rows) row (first, rest) m = elim m [
  | inl here ↦ subst P (sym here) first
  | inr later ↦ All-In P rows row rest later
]

remap-Current :
    (aliases : List AgentAlias) (result : TableSet) (table column : String)
    → Stable (collect [] aliases)
    → In (table, column) agent_reference_columns
    → (row : Row) → In row (rows_of table (remap_agent_references aliases result))
    → Current (collect [] aliases) column row
unfolding remap_agent_references get
remap-Current aliases result table column stable m row h =
    elim (Bool-cases (is_empty (collect [] aliases))) [
      | inl nothing ↦ λ id e. no_remap (collect [] aliases) id nothing
      | inr some_remap ↦
          let remap = collect [] aliases in
          All-In (Current remap column) _ row
            (agents_keep remap stable table column
              (redirect_all remap agent_reference_columns result)
              (redirect_all-Current remap stable table column agent_reference_columns result m))
            (rw some_remap at h)
    ]
  where
    no_remap : (remap : Remap) (id : String) → is_empty remap ≡ true → get id remap ≡ none
    no_remap [] id e = refl
    no_remap (_ ∷ _) id e = cc

-- Where an agent that both sides have has one project and one name there, no reference in a column that the merge
-- rewrites, which are those to agents in sessions, tasks, handoffs, events, teams and memberships, names an agent that
-- an alias folds.
pub remap_agent_references-Current :
    (ext : External) (our_rows their_rows : List Row) (ours theirs : RowIndex) (result : TableSet)
    (table column : String) (row : Row)
    → index_rows ext "agents" our_rows ≡ ok ours
    → index_rows ext "agents" their_rows ≡ ok theirs
    → OneName ours theirs
    → In (table, column) agent_reference_columns
    → In row (rows_of table (remap_agent_references (plan_aliases ours theirs) result))
    → Current (collect [] (plan_aliases ours theirs)) column row
remap_agent_references-Current ext our_rows their_rows ours theirs result table column row h k one
      m =
    remap-Current (plan_aliases ours theirs) result table column
      (collect-Stable ours theirs (index_rows-IsSorted ext "agents" our_rows ours h)
        (index_rows-IsSorted ext "agents" their_rows theirs k) one)
      m row
