-- ===== src/Merge/Engine/Lasting.antt =====
-- What a merge leaves of the append-only tables: the steps after the union change no row's key.
use carryctx.Base.{
  String, true, false, Option, none, some, List, [], ◌∷◌, map, is_empty, ◌≡◌, inl, inr, refl, sym,
  ap, ◌∙◌, subst, arith, ◌==◌, eq_iff, Bool-cases, In, All, Result, ok,
}
use mathlib.Core.Bool.{false≢true}
use carryctx.Merge.{
  Row, get, External, is_append_only, identity_columns, key_component, cons_part, join_parts,
  key_parts,
}
use carryctx.Merge.Elect.{Note}
use carryctx.Merge.Index.{MergeError, key_or_error, row_key}
use carryctx.Merge.Tombstones.{TableSet}
use carryctx.Merge.Aliases.{
  AgentAlias, agent_reference_columns, Remap, collect, redirect, redirect_all, update_rows,
  remap_agent_references,
}
use carryctx.Merge.Aliases.Redirect.{rows_of, redirect_other}
use carryctx.Merge.Tables.{rows_of-same, get-other, get-update_rows}
use carryctx.Merge.Projects.{stabilize_projects}
use carryctx.Merge.Renumber.{display_tables}
use carryctx.Merge.Renumber.Tables.{plan_display_renumbers, renumber_tables}
use carryctx.Merge.Renumber.Project.{run-get, get-write_back_sequences, stated, observed}
use carryctx.Merge.Engine.{Stage, on_table, on_rows, replace_rows}
use carryctx.Merge.Engine.FailClosed.{try_then-ok}

-- An append-only table is another than one that is not.
pub apart :
    (table other : String)
    → is_append_only table ≡ true
    → is_append_only other ≡ false
    → (table == other) ≡ false
apart table other h k = elim (Bool-cases (table == other)) [
  | inl same ↦
      absurd (false≢true (sym k ∙ ap is_append_only (sym ((eq_iff table other).0 same)) ∙ h))
  | inr differ ↦ differ
]

append_only-id : (table : String) → is_append_only table ≡ true → identity_columns table ≡ "id" ∷ []
unfolding identity_columns is_append_only
append_only-id table h =
    rw
      (
        apart table "team_members" h refl,
        apart table "graph_edges" h refl,
        apart table "sequences" h refl,
        apart table "tombstones" h refl,
      )
      refl

module _ (ext : External) (table : String) (append : is_append_only table ≡ true) where
  -- The table has a row of the key.
  abbrev pub HasKey : String → TableSet → Type 0
  HasKey k tables = (w : Row) × In w (rows_of table tables) × (row_key ext table w ≡ ok k)

  pub HasKey-same :
      (k : String) (a b : TableSet) → get table b ≡ get table a → HasKey k a → HasKey k b
  HasKey-same k a b h (w, m, key) = (w, subst (In w) (rows_of-same table a b (sym h)) m, key)

  row_key-id :
      (row : Row)
      → row_key ext table row
        ≡ key_or_error ext table (join_parts ext (key_parts ext row ("id" ∷ [])))
  unfolding row_key
  row_key-id row =
      ap (λ c. key_or_error ext table (join_parts ext (key_parts ext row c)))
        (append_only-id table append)

  row_key-redirect :
      (remap : Remap) (column : String) (row : Row)
      → ("id" == column) ≡ false
      → row_key ext table (redirect remap column row) ≡ row_key ext table row
  unfolding key_parts
  row_key-redirect remap column row h =
      row_key-id (redirect remap column row)
      ∙ ap
          (λ g. key_or_error ext table (join_parts ext (cons_part (key_component ext g) (some []))))
          (redirect_other remap column "id" row h)
      ∙ sym (row_key-id row)

  on_rows-get :
      (other : String) (f : List Row → Result MergeError (List Row × List Note)) (stage out : Stage)
      (found : Option (List Row))
      → (table == other) ≡ false
      → on_rows other f stage found ≡ ok out
      → get table out.0 ≡ get table stage.0
  on_rows-get other f stage out none h e =
      let same : stage ≡ out = cc e in ap (λ (x : Stage). get table x.0) (sym same)
  on_rows-get other f (tables, notes) out (some rows) h e =
      let (made, _, last) =
        try_then-ok (f rows) (λ m. ok (replace_rows other notes m tables)) out e in
      let same : replace_rows other notes made tables ≡ out = cc last in
      ap (λ (x : Stage). get table x.0) (sym same) ∙ get-other table other made.0 tables h

  pub on_table-get :
      (other : String) (f : List Row → Result MergeError (List Row × List Note))
      → is_append_only other ≡ false
      → (stage out : Stage) → on_table other f stage ≡ ok out
      → get table out.0 ≡ get table stage.0
  on_table-get other f h (tables, notes) out e =
      on_rows-get other f (tables, notes) out (get other tables) (apart table other append h) e

  pub renumbered-get :
      (tables : TableSet) → get table (plan_display_renumbers ext tables).0 ≡ get table tables
  unfolding plan_display_renumbers is_append_only
  renumbered-get tables =
      let (updates, merged, _) =
        renumber_tables ext (stated tables) (observed tables) display_tables tables [] in
      get-write_back_sequences table merged updates (apart table "sequences" append refl)
      ∙ run-get ext (stated tables) (observed tables) "" table display_tables tables [] (
        apart table "tasks" append refl,
        (
          apart table "progress_items" append refl,
          (apart table "decisions" append refl, (apart table "handoffs" append refl, tt)),
        ),
      )

  pub stabilized-get :
      (ours : List Row) (tables : TableSet)
      → get table (stabilize_projects ours tables) ≡ get table tables
  unfolding stabilize_projects is_append_only
  stabilized-get [] tables = refl
  stabilized-get (p ∷ ours) tables =
      get-update_rows table "projects" _ tables (apart table "projects" append refl)

  -- A row keeps its key when a column that is not its id is rewritten.
  In-redirect :
      (remap : Remap) (column : String) (w : Row) (rows : List Row)
      → In w rows
      → In (redirect remap column w) (map (redirect remap column) rows)
  In-redirect remap column w [] m = absurd m
  In-redirect remap column w (r ∷ rows) m = elim m [
    | inl here ↦ inl (ap (redirect remap column) here)
    | inr later ↦ inr (In-redirect remap column w rows later)
  ]

  HasKey-redirect :
      (k t column : String) (remap : Remap) (tables : TableSet)
      → ("id" == column) ≡ false
      → HasKey k tables
      → HasKey k (update_rows t (map (redirect remap column)) tables)
  unfolding rows_of
  HasKey-redirect k t column remap [] h (w, m, key) = absurd m
  HasKey-redirect k t column remap ((name, rows) ∷ tables) h (w, m, key) =
      elim (Bool-cases (name == table)) [
        | inl here ↦ elim (Bool-cases (name == t)) [
          | inl updated ↦
              rw (updated, here)
                (
                  redirect remap column w,
                  In-redirect remap column w rows (rw here at m),
                  row_key-redirect remap column w h ∙ key,
                )
          | inr left ↦ rw (left, here) (w, (rw here at m), key)
        ]
        | inr there ↦
            let (v, n, own) = HasKey-redirect k t column remap tables h (w, (rw there at m), key) in
            elim (Bool-cases (name == t)) [
              | inl updated ↦ rw (updated, there) (w, (rw there at m), key)
              | inr left ↦ rw (left, there) (v, n, own)
            ]
      ]

  HasKey-redirect_all :
      (k : String) (remap : Remap) (columns : List (String × String)) (tables : TableSet)
      → All (λ (_, c). ("id" == c) ≡ false) columns
      → HasKey k tables
      → HasKey k (redirect_all remap columns tables)
  unfolding redirect_all
  HasKey-redirect_all k remap [] tables a h = h
  HasKey-redirect_all k remap ((t, c) ∷ columns) tables (first, a) h =
      HasKey-redirect_all k remap columns (update_rows t (map (redirect remap c)) tables) a
        (HasKey-redirect k t c remap tables first h)

  pub HasKey-remap :
      (k : String) (aliases : List AgentAlias) (tables : TableSet)
      → HasKey k tables
      → HasKey k (remap_agent_references aliases tables)
  unfolding remap_agent_references is_append_only
  HasKey-remap k aliases tables h = elim (Bool-cases (is_empty (collect [] aliases))) [
    | inl nothing ↦ rw nothing h
    | inr some_remap ↦
        let remap = collect [] aliases in
        let redirected = redirect_all remap agent_reference_columns tables in
        rw some_remap (
          HasKey-same k redirected _
            (get-update_rows table "agents" _ redirected (apart table "agents" append refl))
            (HasKey-redirect_all k remap agent_reference_columns tables (ground arith) h))
  ]
