-- ===== src/Merge/Engine/Complete.antt =====
-- A merge loses no append-only row: the result has a row under every key that a side has.
use carryctx.Base.{
  String, Bool, true, false, Option, List, [], ◌∷◌, not, is_empty, is_some, ◌||◌, ◌≡◌, ◌⊎◌, inl,
  inr, refl, sym, ap, ◌∙◌, subst, ◌==◌, Bool-cases, In, All, Result, ok,
}
use carryctx.Merge.{Row, get, External, MergeOptions, is_append_only}
use carryctx.Merge.Index.{MergeError, row_key}
use carryctx.Merge.AppendOnly.{get-merge_append_only, key-merge_append_only}
use carryctx.Merge.Tombstones.{TableSet, merge_tombstones, filter_tombstones}
use carryctx.Merge.Loop.{KeySet}
use carryctx.Merge.Aliases.{AgentAlias, plan_agent_aliases, remap_agent_references}
use carryctx.Merge.Aliases.Redirect.{rows_of}
use carryctx.Merge.Projects.{stabilize_projects}
use carryctx.Merge.Unique.Least.{get-In}
use carryctx.Merge.Members.Highest.{rows_in-In}
use carryctx.Merge.Tables.{get-other}
use carryctx.Merge.Dag.{BaseSource}
use carryctx.Merge.Report.{MergeReport, place_by, sort_by}
use carryctx.Merge.Engine.{
  Stage, or_no_tables, rows_in, in_turn, steps, reconcile, members_in, sort_tables, row_lt,
  insert_rows, numbered_in, in_order, patches, add_names, report_of, conclude, counted,
  with_aliases, with_tombstones, after_tables, merge_tables_with_source,
}
use carryctx.Merge.Engine.FailClosed.{
  try_then-ok, all_rows, every_name, IsUnion, found-IsUnion, started,
}
use carryctx.Merge.Engine.Lasting.{
  apart, HasKey, HasKey-same, HasKey-remap, on_table-get, renumbered-get, stabilized-get,
}

In-place_by :
    (lt : Row → Row → Bool) (w r : Row) (rows : List Row)
    → (w ≡ r) ⊎ In w rows
    → In w (place_by lt r rows)
unfolding place_by
In-place_by lt w r [] h = h
In-place_by lt w r (s ∷ rows) h = elim (Bool-cases (lt s r)) [
  | inl later ↦ rw later (elim h [
    | inl here ↦ inr (In-place_by lt w r rows (inl here))
    | inr there ↦ elim there [
      | inl first ↦ inl first
      | inr rest ↦ inr (In-place_by lt w r rows (inr rest))
    ]
  ])
  | inr now ↦ rw now h
]

In-sort_by :
    (lt : Row → Row → Bool) (w : Row) (rows : List Row) → In w rows → In w (sort_by lt rows)
unfolding sort_by
In-sort_by lt w [] m = m
In-sort_by lt w (r ∷ rows) m = elim m [
  | inl here ↦ In-place_by lt w r (sort_by lt rows) (inl here)
  | inr there ↦ In-place_by lt w r (sort_by lt rows) (inr (In-sort_by lt w rows there))
]

module _ (ext : External) (options : MergeOptions) (base : Option TableSet) (ours theirs : TableSet)
    (table : String) (append : is_append_only table ≡ true) where
  abbrev Has : String → TableSet → Type 0
  Has = HasKey ext table append

  Has-sort_tables :
      (k : String) (tables : TableSet)
      → Has k tables
      → Has k (sort_tables ext options base ours theirs tables)
  unfolding sort_tables rows_of
  Has-sort_tables k [] (w, m, key) = absurd m
  Has-sort_tables k ((name, rows) ∷ tables) (w, m, key) = elim (Bool-cases (name == table)) [
    | inl here ↦
        rw here
          (w, In-sort_by (row_lt ext options base ours theirs name) w rows (rw here at m), key)
    | inr there ↦ rw there (Has-sort_tables k tables (w, (rw there at m), key))
  ]

  inserted-get :
      (names : KeySet) (other : String) (rows : List Row) (tables : TableSet)
      → (table == other) ≡ false
      → get table (insert_rows ext options base ours theirs names other rows tables)
        ≡ get table tables
  inserted-get names other rows tables h =
      elim (Bool-cases (is_some (get other names) || not (is_empty rows))) [
        | inl put ↦ rw put (get-other table other rows tables h)
        | inr left ↦ rw left refl
      ]

  -- A step that leaves the table alone.
  abbrev Calm : (Stage → Result MergeError Stage) → Type 0
  Calm step = (stage out : Stage) → step stage ≡ ok out → get table out.0 ≡ get table stage.0

  in_turn-Calm : (fs : List (Stage → Result MergeError Stage)) → All Calm fs → Calm (in_turn fs)
  unfolding in_turn
  in_turn-Calm [] a stage out h =
      let same : stage ≡ out = cc h in ap (λ (x : Stage). get table x.0) (sym same)
  in_turn-Calm (f ∷ fs) (first, a) stage out h =
      let (next, now, later) = try_then-ok (f stage) (in_turn fs) out h in
      in_turn-Calm fs a next out later ∙ first stage next now

  members_in-Calm :
      (aliases : List AgentAlias) → Calm (members_in ext options base ours theirs aliases)
  unfolding is_append_only
  members_in-Calm [] stage out h =
      let same : stage ≡ out = cc h in ap (λ (x : Stage). get table x.0) (sym same)
  members_in-Calm (_ ∷ _) stage out h =
      on_table-get ext table append "team_members" _ refl stage out h

  steps-Calm : (aliases : List AgentAlias) → All Calm (steps ext options base ours theirs aliases)
  unfolding is_append_only
  steps-Calm aliases = (
    members_in-Calm aliases,
    (
      on_table-get ext table append "teams" _ refl,
      (
        on_table-get ext table append "worktrees" _ refl,
        (
          on_table-get ext table append "task_dependencies" _ refl,
          (
            on_table-get ext table append "task_dependencies" _ refl,
            (on_table-get ext table append "scopes" _ refl, tt),
          ),
        ),
      ),
    ),
  )

  conclude-Has :
      (source : Option BaseSource) (names : KeySet) (aliases : List AgentAlias)
      (tombstones : List Row) (stage : Stage) (report : MergeReport) (k : String)
      → conclude ext options base ours theirs source names aliases tombstones stage ≡ ok report
      → Has k stage.0
      → Has k report.result
  unfolding conclude is_append_only
  conclude-Has source names aliases tombstones (tables, notes) report k h has =
      let numbered = (numbered_in ext options base ours theirs tables).0 in
      let live = filter_tombstones ext numbered tombstones in
      let renumbers = (numbered_in ext options base ours theirs tables).1 in
      let result = in_order ext options base ours theirs names tombstones numbered in
      let (patch, _, last) =
        try_then-ok
          (patches ext options base ours theirs result (add_names ours (add_names result [])))
          (λ found.
            ok (report_of ext options base ours theirs source aliases notes renumbers result found))
          report h in
      let same : report_of ext options base ours theirs source aliases notes renumbers result patch
          ≡ report =
        cc last in
      subst (λ (x : MergeReport). Has k x.result) same
        (Has-sort_tables k
          (insert_rows ext options base ours theirs names "tombstones" live numbered)
          (HasKey-same ext table append k tables
            (insert_rows ext options base ours theirs names "tombstones" live numbered)
            (inserted-get names "tombstones" live numbered (apart table "tombstones" append refl)
              ∙ renumbered-get ext table append
                  (stabilize_projects (rows_of "projects" ours) tables)
              ∙ stabilized-get ext table append (rows_of "projects" ours) tables)
            has))

  after_tables-Has :
      (source : Option BaseSource) (names : KeySet) (stage : Stage) (report : MergeReport)
      (k : String)
      → after_tables ext options base ours theirs source names stage ≡ ok report
      → Has k stage.0
      → Has k report.result
  unfolding after_tables reconcile is_append_only
  after_tables-Has source names (tables, notes) report k h has =
      let (tombstones, _, more) =
        try_then-ok
          (merge_tombstones ext (rows_of "tombstones" (or_no_tables base))
            (rows_of "tombstones" ours) (rows_of "tombstones" theirs))
          (with_tombstones ext options base ours theirs source names (tables, notes)) report h in
      let (aliases, _, rest) =
        try_then-ok (plan_agent_aliases ext (rows_of "agents" ours) (rows_of "agents" theirs))
          (with_aliases ext options base ours theirs source names (tables, notes) tombstones) report
          more in
      let with_counters = counted ext options base ours theirs names tables in
      let remapped = remap_agent_references aliases with_counters in
      let (stage, reconciled, last) =
        try_then-ok (in_turn (steps ext options base ours theirs aliases) (remapped, notes))
          (conclude ext options base ours theirs source names aliases (rows_in tombstones)) report
          rest in
      conclude-Has source names aliases (rows_in tombstones) stage report k last (
        HasKey-same ext table append k remapped stage.0
          (in_turn-Calm (steps ext options base ours theirs aliases) (steps-Calm aliases)
            (remapped, notes) stage reconciled)
          (HasKey-remap ext table append k aliases with_counters (
            HasKey-same ext table append k tables with_counters
              (inserted-get names "sequences" _ tables (apart table "sequences" append refl)) has)))

  union-Has :
      (row : Row) (tables : TableSet)
      → In row (all_rows ext options base ours theirs table)
      → IsUnion ext options base ours theirs table (rows_of table tables)
      → (k : String) × (row_key ext table row ≡ ok k) × Has k tables
  unfolding get
  union-Has row tables m (out, united, same) =
      let (k, w, key, there, _, _) =
        get-merge_append_only ext table (rows_of table (or_no_tables base)) (rows_of table ours)
          (rows_of table theirs) out row united m in
      (
        k,
        key,
        (
          w,
          subst (In w) (sym same) (rows_in-In k w out (get-In k w out there)),
          key-merge_append_only ext table (rows_of table (or_no_tables base)) (rows_of table ours)
              (rows_of table theirs) out k w united there,
        ),
      )

-- A merge of two sets of tables that succeeds loses no event, checkpoint or correction: for every row of an
-- append-only table on any side, the result has a row of the same key in that table, although references to folded
-- agents are rewritten.
pub merge_tables_complete :
    (ext : External) (options : MergeOptions) (base : Option TableSet) (ours theirs : TableSet)
    (source : Option BaseSource) (report : MergeReport) (table : String) (row : Row)
    → merge_tables_with_source ext options base ours theirs source ≡ ok report
    → is_append_only table ≡ true
    → In row (all_rows ext options base ours theirs table)
    → (w : Row) × In w (rows_of table report.result) × (row_key ext table w ≡ row_key ext table row)
merge_tables_complete ext options base ours theirs source report table row h append m =
    let (buried, stage, done, later) = started ext options base ours theirs source report h in
    let every = every_name ext options base ours theirs in
    elim (found-IsUnion ext options base ours theirs buried stage table (get table every) done
      append refl) [
        | inl nothing ↦ absurd (subst (In row) nothing m)
        | inr united ↦
            let (k, key, has) =
              union-Has ext options base ours theirs table append row stage.0 m united in
            let (w, there, own) =
              after_tables-Has ext options base ours theirs table append source every stage report k
                later has in
            (w, there, own ∙ sym key)
      ]
