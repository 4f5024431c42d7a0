-- ===== src/Merge/Engine/FailClosed.antt =====
-- A merge of tables that succeeds has found no tampering with what may only be appended.
use carryctx.Base.{
  String, true, false, not, ◌&&◌, ◌==◌, Option, none, some, List, [], ◌∷◌, ◌++◌, ◌≡◌, ◌⊎◌, inl, inr,
  refl, sym, ap, subst, ◌∙◌, arith, eq_iff, Bool-cases, is_some, Result, ok, err,
}
use carryctx.Merge.{Row, get, External, MergeOptions, is_append_only}
use carryctx.Merge.Facts.{get-insert}
use carryctx.Merge.Index.{MergeError, RowIndex}
use carryctx.Merge.AppendOnly.{merge_append_only, Untampered, merge_append_only_iff}
use carryctx.Merge.Tombstones.{TableSet}
use carryctx.Merge.Loop.{KeySet, Merged, TombstoneIndex, tombstone_index, merge_table, united}
use carryctx.Merge.Aliases.Redirect.{rows_of}
use carryctx.Merge.Dag.{BaseSource}
use carryctx.Merge.Report.{try_then, MergeReport}
use carryctx.Merge.Engine.{
  Stage, Buried, joined, add_table, rows_in, is_separate, or_no_tables, add_names, names_of,
  with_base, with_ours, with_theirs, merge_each, after_tables, merge_tables_with_source,
}

pub try_then-ok :
    {A B : Type 0} (r : Result MergeError A) (f : A → Result MergeError B) (b : B)
    → try_then r f ≡ ok b
    → (a : A) × (r ≡ ok a) × (f a ≡ ok b)
try_then-ok (err e) f b h = cc
try_then-ok (ok a) f b h = (a, refl, h)

joined-ok :
    (table : String) (r : Result MergeError Merged) (rest : Result MergeError Stage) (stage : Stage)
    → joined table r rest ≡ ok stage
    → (merged : Merged) × (more : Stage) × (r ≡ ok merged)
      × (rest ≡ ok more)
      × (stage ≡ add_table table merged more)
joined-ok table (err e) rest stage h = cc
joined-ok table (ok merged) (err e) stage h = cc
joined-ok table (ok merged) (ok more) stage h = (merged, more, refl, refl, cc h)

united-ok :
    (ext : External) (options : MergeOptions) (table : String) (r : Result MergeError RowIndex)
    (merged : Merged)
    → united ext options table r ≡ ok merged
    → (out : RowIndex) × (r ≡ ok out) × (merged.0 ≡ out)
united-ok ext options table (err e) merged h = cc
united-ok ext options table (ok out) merged h =
    let same : (out, []) ≡ merged = cc h in (out, refl, ap (λ (x : Merged). x.0) (sym same))

not_separate : (table : String) → is_append_only table ≡ true → is_separate table ≡ false
unfolding is_append_only
not_separate table h = elim (Bool-cases (table == "tombstones")) [
  | inl tombs ↦ cc (h, ap is_append_only ((eq_iff table "tombstones").0 tombs))
  | inr other ↦ elim (Bool-cases (table == "sequences")) [
    | inl counters ↦ cc (h, ap is_append_only ((eq_iff table "sequences").0 counters))
    | inr neither ↦ ground (arith, other, neither)
  ]
]

-- A table that is not among the names has no rows.
names-none :
    (table : String) (tables : TableSet) (names : KeySet)
    → get table (add_names tables names) ≡ none
    → (get table names ≡ none) × (rows_of table tables ≡ [])
unfolding rows_of get
names-none table [] names h = (h, refl)
names-none table ((other, rows) ∷ tables) names h =
    let step = get-insert table other tt (add_names tables names) in
    ground (arith, h, step, names-none table tables names, eq_iff table other, eq_iff other table)

module _ (ext : External) (options : MergeOptions) (base : Option TableSet)
    (ours theirs : TableSet) where
  abbrev pub all_rows : String → List Row
  all_rows table = rows_of table (or_no_tables base) ++ rows_of table ours ++ rows_of table theirs

  abbrev union : String → Result MergeError RowIndex
  union table =
      merge_append_only ext table (rows_of table (or_no_tables base)) (rows_of table ours)
        (rows_of table theirs)

  -- The rows of an append-only table are the union of those of the sides.
  abbrev pub IsUnion : String → List Row → Type 0
  IsUnion table rows = (out : RowIndex) × (union table ≡ ok out) × (rows ≡ rows_in out)

  table-IsUnion :
      (table : String) (b o t : TombstoneIndex) (merged : Merged)
      → is_append_only table ≡ true
      → merge_table ext options table
          (rows_of table (or_no_tables base))
          (rows_of table ours)
          (rows_of table theirs)
          b
          o
          t
        ≡ ok merged
      → IsUnion table (rows_in merged.0)
  unfolding merge_table
  table-IsUnion table b o t merged append h =
      let (out, done, same) = united-ok ext options table (union table) merged (rw append at h) in
      (out, done, ap rows_in same)

  merge_each-IsUnion :
      (buried : Buried) (names : KeySet) (stage : Stage) (table : String)
      → merge_each ext options base ours theirs buried names ≡ ok stage
      → is_append_only table ≡ true
      → get table names ≡ some tt
      → IsUnion table (rows_of table stage.0)
  unfolding merge_each get rows_of
  merge_each-IsUnion buried [] stage table h append m = cc
  merge_each-IsUnion buried ((name, _) ∷ names) stage table h append m =
      elim (Bool-cases (is_separate name)) [
        | inl apart ↦
            let other : (table == name) ≡ false =
              ground (arith, not_separate table append, apart, eq_iff table name, ap is_separate) in
            merge_each-IsUnion buried names stage table (rw apart at h) append (rw other at m)
        | inr merged ↦
            let (out, more, done, rest, same) =
              joined-ok name _ (merge_each ext options base ours theirs buried names) stage
                (rw merged at h) in
            subst (λ (x : Stage). IsUnion table (rows_of table x.0)) (sym same)
              (elim (Bool-cases (name == table)) [
                | inl here ↦
                    let is = (eq_iff name table).0 here in
                    rw here (
                      table-IsUnion table buried.base buried.ours buried.theirs out append (
                        ap
                          (λ x.
                            merge_table ext options x (rows_of x (or_no_tables base))
                              (rows_of x ours) (rows_of x theirs) buried.base buried.ours
                              buried.theirs)
                          (sym is)
                        ∙ done))
                | inr there ↦
                    let differ : (table == name) ≡ false =
                      ground (arith, there, eq_iff name table, eq_iff table name) in
                    rw there
                      (merge_each-IsUnion buried names more table rest append (rw differ at m))
              ])
      ]

  abbrev pub every_name : KeySet
  every_name = names_of ext options base ours theirs

  pub found-IsUnion :
      (buried : Buried) (stage : Stage) (table : String) (found : Option Unit)
      → merge_each ext options base ours theirs buried every_name ≡ ok stage
      → is_append_only table ≡ true
      → get table every_name ≡ found
      → (all_rows table ≡ []) ⊎ IsUnion table (rows_of table stage.0)
  found-IsUnion buried stage table (some tt) h append m =
      inr (merge_each-IsUnion buried every_name stage table h append m)
  found-IsUnion buried stage table none h append m =
      let (no_theirs, none_theirs) =
        names-none table theirs (add_names ours (add_names (or_no_tables base) [])) m in
      let (no_ours, none_ours) =
        names-none table ours (add_names (or_no_tables base) []) no_theirs in
      let (_, none_base) = names-none table (or_no_tables base) [] no_ours in
      inl (rw (none_base, none_ours, none_theirs) refl)

  pub started :
      (source : Option BaseSource) (report : MergeReport)
      → merge_tables_with_source ext options base ours theirs source ≡ ok report
      → (buried : Buried) × (stage : Stage) × (merge_each ext options base ours theirs buried
            every_name
          ≡ ok stage)
        × (after_tables ext options base ours theirs source every_name stage ≡ ok report)
  unfolding merge_tables_with_source
  started source report h = elim (Bool-cases (options.require_base && not (is_some base))) [
    | inl missing ↦ cc (rw missing at h)
    | inr goes ↦
        let (b, _, after_base) =
          try_then-ok (tombstone_index (rows_of "tombstones" (or_no_tables base)))
            (with_base ext options base ours theirs source) report (rw goes at h) in
        let (o, _, after_ours) =
          try_then-ok (tombstone_index (rows_of "tombstones" ours))
            (with_ours ext options base ours theirs source b) report after_base in
        let (t, _, after_theirs) =
          try_then-ok (tombstone_index (rows_of "tombstones" theirs))
            (with_theirs ext options base ours theirs source b o) report after_ours in
        let (stage, done, later) =
          try_then-ok
            (merge_each ext options base ours theirs (record { base = b; ours = o; theirs = t })
              (names_of ext options base ours theirs))
            (after_tables ext options base ours theirs source
              (names_of ext options base ours theirs))
            report after_theirs in
        (record { base = b; ours = o; theirs = t }, stage, done, later)
  ]

  -- A merge of two sets of tables that succeeds has found in every append-only table that each row of each side has a
  -- key, and that rows of one key have the same canonical content: on tampering it fails and there is no report.
  pub merge_tables-Untampered :
      (source : Option BaseSource) (report : MergeReport) (table : String)
      → merge_tables_with_source ext options base ours theirs source ≡ ok report
      → is_append_only table ≡ true
      → Untampered ext table (all_rows table)
  merge_tables-Untampered source report table h append =
      let (buried, stage, done, _) = started source report h in
      elim (found-IsUnion buried stage table (get table every_name) done append refl) [
        | inl nothing ↦ rw nothing (λ row n. absurd n, λ r s id n k i j. absurd n)
        | inr (out, united, _) ↦
            (merge_append_only_iff ext table (rows_of table (or_no_tables base))
                (rows_of table ours) (rows_of table theirs)).0
              (out, united)
      ]
