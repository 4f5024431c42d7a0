-- ===== src/Merge/Tables.antt =====
-- Sets of tables: what a change of one table leaves of the others.
use carryctx.Base.{
  String, false, Option, none, some, List, [], ◌∷◌, ◌≡◌, refl, sym, ap, ◌∙◌, arith, ◌==◌, eq_iff,
}
use carryctx.Merge.{Row, get, insert}
use carryctx.Merge.Facts.{get-insert}
use carryctx.Merge.Tombstones.{TableSet}
use carryctx.Merge.Aliases.{update_rows}
use carryctx.Merge.Aliases.Redirect.{rows_of}

-- `unwrap_or_default` of the rows of a table
abbrev pub or_no_rows : Option (List Row) → List Row
or_no_rows none = []
or_no_rows (some rows) = rows

pub rows_of-get :
    (table : String) (result : TableSet) → rows_of table result ≡ or_no_rows (get table result)
unfolding rows_of get
rows_of-get table [] = refl
rows_of-get table ((name, rows) ∷ result) =
    ground (arith, rows_of-get table result, eq_iff name table, eq_iff table name)

pub rows_of-same :
    (table : String) (a b : TableSet)
    → get table a ≡ get table b
    → rows_of table a ≡ rows_of table b
rows_of-same table a b h = rows_of-get table a ∙ ap or_no_rows h ∙ sym (rows_of-get table b)

pub get-other :
    (table other : String) (rows : List Row) (result : TableSet)
    → (table == other) ≡ false
    → get table (insert other rows result) ≡ get table result
get-other table other rows result h = ground (arith, h, get-insert table other rows result)

pub get-update_rows :
    (table other : String) (f : List Row → List Row) (result : TableSet)
    → (table == other) ≡ false
    → get table (update_rows other f result) ≡ get table result
unfolding get
get-update_rows table other f [] h = refl
get-update_rows table other f ((name, rows) ∷ result) h = ground (
  arith,
  h,
  get-update_rows table other f result h,
  eq_iff table name,
  eq_iff name other,
  eq_iff table other,
)
