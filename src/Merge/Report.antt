-- ===== src/Merge/Report.antt =====
-- The report of a merge (merge/plan.rs) and the order that merge/mod.rs puts it in.
use carryctx.Base.{
  String, Bool, true, false, ◌&&◌, ◌||◌, ◌==◌, Option, none, some, List, [], ◌∷◌, if◌then◌else◌,
  text_lt, Result, ok, err,
}
use carryctx.Merge.{Row, Conflict, AutoResolution, row_eq}
use carryctx.Merge.Elect.{Note, conflict, auto}
use carryctx.Merge.Index.{MergeError}
use carryctx.Merge.Tombstones.{TableSet}
use carryctx.Merge.Aliases.{AgentAlias}
use carryctx.Merge.Renumber.{Renumber}
use carryctx.Merge.Writes.{RowWrite}
use carryctx.Merge.Dag.{BaseSource}

-- The `?` of the engine.
abbrev pub try_then :
    {A B : Type 0} → Result MergeError A → (A → Result MergeError B) → Result MergeError B
try_then (err e) next = err e
try_then (ok a) next = next a

-- The final order of what was recorded: a list without repetitions, by table, key and kind.
abbrev pub Named : Type 0
Named = String × String × String

abbrev pub named_lt : Named → Named → Bool
named_lt (t, k, c) (u, l, d) = text_lt t u || t == u && (text_lt k l || k == l && text_lt c d)

abbrev pub of_conflict : Conflict → Named
of_conflict c = (c.table, c.key, c.kind)

abbrev of_auto : AutoResolution → Named
of_auto a = (a.table, a.key, a.kind)

abbrev option_row_eq : Option Row → Option Row → Bool
option_row_eq none none = true
option_row_eq (some a) (some b) = row_eq a b
option_row_eq _ _ = false

abbrev pub conflict_eq : Conflict → Conflict → Bool
conflict_eq a b =
    a.kind == b.kind
    && a.table == b.table
    && a.key == b.key
    && option_row_eq a.base b.base
    && option_row_eq a.ours b.ours
    && option_row_eq a.theirs b.theirs

abbrev pub auto_eq : AutoResolution → AutoResolution → Bool
auto_eq a b = a.table == b.table && a.key == b.key && a.kind == b.kind && a.winner == b.winner

-- `sort_by`, which is stable.
unfoldable pub place_by : {A : Type 0} → (A → A → Bool) → A → List A → List A
place_by lt a [] = a ∷ []
place_by lt a (b ∷ xs) = let rest = place_by lt a xs in if lt b a then b ∷ rest else a ∷ b ∷ xs

unfoldable pub sort_by : {A : Type 0} → (A → A → Bool) → List A → List A
unfolding place_by
sort_by lt [] = []
sort_by lt (a ∷ xs) = place_by lt a (sort_by lt xs)

-- `dedup` of equal neighbours.
abbrev drop_same : {A : Type 0} → (A → A → Bool) → A → List A → List A
drop_same eq a [] = a ∷ []
drop_same eq a (b ∷ xs) = if eq a b then a ∷ xs else a ∷ b ∷ xs

unfoldable pub dedup : {A : Type 0} → (A → A → Bool) → List A → List A
dedup eq [] = []
dedup eq (a ∷ xs) = drop_same eq a (dedup eq xs)

abbrev pub conflicts_of : List Note → List Conflict
conflicts_of [] = []
conflicts_of (conflict c ∷ notes) = c ∷ conflicts_of notes
conflicts_of (auto a ∷ notes) = conflicts_of notes

abbrev pub autos_of : List Note → List AutoResolution
autos_of [] = []
autos_of (conflict c ∷ notes) = autos_of notes
autos_of (auto a ∷ notes) = a ∷ autos_of notes

abbrev pub auto_lt : AutoResolution → AutoResolution → Bool
auto_lt a b =
    named_lt (of_auto a) (of_auto b)
    || a.table == b.table && a.key == b.key && a.kind == b.kind && text_lt a.winner b.winner

-- The report without its warnings; the writes and the deletes stand under their tables.
pub record MergeReport : Type 0 where
  pub result : TableSet
  pub writes : List (String × List (String × RowWrite))
  pub deletes : List (String × List String)
  pub renumbers : List Renumber
  pub aliases : List AgentAlias
  pub auto_resolutions : List AutoResolution
  pub conflicts : List Conflict
  pub base_source : BaseSource
  pub degraded : Bool
