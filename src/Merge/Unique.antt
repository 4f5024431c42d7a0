-- ===== src/Merge/Unique.antt =====
-- `resolve_unique_collisions` of merge/mod.rs: rows with different ids that claim one unique value.
pub mod Groups
pub mod Least
use carryctx.Base.{
  String, Bool, true, false, Option, none, some, List, [], ◌∷◌, ◌++◌, map, keep, find, contains,
  if◌then◌else◌, text_lt, is_some, Result, ok, err,
}
use carryctx.Cleanup.{concat}
use carryctx.Merge.{Row, get, insert, External, Conflict}
use carryctx.Merge.Index.{MergeError, RowIndex, index_rows, row_key}
use carryctx.Merge.Tombstones.{text_of}
use carryctx.Merge.Sequences.{or_empty}

-- `sort` of texts
unfoldable pub place_text : String → List String → List String
place_text a [] = a ∷ []
place_text a (b ∷ xs) = let rest = place_text a xs in if text_lt b a then b ∷ rest else a ∷ b ∷ xs

unfoldable pub sort_texts : List String → List String
unfolding place_text
sort_texts [] = []
sort_texts (a ∷ xs) = place_text a (sort_texts xs)

-- `join`
unfoldable pub join : String → List String → String
unfolding concat
join separator [] = ""
join separator (a ∷ []) = a
join separator (a ∷ b ∷ xs) = concat a (concat separator (join separator (b ∷ xs)))

-- The unique value of a row.
unfoldable pub unique_value : List String → Row → String
unfolding join text_of
unique_value columns row = join "\u{1}" (map (λ column. or_empty (text_of column row)) columns)

-- A row beside its identity key.
abbrev pub Keyed : Type 0
Keyed = List (String × Row)

abbrev and_rest : Row → Result MergeError String → Result MergeError Keyed → Result MergeError Keyed
and_rest row (err e) rest = err e
and_rest row (ok key) (err e) = err e
and_rest row (ok key) (ok rest) = ok ((key, row) ∷ rest)

unfoldable pub keyed : External → String → List Row → Result MergeError Keyed
unfolding row_key
keyed ext table [] = ok []
keyed ext table (row ∷ rows) = and_rest row (row_key ext table row) (keyed ext table rows)

abbrev pub or_no_keys : Option (List String) → List String
or_no_keys none = []
or_no_keys (some keys) = keys

-- The keys of each unique value, by rising value.
abbrev pub Groups : Type 0
Groups = List (String × List String)

unfoldable pub group : (Row → String) → Groups → Keyed → Groups
unfolding get insert
group value groups [] = groups
group value groups ((key, row) ∷ rows) =
    group value (insert (value row) (or_no_keys (get (value row) groups) ++ key ∷ []) groups) rows

abbrev pub first_only : List String → List String
first_only [] = []
first_only (a ∷ _) = a ∷ []

-- The keys of a group that stay.
unfoldable pub survivors : List String → List String
unfolding sort_texts
survivors [] = []
survivors (a ∷ []) = a ∷ []
survivors (a ∷ b ∷ keys) = first_only (sort_texts (a ∷ b ∷ keys))

unfoldable pub kept_keys : Groups → List String
unfolding survivors
kept_keys [] = []
kept_keys ((value, keys) ∷ groups) = survivors keys ++ kept_keys groups

-- The row of the first key, in order, that the side has.
abbrev first_row : Keyed → RowIndex → List String → Option Row
first_row rows side keys = elim (find (λ key. is_some (get key side)) keys) [
  | none ↦ none
  | some key ↦ get key rows
]

unfoldable pub collision :
    String → List String → Keyed → RowIndex → RowIndex → String → List String → List Conflict
unfolding sort_texts join concat get
collision table columns rows ours theirs value [] = []
collision table columns rows ours theirs value (a ∷ []) = []
collision table columns rows ours theirs value (a ∷ b ∷ keys) =
    record {
      kind = "unique_key";
      table = table;
      key = concat (join "," columns) (concat "|" value);
      base = none;
      ours = first_row rows ours (sort_texts (a ∷ b ∷ keys));
      theirs = first_row rows theirs (sort_texts (a ∷ b ∷ keys));
    }
    ∷ []

unfoldable pub collisions :
    String → List String → Keyed → RowIndex → RowIndex → Groups → List Conflict
unfolding collision
collisions table columns rows ours theirs [] = []
collisions table columns rows ours theirs ((value, keys) ∷ groups) =
    collision table columns rows ours theirs value keys
    ++ collisions table columns rows ours theirs groups

-- The rows that stay, and the conflicts.
unfoldable pub resolve_keyed :
    String → List String → RowIndex → RowIndex → Keyed → Keyed × List Conflict
unfolding kept_keys group unique_value collisions
resolve_keyed table columns ours theirs rows =
    let groups = group (unique_value columns) [] rows in
    (
      keep (λ (key, _). contains (kept_keys groups) key) rows,
      collisions table columns rows ours theirs groups,
    )

abbrev with_indexes :
    String
    → List String
    → Result MergeError RowIndex
    → Result MergeError RowIndex
    → Result MergeError Keyed
    → Result MergeError (Keyed × List Conflict)
with_indexes table columns (ok ours) (ok theirs) (ok rows) =
    ok (resolve_keyed table columns ours theirs rows)
with_indexes table columns (err e) _ _ = err e
with_indexes table columns (ok _) (err e) _ = err e
with_indexes table columns (ok _) (ok _) (err e) = err e

-- The columns are sorted first. A table that the result lacks is left so.
unfoldable pub resolve_unique_collisions :
    External
    → String
    → List String
    → List Row
    → List Row
    → Option (List Row)
    → Result MergeError (Keyed × List Conflict)
unfolding resolve_keyed index_rows keyed sort_texts
resolve_unique_collisions ext table columns ours theirs none = ok ([], [])
resolve_unique_collisions ext table columns ours theirs (some rows) =
    with_indexes table (sort_texts columns) (index_rows ext table ours)
      (index_rows ext table theirs) (keyed ext table rows)
