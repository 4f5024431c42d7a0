-- ===== src/Merge/Writes/Patch.antt =====
-- The writes and deletes are a patch from our rows to the merged ones.
use carryctx.Base.{
  String, Bool, true, false, not, Option, none, some, List, [], ◌∷◌, ◌≡◌, ◌&&◌, inl, inr, refl, sym,
  ap, ◌∙◌, arith, eq_iff, Bool-cases, Option-cases, Text-cases, is_some, contains, Result, ok, err,
}
use carryctx.Merge.{Row, get, frame, row_eq, External}
use carryctx.Merge.Frame.{row_eq_iff}
use carryctx.Merge.Maps.{Above, IsSorted, get-Above}
use carryctx.Merge.Index.{MergeError, RowIndex, index_rows}
use carryctx.Merge.Index.Minimal.{index_rows-IsSorted}
use carryctx.Merge.Writes.{
  RowWrite, write_for, writes_of, deletes_of, patch_between, compute_writes_deletes,
}

-- A map after a patch: a key that is written has the row of the write, a key that is deleted has none,
-- and any other key has what it had.
abbrev written : Option RowWrite → Bool → Option Row → Option Row
written (some w) deleted old = some w.row
written none true old = none
written none false old = old

unfoldable pub patched : List (String × RowWrite) → List String → RowIndex → String → Option Row
unfolding get
patched writes deletes ours key = written (get key writes) (contains deletes key) (get key ours)

-- The content of a row that may be missing.
abbrev pub content : String → Option Row → Option Row
content table none = none
content table (some row) = some (frame table row)

module _ (table : String) where
  -- What a merged row asks for, next to the row of ours.
  abbrev write_of : Option Row → Option Row → Option RowWrite
  write_of none old = none
  write_of (some row) old = write_for table row old

  Above-writes :
      (ours result : RowIndex) (c : String) → Above c result → Above c (writes_of table ours result)
  unfolding writes_of
  Above-writes ours [] c a = tt
  Above-writes ours ((key, row) ∷ result) c (before, a) =
      elim (Option-cases (write_for table row (get key ours))) [
        | inl e ↦ rw e (Above-writes ours result c a)
        | inr (w, e) ↦ rw e (before, Above-writes ours result c a)
      ]

  -- The write of a key is what its merged row asks for.
  get-writes_of :
      (ours result : RowIndex) (key : String)
      → IsSorted result
      → get key (writes_of table ours result) ≡ write_of (get key result) (get key ours)
  unfolding writes_of get
  get-writes_of ours [] key s = refl
  get-writes_of ours ((k, row) ∷ result) key (above, s) = elim (Text-cases key k) [
    | inl same ↦ rw same (elim (Option-cases (write_for table row (get k ours))) [
      | inl e ↦ ground (
        arith,
        e,
        eq_iff k k,
        get-Above k (writes_of table ours result) (Above-writes ours result k above),
      )
      | inr (w, e) ↦ ground (arith, e, eq_iff k k)
    ])
    | inr differ ↦ elim (Option-cases (write_for table row (get k ours))) [
      | inl e ↦ ground (arith, e, eq_iff key k, get-writes_of ours result key s)
      | inr (w, e) ↦ ground (arith, e, eq_iff key k, get-writes_of ours result key s)
    ]
  ]

  contains-deletes_of :
      (ours result : RowIndex) (key : String)
      → contains (deletes_of table ours result) key
        ≡ (is_some (get key ours) && not (is_some (get key result)))
  unfolding deletes_of get
  contains-deletes_of [] result key = refl
  contains-deletes_of ((k, row) ∷ ours) result key = elim (Text-cases key k) [
    | inl same ↦ rw same (ground (arith, eq_iff k k, contains-deletes_of ours result k))
    | inr differ ↦ ground (
      arith,
      eq_iff key k,
      eq_iff k key,
      (λ (e : k ≡ key). differ (sym e)),
      contains-deletes_of ours result key,
    )
  ]

  content-written :
      (old merged : Option Row)
      → content table (written (write_of merged old) (is_some old && not (is_some merged)) old)
        ≡ content table merged
  unfolding write_for
  content-written none none = refl
  content-written (some a) none = refl
  content-written none (some b) = refl
  content-written (some a) (some b) = elim (Bool-cases (row_eq (frame table a) (frame table b))) [
    | inl e ↦ rw e (ap some ((row_eq_iff (frame table a) (frame table b)).0 e))
    | inr n ↦ rw n refl
  ]

  content-written_rows :
      (ours result : RowIndex) (key : String)
      → IsSorted result
      → content table
          (patched (writes_of table ours result) (deletes_of table ours result) ours key)
        ≡ content table (get key result)
  unfolding patched get
  content-written_rows ours result key s =
      rw (get-writes_of ours result key s, contains-deletes_of ours result key)
        (content-written (get key ours) (get key result))

  write_of-same :
      (old merged : Option Row)
      → content table old ≡ content table merged
      → write_of merged old ≡ none
  unfolding write_for
  write_of-same none none e = refl
  write_of-same (some a) none e = refl
  write_of-same none (some b) e = cc
  write_of-same (some a) (some b) e =
      ground (arith, (row_eq_iff (frame table a) (frame table b)).1 (cc e))

  writes_of-unchanged :
      (ours result : RowIndex) (key : String)
      → IsSorted result
      → content table (get key ours) ≡ content table (get key result)
      → get key (writes_of table ours result) ≡ none
  writes_of-unchanged ours result key s e =
      get-writes_of ours result key s ∙ write_of-same (get key ours) (get key result) e

module _ (ext : External) (table : String) where
  patch_parts :
      (o r : Result MergeError RowIndex) (writes : List (String × RowWrite)) (deletes : List String)
      → patch_between ext table o r ≡ ok (writes, deletes)
      → (our_index index : RowIndex) × (o ≡ ok our_index)
        × (r ≡ ok index)
        × (writes ≡ writes_of table our_index index)
        × (deletes ≡ deletes_of table our_index index)
  unfolding patch_between
  patch_parts (err e) r writes deletes h = cc
  patch_parts (ok o) (err e) writes deletes h = cc
  patch_parts (ok o) (ok r) writes deletes h = (o, r, refl, refl, cc h, cc h)

  -- The writes and the deletes that are computed for our rows and the merged rows take every key of our
  -- rows to the content that the merged rows have for it, where a key that is neither written nor
  -- deleted keeps what it had, and no key is written whose content ours has already.
  pub content-patched :
      (ours result : List Row) (writes : List (String × RowWrite)) (deletes : List String)
      (key : String)
      → compute_writes_deletes ext table ours result ≡ ok (writes, deletes)
      → (our_index index : RowIndex) × (index_rows ext table ours ≡ ok our_index)
        × (index_rows ext table result ≡ ok index)
        × (content table (patched writes deletes our_index key) ≡ content table (get key index))
        × (¬ (
            (content table (get key our_index) ≡ content table (get key index))
            × (is_some (get key writes) ≡ true)))
  unfolding compute_writes_deletes
  content-patched ours result writes deletes key h =
      let (o, r, e, f, w, d) =
        patch_parts (index_rows ext table ours) (index_rows ext table result) writes deletes h in
      let s = index_rows-IsSorted ext table result r f in
      (
        o,
        r,
        e,
        f,
        rw (w, d) (content-written_rows table o r key s),
        λ (same, write). cc (w, write, writes_of-unchanged table o r key s same),
      )
