-- ===== src/Merge/Index/Minimal.antt =====
-- `index_rows` keeps the canonical minimum of the rows of each key.
use carryctx.Base.{
  String, false, some, List, [], ◌≡◌, ◌⊎◌, inl, inr, refl, arith, Bool-cases, In, ok, text_lt,
  text_lt_irrefl, text_asym, not_before_trans,
}
use carryctx.Merge.{Row, get, External}
use carryctx.Merge.Elect.{canonical_frame}
use carryctx.Merge.Maps.{IsSorted}
use carryctx.Merge.Index.{RowIndex, row_key, minimal, index_rows}
use carryctx.Merge.Index.Kept.{Gathered, gather-Gathered}

module _ (ext : External) (table : String) where
  -- The canonical content of `b` does not come before that of `a`.
  abbrev pub NoSmaller : Row → Row → Type 0
  NoSmaller a b = text_lt (canonical_frame ext table b) (canonical_frame ext table a) ≡ false

  minimal_stands :
      (key : String) (a b w : Row)
      → minimal ext table key a b ≡ ok w
      → ((w ≡ a) ⊎ (w ≡ b)) × NoSmaller w a × NoSmaller w b
  unfolding minimal
  minimal_stands key a b w h =
      let c = canonical_frame ext table in
      elim (Bool-cases (text_lt (c b) (c a))) [
        | inl before ↦
            let kept : w ≡ b = ground (arith, before, h) in
            rw kept (inr refl, text_asym (c a) (c b) before, text_lt_irrefl (c b))
        | inr after ↦
            let kept : w ≡ a = ground (arith, after, h) in
            rw kept (inl refl, text_lt_irrefl (c a), after)
      ]

  index_rows-Gathered :
      (rows : List Row) (out : RowIndex)
      → index_rows ext table rows ≡ ok out
      → Gathered
          (row_key ext table)
          (minimal ext table)
          NoSmaller
          (λ a. text_lt_irrefl (canonical_frame ext table a))
          (λ a b c.
            not_before_trans
              (canonical_frame ext table a)
              (canonical_frame ext table b)
              (canonical_frame ext table c))
          minimal_stands
          []
          rows
          out
  unfolding index_rows
  index_rows-Gathered rows out h =
      gather-Gathered (row_key ext table) (minimal ext table) NoSmaller
        (λ a. text_lt_irrefl (canonical_frame ext table a))
        (λ a b c.
          not_before_trans (canonical_frame ext table a) (canonical_frame ext table b)
            (canonical_frame ext table c))
        minimal_stands [] rows out h

  pub index_rows-IsSorted :
      (rows : List Row) (out : RowIndex) → index_rows ext table rows ≡ ok out → IsSorted out
  index_rows-IsSorted rows out h = let (_, _, _, sort) = index_rows-Gathered rows out h in sort tt

  -- Indexing rows, where it succeeds, has under the key of every row one of the rows with that key, which has no
  -- greater canonical content than the row.
  pub index_rows-minimal :
      (rows : List Row) (out : RowIndex) (row : Row)
      → index_rows ext table rows ≡ ok out
      → In row rows
      → (key : String) × (w : Row) × (row_key ext table row ≡ ok key)
        × (get key out ≡ some w)
        × (text_lt (canonical_frame ext table row) (canonical_frame ext table w) ≡ false)
        × In w rows
        × (row_key ext table w ≡ ok key)
  unfolding get
  index_rows-minimal rows out row h m =
      let (_, all, from, _) = index_rows-Gathered rows out h in
      let (key, w, k, there, stands) = all row m in
      (
        key,
        w,
        k,
        there,
        stands,
        (ground (arith, from key w there)),
        ground (arith, from key w there),
      )
