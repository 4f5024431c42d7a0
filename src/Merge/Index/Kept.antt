-- ===== src/Merge/Index/Kept.antt =====
-- What a loop over rows leaves in its map: for every key one of the rows of that key, which stands for
-- all of them in every sense that the choice between two rows respects.
use carryctx.Base.{
  String, none, some, List, [], ◌∷◌, ◌≡◌, ◌⊎◌, inl, inr, refl, sym, ap, ◌∙◌, subst, arith, eq_iff,
  Option-cases, Text-cases, In, Result, ok, err,
}
use carryctx.Merge.{Row, get, insert}
use carryctx.Merge.Facts.{get-insert}
use carryctx.Merge.Maps.{IsSorted, insert-IsSorted}
use carryctx.Merge.Index.{MergeError, RowIndex, replace, place, add_keyed, gather}

some-inj : {a b : Row} → some a ≡ some b → a ≡ b
some-inj e = cc

ok-inj : {a b : RowIndex} → Path (Result MergeError RowIndex) (ok a) (ok b) → a ≡ b
ok-inj e = cc

get-insert_self : (k : String) (w : Row) (index : RowIndex) → get k (insert k w index) ≡ some w
get-insert_self k w index = ground (arith, get-insert k k w index, eq_iff k k)

pub gather-cons :
    (key_of : Row → Result MergeError String) (pick : String → Row → Row → Result MergeError Row)
    (index next : RowIndex) (row : Row) (rows : List Row)
    → add_keyed key_of pick index row (key_of row) ≡ ok next
    → gather key_of pick index (row ∷ rows) ≡ gather key_of pick next rows
unfolding gather
gather-cons key_of pick index next row rows same = rw (gather, same) refl

-- The loop goes through when no choice is an error.
module _ (key_of : Row → String) (choose : String → Row → Row → Row) where
  add_total :
      (index : RowIndex) (row : Row)
      → (next : RowIndex) × (add_keyed
            (λ row. ok (key_of row))
            (λ k a b. ok (choose k a b))
            index
            row
            (ok (key_of row))
          ≡ ok next)
  unfolding add_keyed place replace
  add_total index row = elim (Option-cases (get (key_of row) index)) [
    | inl fresh ↦ (insert (key_of row) row index, ground (arith, fresh))
    | inr (e, found) ↦
        (insert (key_of row) (choose (key_of row) e row) index, ground (arith, found))
  ]

  pub gather_total :
      (index : RowIndex) (rows : List Row)
      → (out : RowIndex) × (gather (λ row. ok (key_of row)) (λ k a b. ok (choose k a b)) index rows
          ≡ ok out)
  unfolding gather
  gather_total index [] = (index, refl)
  gather_total index (row ∷ rows) =
      let (next, step) = add_total index row in
      let (out, rest) = gather_total next rows in
      (
        out,
        gather-cons (λ row. ok (key_of row)) (λ k a b. ok (choose k a b)) index next row rows step
            ∙ rest,
      )

module _ (key_of : Row → Result MergeError String)
    (pick : String → Row → Row → Result MergeError Row) (Stands : Row → Row → Type 0)
    (stands_refl : (a : Row) → Stands a a)
    (stands_trans : (a b c : Row) → Stands a b → Stands b c → Stands a c)
    (pick_stands : (key : String) (a b w : Row)
      → pick key a b ≡ ok w
      → ((w ≡ a) ⊎ (w ≡ b)) × Stands w a × Stands w b) where
  -- A step puts a row under the key of the row it reads: that row, or the choice between it and the
  -- one that was there.
  abbrev Added : RowIndex → Row → RowIndex → Type 0
  Added index row next =
      (k : String) × (w : Row) × (key_of row ≡ ok k)
      × (next ≡ insert k w index)
      × Stands w row
      × (((get k index ≡ none) × (w ≡ row))
          ⊎ ((e : Row) × (get k index ≡ some e) × Stands w e × ((w ≡ e) ⊎ (w ≡ row))))

  replace-Added :
      (index next : RowIndex) (row e : Row) (k : String) (r : Result MergeError Row)
      → key_of row ≡ ok k
      → get k index ≡ some e
      → pick k e row ≡ r
      → replace key_of pick index k r ≡ ok next
      → Added index row next
  unfolding replace
  replace-Added index next row e k (err x) known found same h = cc
  replace-Added index next row e k (ok w) known found same h =
      let (which, old, new) = pick_stands k e row w same in
      (k, w, known, ground arith, new, inr (e, found, old, which))

  add_keyed-Added :
      (index next : RowIndex) (row : Row) (r : Result MergeError String)
      → key_of row ≡ r
      → add_keyed key_of pick index row r ≡ ok next
      → Added index row next
  unfolding add_keyed place
  add_keyed-Added index next row (err x) known h = cc
  add_keyed-Added index next row (ok k) known h = elim (Option-cases (get k index)) [
    | inl fresh ↦ (k, row, known, ground (arith, fresh, h), stands_refl row, inl (fresh, refl))
    | inr (e, found) ↦
        replace-Added index next row e k (pick k e row) known found refl (ground (arith, found, h))
  ]

  -- What an entry of `index` is after one more row.
  entry-Added :
      (index next : RowIndex) (row e : Row) (k : String)
      → Added index row next
      → get k index ≡ some e
      → (w : Row) × (get k next ≡ some w) × Stands w e
  entry-Added index next row e k (d, w, known, same, new, how) h = elim (Text-cases k d) [
    | inl here ↦ elim how [
      | inl (fresh, _) ↦ cc (here, fresh, h)
      | inr (e', found, old, _) ↦ (
        w,
        rw (same, here) (get-insert_self d w index),
        subst (Stands w) (some-inj (sym found ∙ ap (λ x. get x index) (sym here) ∙ h)) old,
      )
    ]
    | inr there ↦
        (e, ground (arith, ap (get k) same, get-insert k d w index, eq_iff k d, h), stands_refl e)
  ]

  origin-Added :
      (index next : RowIndex) (row w : Row) (k : String)
      → Added index row next
      → get k next ≡ some w
      → (get k index ≡ some w) ⊎ ((w ≡ row) × (key_of row ≡ ok k))
  origin-Added index next row w k (d, v, known, same, new, how) h = elim (Text-cases k d) [
    | inl here ↦
        let value : v ≡ w =
          ground (arith, ap (get k) same, get-insert k d v index, eq_iff k d, h) in
        elim how [
          | inl (fresh, e) ↦ inr (sym value ∙ e, known ∙ ap ok (sym here))
          | inr (e', found, old, which) ↦ elim which [
            | inl e ↦ inl (ap (λ x. get x index) here ∙ found ∙ ap some (sym e ∙ value))
            | inr e ↦ inr (sym value ∙ e, known ∙ ap ok (sym here))
          ]
        ]
    | inr there ↦ inl (ground (arith, ap (get k) same, get-insert k d v index, eq_iff k d, h))
  ]

  -- The end of the loop: every entry of the start is stood for, and so is every row of the list.
  abbrev pub Gathered : RowIndex → List Row → RowIndex → Type 0
  Gathered index rows out =
      ((k : String) (e : Row)
        → get k index ≡ some e
        → (w : Row) × (get k out ≡ some w) × Stands w e)
      × ((row : Row)
          → In row rows
          → (k : String) × (w : Row) × (key_of row ≡ ok k) × (get k out ≡ some w) × Stands w row)
      × ((k : String) (w : Row)
          → get k out ≡ some w
          → (get k index ≡ some w) ⊎ (In w rows × (key_of w ≡ ok k)))
      × (IsSorted index → IsSorted out)

  Gathered-nil : (index : RowIndex) → Gathered index [] index
  Gathered-nil index =
      (λ k e h. (e, h, stands_refl e), λ row m. absurd m, λ k w h. inl h, λ sorted. sorted)

  Gathered-cons :
      (index next out : RowIndex) (row : Row) (rows : List Row)
      → Added index row next
      → Gathered next rows out
      → Gathered index (row ∷ rows) out
  Gathered-cons index next out row rows a (old, new, from, sort) =
      let (d, v, known, same, stands, _) = a in
      (
        λ k e h.
            let (w, there, s) = entry-Added index next row e k a h in
            let (x, final, t) = old k w there in (x, final, stands_trans x w e t s),
        λ r m. elim m [
          | inl here ↦
              let (x, final, t) = old d v (ap (get d) same ∙ get-insert_self d v index) in
              (
                d,
                x,
                ap key_of here ∙ known,
                final,
                subst (Stands x) (sym here) (stands_trans x v row t stands),
              )
          | inr later ↦ new r later
        ],
        λ k w h. elim (from k w h) [
          | inl before ↦ elim (origin-Added index next row w k a before) [
            | inl old_one ↦ inl old_one
            | inr (e, key) ↦ inr (inl e, ap key_of e ∙ key)
          ]
          | inr (m, key) ↦ inr (inr m, key)
        ],
        λ sorted. sort (subst IsSorted (sym same) (insert-IsSorted d v index sorted)),
      )

  gather_step :
      (index out : RowIndex) (row : Row) (rows : List Row) (r : Result MergeError RowIndex)
      → add_keyed key_of pick index row (key_of row) ≡ r
      → gather key_of pick index (row ∷ rows) ≡ ok out
      → (next : RowIndex) × Added index row next × (gather key_of pick next rows ≡ ok out)
  unfolding gather
  gather_step index out row rows (err e) same h = cc
  gather_step index out row rows (ok next) same h =
      (next, add_keyed-Added index next row (key_of row) refl same, (rw (gather, same) at h))

  pub gather-Gathered :
      (index : RowIndex) (rows : List Row) (out : RowIndex)
      → gather key_of pick index rows ≡ ok out
      → Gathered index rows out
  unfolding gather
  gather-Gathered index [] out h = subst (Gathered index []) (ok-inj h) (Gathered-nil index)
  gather-Gathered index (row ∷ rows) out h =
      let (next, a, k) =
        gather_step index out row rows (add_keyed key_of pick index row (key_of row)) refl h in
      Gathered-cons index next out row rows a (gather-Gathered next rows out k)
