-- ===== src/Merge/AppendOnly.antt =====
-- `merge_append_only` of merge/mod.rs: events, checkpoints and their corrections are united by id, and
-- content that differs under one id stops the merge.
use carryctx.Base.{
  String, some, List, [], ◌∷◌, ◌++◌, ◌≡◌, ◌↔◌, ◌⊎◌, inl, inr, refl, sym, ap, ◌∙◌, arith, ◌==◌,
  eq_iff, Bool-cases, Option-cases, Text-cases, In, Result, ok, err, not, if◌then◌else◌,
}
use carryctx.Merge.{Row, get, insert, External}
use carryctx.Merge.Facts.{get-insert}
use carryctx.Merge.Elect.{canonical_frame}
use carryctx.Merge.Index.{
  MergeError, tampered, RowIndex, replace, place, add_keyed, gather, row_key,
}
use carryctx.Merge.Index.Kept.{gather-cons, gather-Gathered}

module _ (ext : External) (table : String) where
  unfoldable pub agree : String → Row → Row → Result MergeError Row
  unfolding canonical_frame
  agree id existing row =
      if not (canonical_frame ext table existing == canonical_frame ext table row)
      then err (tampered table id)
      else ok existing

  -- The rows of the base, if there is one, of ours and of theirs.
  unfoldable pub merge_append_only : List Row → List Row → List Row → Result MergeError RowIndex
  unfolding gather row_key agree
  merge_append_only base ours theirs = gather (row_key ext table) agree [] (base ++ ours ++ theirs)

  abbrev pub SameContent : Row → Row → Type 0
  SameContent a b = canonical_frame ext table a ≡ canonical_frame ext table b

  agree_stands :
      (id : String) (a b w : Row)
      → agree id a b ≡ ok w
      → ((w ≡ a) ⊎ (w ≡ b)) × SameContent w a × SameContent w b
  unfolding agree
  agree_stands id a b w h =
      elim (Bool-cases (canonical_frame ext table a == canonical_frame ext table b)) [
        | inl same ↦
            let kept : w ≡ a = ground (arith, same, h) in
            (
              inl kept,
              ap (canonical_frame ext table) kept,
              ap (canonical_frame ext table) kept
                  ∙ (eq_iff (canonical_frame ext table a) (canonical_frame ext table b)).0 same,
            )
        | inr differ ↦ cc (rw differ at h)
      ]

  -- A merge of append-only rows that succeeds has every row of every side under its key, with the same
  -- canonical content, as a row that some side has.
  pub get-merge_append_only :
      (base ours theirs : List Row) (out : RowIndex) (row : Row)
      → merge_append_only base ours theirs ≡ ok out
      → In row (base ++ ours ++ theirs)
      → (id : String) × (w : Row) × (row_key ext table row ≡ ok id)
        × (get id out ≡ some w)
        × SameContent w row
        × In w (base ++ ours ++ theirs)
  unfolding merge_append_only get
  get-merge_append_only base ours theirs out row h m =
      let (_, rows, from, _) =
        gather-Gathered (row_key ext table) agree SameContent (λ a. refl) (λ a b c p q. p ∙ q)
          agree_stands [] (base ++ ours ++ theirs) out h in
      let (id, w, key, there, same) = rows row m in
      (id, w, key, there, same, ground (arith, from id w there))

  -- A row of the union stands under its own key.
  pub key-merge_append_only :
      (base ours theirs : List Row) (out : RowIndex) (id : String) (w : Row)
      → merge_append_only base ours theirs ≡ ok out
      → get id out ≡ some w
      → row_key ext table w ≡ ok id
  unfolding merge_append_only get
  key-merge_append_only base ours theirs out id w h there =
      let (_, _, from, _) =
        gather-Gathered (row_key ext table) agree SameContent (λ a. refl) (λ a b c p q. p ∙ q)
          agree_stands [] (base ++ ours ++ theirs) out h in
      ground (arith, from id w there)

  -- Every row has a key, and rows of one key have one content.
  abbrev pub Untampered : List Row → Type 0
  Untampered rows =
      ((row : Row) → In row rows → (id : String) × (row_key ext table row ≡ ok id))
      × ((r s : Row) (id : String)
          → In r rows
          → In s rows
          → row_key ext table r ≡ ok id
          → row_key ext table s ≡ ok id
          → SameContent r s)

  -- Every row agrees with the entry of its key.
  abbrev Agrees : RowIndex → List Row → Type 0
  Agrees index rows =
      (row e : Row) (id : String)
      → In row rows
      → row_key ext table row ≡ ok id
      → get id index ≡ some e
      → SameContent e row

  add_agreeing :
      (index : RowIndex) (row : Row) (id : String)
      → row_key ext table row ≡ ok id
      → ((e : Row) → get id index ≡ some e → SameContent e row)
      → (w : Row) × SameContent w row
        × (add_keyed (row_key ext table) agree index row (row_key ext table row)
            ≡ ok (insert id w index))
  unfolding add_keyed place replace agree
  add_agreeing index row id known same = elim (Option-cases (get id index)) [
    | inl fresh ↦ (row, refl, ground (arith, known, fresh))
    | inr (e, found) ↦ (
      e,
      same e found,
      ground (
        arith,
        known,
        found,
        same e found,
        eq_iff (canonical_frame ext table e) (canonical_frame ext table row),
      ),
    )
  ]

  Agrees-insert :
      (index : RowIndex) (row w : Row) (rows : List Row) (id : String)
      → row_key ext table row ≡ ok id
      → SameContent w row
      → Untampered (row ∷ rows)
      → Agrees index (row ∷ rows)
      → Agrees (insert id w index) rows
  Agrees-insert index row w rows id known same (_, pairs) agrees r e k m key found =
      elim (Text-cases k id) [
        | inl here ↦
            let value : e ≡ w = ground (arith, found, get-insert k id w index, eq_iff k id, here) in
            ap (canonical_frame ext table) value
            ∙ (same ∙ pairs row r id (inl refl) (inr m) known (key ∙ ap ok here))
        | inr there ↦
            agrees r e k (inr m) key
              (ground (arith, found, get-insert k id w index, eq_iff k id, there))
      ]

  gather-Untampered :
      (index : RowIndex) (rows : List Row)
      → Untampered rows
      → Agrees index rows
      → (out : RowIndex) × (gather (row_key ext table) agree index rows ≡ ok out)
  unfolding gather
  gather-Untampered index [] u a = (index, refl)
  gather-Untampered index (row ∷ rows) u a =
      let (id, known) = u.0 row (inl refl) in
      let (w, same, step) =
        add_agreeing index row id known (λ e found. a row e id (inl refl) known found) in
      let (out, rest) =
        gather-Untampered (insert id w index) rows
          (λ r m. u.0 r (inr m), λ r s k m n. u.1 r s k (inr m) (inr n))
          (Agrees-insert index row w rows id known same u a) in
      (out, gather-cons (row_key ext table) agree index (insert id w index) row rows step ∙ rest)

  -- The merge of append-only rows succeeds exactly when every row of every side has a key and rows of
  -- one key have the same canonical content.
  pub merge_append_only_iff :
      (base ours theirs : List Row)
      → ((out : RowIndex) × (merge_append_only base ours theirs ≡ ok out))
        ↔ Untampered (base ++ ours ++ theirs)
  unfolding merge_append_only get
  merge_append_only_iff base ours theirs = (
    λ (out, h). (
      λ row m.
          let (id, _, key, _, _, _) = get-merge_append_only base ours theirs out row h m in
          (id, key),
      λ r s id m n k l.
          let (i, v, key_r, there_r, same_r, _) =
            get-merge_append_only base ours theirs out r h m in
          let (j, w, key_s, there_s, same_s, _) =
            get-merge_append_only base ours theirs out s h n in
          let one : v ≡ w = ground (arith, key_r, k, key_s, l, there_r, there_s) in
          sym same_r ∙ (ap (canonical_frame ext table) one ∙ same_s),
    ),
    λ u. gather-Untampered [] (base ++ ours ++ theirs) u (λ row e id m k found. cc),
  )
