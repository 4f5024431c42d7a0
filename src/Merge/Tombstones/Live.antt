-- ===== src/Merge/Tombstones/Live.antt =====
-- Which tombstones the filter keeps: those that name no row of the result.
use carryctx.Base.{
  String, Bool, true, not, ◌&&◌, Option, none, some, List, [], ◌∷◌, ◌≡◌, ◌≢◌, ◌↔◌, inl, inr, refl,
  ap, subst, arith, In, ◌==◌, eq_iff, any, In-keep, Bool-cases,
}
use carryctx.Merge.{Row, identity_key, External}
use carryctx.Merge.Tombstones.{TableSet, text_of, key_is, is_present, is_dead, filter_tombstones}

module _ {A : Type 0} where
  In-any : (p : A → Bool) (a : A) (xs : List A) → In a xs → p a ≡ true → any p xs ≡ true
  In-any p a [] m h = absurd m
  In-any p a (x ∷ xs) (inl e) h = ground (arith, ap p e)
  In-any p a (x ∷ xs) (inr m) h = ground (arith, In-any p a xs m h)

  any-In : (p : A → Bool) (xs : List A) → any p xs ≡ true → (a : A) × In a xs × (p a ≡ true)
  any-In p [] h = cc h
  any-In p (x ∷ xs) h = elim (Bool-cases (p x)) [
    | inl hit ↦ (x, inl refl, hit)
    | inr miss ↦ let (a, m, e) = any-In p xs (ground (arith, miss, h)) in (a, inr m, e)
  ]

module _ (ext : External) where
  -- The result has a row of a table other than that of the tombstones under the key.
  abbrev pub HasRow : TableSet → String → String → Type 0
  HasRow result table id =
      (table ≢ "tombstones")
      × (rows : List Row) × (row : Row) × In (table, rows) result
      × In row rows
      × (identity_key ext table row ≡ some id)

  key_is_iff : (id : String) (key : Option String) → (key_is ext id key ≡ true) ↔ (key ≡ some id)
  key_is_iff id none = ground arith
  key_is_iff id (some key) = ground (arith, eq_iff key id)

  parts :
      (name table : String) (shown : Bool)
      → (not (name == "tombstones") && name == table && shown) ≡ true
      → (name ≢ "tombstones") × (name ≡ table) × (shown ≡ true)
  parts name table shown h = ground (arith, eq_iff name "tombstones", eq_iff name table)

  is_present-HasRow :
      (result : TableSet) (table id : String)
      → is_present ext result table id ≡ true
      → HasRow result table id
  unfolding is_present
  is_present-HasRow result table id h =
      let ((name, rows), m, both) =
        any-In
          (λ (name, rows).
            not (name == "tombstones")
            && name == table
            && any (λ row. key_is ext id (identity_key ext name row)) rows)
          result h in
      let (apart, here, shown) =
        parts name table (any (λ row. key_is ext id (identity_key ext name row)) rows) both in
      let (row, n, key) = any-In (λ row. key_is ext id (identity_key ext name row)) rows shown in
      subst (λ t. HasRow result t id) here
        (apart, rows, row, m, n, (key_is_iff id (identity_key ext name row)).0 key)

  HasRow-is_present :
      (result : TableSet) (table id : String)
      → HasRow result table id
      → is_present ext result table id ≡ true
  unfolding is_present
  HasRow-is_present result table id (ne, rows, row, m, n, key) =
      In-any
        (λ (name, rows).
          not (name == "tombstones")
          && name == table
          && any (λ row. key_is ext id (identity_key ext name row)) rows)
        (table, rows) result m
        (ground (
          arith,
          eq_iff table "tombstones",
          eq_iff table table,
          In-any (λ r. key_is ext id (identity_key ext table r)) row rows n
              ((key_is_iff id (identity_key ext table row)).1 key),
        ))

  -- A tombstone that names a row of the result.
  abbrev pub NamesRow : TableSet → Row → Type 0
  NamesRow result tombstone =
      (table id : String) × (text_of "table_name" tombstone ≡ some table)
      × (text_of "row_id" tombstone ≡ some id)
      × HasRow result table id

  is_dead_iff :
      (result : TableSet) (tombstone : Row) (table id : Option String)
      → text_of "table_name" tombstone ≡ table
      → text_of "row_id" tombstone ≡ id
      → (is_dead ext result table id ≡ true) ↔ (¬ NamesRow result tombstone)
  unfolding is_dead
  is_dead_iff result tombstone none id e f = (λ d (t, i, g, _, _). cc (e, g), λ n. refl)
  is_dead_iff result tombstone (some table) none e f = (λ d (t, i, _, g, _). cc (f, g), λ n. refl)
  is_dead_iff result tombstone (some table) (some id) e f = (
    λ d (t, i, g, k, has).
        let t' : t ≡ table = cc (e, g) in
        let i' : i ≡ id = cc (f, k) in
        let there =
          HasRow-is_present result table id
            (subst (λ x. HasRow result x id) t' (subst (HasRow result t) i' has)) in
        ground (arith, d, there),
    λ n. elim (Bool-cases (is_present ext result table id)) [
      | inl there ↦ absurd (n (table, id, e, f, is_present-HasRow result table id there))
      | inr not_there ↦ rw not_there refl
    ],
  )

  -- A tombstone stays after the filter exactly when it is one of the given ones and names no row that the result has
  -- in a table other than that of the tombstones; one without the name of a table or of a row stays.
  pub filter_tombstones_iff :
      (result : TableSet) (tombstones : List Row) (tombstone : Row)
      → In tombstone (filter_tombstones ext result tombstones)
        ↔ (In tombstone tombstones × (¬ NamesRow result tombstone))
  unfolding filter_tombstones
  filter_tombstones_iff result tombstones tombstone =
      let dead = λ (r : Row). is_dead ext result (text_of "table_name" r) (text_of "row_id" r) in
      let (to, from) = In-keep dead tombstone tombstones in
      let (gone, stays) =
        is_dead_iff result tombstone (text_of "table_name" tombstone) (text_of "row_id" tombstone)
          refl refl in
      (λ h. let (m, d) = to h in (m, gone d), λ (m, n). from (m, stays n))
