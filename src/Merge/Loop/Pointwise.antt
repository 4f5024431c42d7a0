-- ===== src/Merge/Loop/Pointwise.antt =====
-- The loop over the keys of a table, key by key.
use carryctx.Base.{
  String, false, ◌==◌, none, some, [], ◌∷◌, ◌≡◌, ◌⊎◌, inl, inr, ◌↔◌, refl, sym, ap, ◌∙◌, arith,
  eq_iff, Bool-cases, Option-cases, In,
}
use carryctx.Merge.{get, External, MergeOptions}
use carryctx.Merge.Facts.{get-insert}
use carryctx.Merge.Maps.{IsSorted, Above, insert-IsSorted, get-Above}
use carryctx.Merge.Elect.{Note}
use carryctx.Merge.Table.{merge_key}
use carryctx.Merge.Index.{RowIndex}
use carryctx.Merge.Loop.{
  TombstoneIndex, is_deleted, KeySet, add_keys, add_deleted, Sides, keys_of, record_outcome,
  merge_at, merge_keys, merge_sides,
}

add_keys-IsSorted :
    (index : RowIndex) (keys : KeySet) → IsSorted keys → IsSorted (add_keys index keys)
add_keys-IsSorted [] keys s = s
add_keys-IsSorted ((k, _) ∷ index) keys s =
    insert-IsSorted k tt (add_keys index keys) (add_keys-IsSorted index keys s)

add_deleted-IsSorted :
    (table : String) (index : TombstoneIndex) (keys : KeySet)
    → IsSorted keys
    → IsSorted (add_deleted table index keys)
add_deleted-IsSorted table [] keys s = s
add_deleted-IsSorted table ((t, k) ∷ index) keys s =
    let rest = add_deleted-IsSorted table index keys s in
    elim (Bool-cases (t == table)) [
      | inl here ↦ rw here (insert-IsSorted k tt (add_deleted table index keys) rest)
      | inr other ↦ rw other rest
    ]

keys_of-IsSorted : (table : String) (s : Sides) → IsSorted (keys_of table s)
unfolding keys_of
keys_of-IsSorted table s = add_deleted-IsSorted table s.their_tombstones _ (
    add_deleted-IsSorted table s.our_tombstones _ (
      add_deleted-IsSorted table s.base_tombstones _ (
        add_keys-IsSorted s.theirs _
          (add_keys-IsSorted s.ours _ (add_keys-IsSorted s.base [] tt)))))

-- A key that the set lacks is in none of the indexes, and was not in the set before.
get-add_keys :
    (index : RowIndex) (keys : KeySet) (k : String)
    → get k (add_keys index keys) ≡ none
    → (get k index ≡ none) × (get k keys ≡ none)
unfolding get
get-add_keys [] keys k h = (refl, h)
get-add_keys ((d, v) ∷ index) keys k h =
    ground (arith, get-insert k d tt (add_keys index keys), get-add_keys index keys k, h)

get-add_deleted :
    (table : String) (index : TombstoneIndex) (keys : KeySet) (k : String)
    → get k (add_deleted table index keys) ≡ none
    → (is_deleted index table k ≡ false) × (get k keys ≡ none)
unfolding get
get-add_deleted table [] keys k h = (refl, h)
get-add_deleted table ((t, d) ∷ index) keys k h = ground (
  arith,
  get-insert k d tt (add_deleted table index keys),
  get-add_deleted table index keys k,
  h,
  eq_iff d k,
  eq_iff k d,
)

merge_key_unnamed :
    (ext : External) (options : MergeOptions) (table k : String)
    → merge_key ext options table k none none none false false ≡ (none, none)
unfolding merge_key
merge_key_unnamed ext options table k = refl

module _ (ext : External) (options : MergeOptions) (table : String) (s : Sides) where
  -- A key outside the set merges to nothing.
  merge_at_outside :
      (k : String) → get k (keys_of table s) ≡ none → merge_at ext options table s k ≡ (none, none)
  unfolding keys_of merge_at
  merge_at_outside k h =
      let (a, h1) = get-add_deleted table s.their_tombstones _ k h in
      let (b, h2) = get-add_deleted table s.our_tombstones _ k h1 in
      let (_, h3) = get-add_deleted table s.base_tombstones _ k h2 in
      let (c, h4) = get-add_keys s.theirs _ k h3 in
      let (d, h5) = get-add_keys s.ours _ k h4 in
      let (e, _) = get-add_keys s.base [] k h5 in
      rw (a, b, c, d, e) (merge_key_unnamed ext options table k)

  abbrev rows : KeySet → RowIndex
  rows keys = (merge_keys ext options table s keys).0

  -- A row of the loop stands at a key of the set.
  merge_keys-Above : (c : String) (keys : KeySet) → Above c keys → Above c (rows keys)
  unfolding merge_keys record_outcome
  merge_keys-Above c [] a = tt
  merge_keys-Above c ((k, _) ∷ keys) (h, a) =
      let rest = merge_keys-Above c keys a in
      elim (Option-cases (merge_at ext options table s k).0) [
        | inl gone ↦ rw gone rest
        | inr (row, there) ↦ rw there (h, rest)
      ]

  get-merge_keys :
      (keys : KeySet) (k : String)
      → IsSorted keys
      → get k (rows keys)
        ≡ elim (get k keys) [ none ↦ none | some _ ↦ (merge_at ext options table s k).0 ]
  unfolding merge_keys record_outcome get
  get-merge_keys [] k _ = refl
  get-merge_keys ((d, _) ∷ keys) k (above, sorted) = elim (Bool-cases (k == d)) [
    | inl same ↦ elim (Option-cases (merge_at ext options table s d).0) [
      | inl gone ↦
          let e = (eq_iff k d).0 same in
          rw gone (
            ground (
              arith,
              same,
              ap (λ x. get x (rows keys)) e,
              get-Above d (rows keys) (merge_keys-Above d keys above),
              ap (λ x. (merge_at ext options table s x).0) e,
              gone,
            ))
      | inr (row, there) ↦
          ground
            (arith, there, same, ap (λ x. (merge_at ext options table s x).0) ((eq_iff k d).0 same))
    ]
    | inr differ ↦ elim (Option-cases (merge_at ext options table s d).0) [
      | inl gone ↦ ground (arith, gone, differ, get-merge_keys keys k sorted)
      | inr (row, there) ↦ ground (arith, there, differ, get-merge_keys keys k sorted)
    ]
  ]

  In-merge_keys :
      (keys : KeySet) (n : Note)
      → In n (merge_keys ext options table s keys).1
      → (k : String) × ((merge_at ext options table s k).1 ≡ some n)
  unfolding merge_keys record_outcome
  In-merge_keys [] n m = absurd m
  In-merge_keys ((d, _) ∷ keys) n m = elim (Option-cases (merge_at ext options table s d).1) [
    | inl quiet ↦ In-merge_keys keys n (rw quiet at m)
    | inr (x, noted) ↦
        let found : (n ≡ x) ⊎ In n (merge_keys ext options table s keys).1 = rw noted at m in
        elim found [ inl e ↦ (d, noted ∙ ap some (sym e)) | inr later ↦ In-merge_keys keys n later ]
  ]

  merge_keys-In :
      (keys : KeySet) (k : String) (u : Unit {0}) (n : Note)
      → get k keys ≡ some u
      → (merge_at ext options table s k).1 ≡ some n
      → In n (merge_keys ext options table s keys).1
  unfolding merge_keys record_outcome get
  merge_keys-In [] k u n h e = cc
  merge_keys-In ((d, v) ∷ keys) k u n h e = elim (Bool-cases (k == d)) [
    | inl same ↦
        rw (sym (ap (λ x. (merge_at ext options table s x).1) ((eq_iff k d).0 same)) ∙ e) (inl refl)
    | inr differ ↦
        let rest = merge_keys-In keys k u n (rw differ at h) e in
        elim (Option-cases (merge_at ext options table s d).1) [
          | inl quiet ↦ rw quiet rest
          | inr (x, noted) ↦ rw noted (inr rest)
        ]
  ]

  -- The merged rows of a table have under every key what the merge of that key gives, which is nothing for
  -- a key that no side and no tombstone names, and the notes are those of the merges of the keys.
  pub get-merge_sides :
      ((k : String)
        → get k (merge_sides ext options table s).0 ≡ (merge_at ext options table s k).0)
      × ((n : Note)
          → In n (merge_sides ext options table s).1
            ↔ ((k : String) × ((merge_at ext options table s k).1 ≡ some n)))
  unfolding merge_sides
  get-merge_sides = (
    λ k.
        let found = get-merge_keys (keys_of table s) k (keys_of-IsSorted table s) in
        elim (Option-cases (get k (keys_of table s))) [
          | inl none_there ↦ ground (arith, found, none_there, merge_at_outside k none_there)
          | inr (u, there) ↦ ground (arith, found, there)
        ],
    λ n. (
      In-merge_keys (keys_of table s) n,
      λ (k, e). elim (Option-cases (get k (keys_of table s))) [
        | inl none_there ↦ cc (e, merge_at_outside k none_there)
        | inr (u, there) ↦ merge_keys-In (keys_of table s) k u n there e
      ],
    ),
  )
