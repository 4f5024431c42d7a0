-- ===== src/Merge/Unique/Groups.antt =====
-- The group of a unique value has the keys of the rows of that value.
use carryctx.Base.{
  String, false, [], ◌∷◌, ◌++◌, ◌≡◌, ◌⊎◌, inl, inr, ◌↔◌, sym, ap, ◌∙◌, subst, arith, ◌==◌, eq_iff,
  Bool-cases, In, In-append,
}
use carryctx.Merge.{Row, get, insert}
use carryctx.Merge.Facts.{get-insert}
use carryctx.Merge.Maps.{IsSorted, insert-IsSorted}
use carryctx.Merge.Unique.{Keyed, Groups, or_no_keys, group}

pub group-IsSorted :
    (value : Row → String) (groups : Groups) (rows : Keyed)
    → IsSorted groups
    → IsSorted (group value groups rows)
unfolding group
group-IsSorted value groups [] s = s
group-IsSorted value groups ((key, row) ∷ rows) s =
    group-IsSorted value
      (insert (value row) (or_no_keys (get (value row) groups) ++ key ∷ []) groups) rows
      (insert-IsSorted (value row) (or_no_keys (get (value row) groups) ++ key ∷ []) groups s)

-- A row with that key and that value.
abbrev pub HasRow : (Row → String) → Keyed → String → String → Type 0
HasRow value rows v k = (row : Row) × In (k, row) rows × (value row ≡ v)

clash : (v w : String) → (v == w) ≡ false → w ≡ v → ⊥
clash v w d e = ground (arith, d, e, eq_iff v w)

-- One key more in the group of a value.
In-grown :
    (v w k key : String) (groups : Groups)
    → In k (or_no_keys (get v (insert w (or_no_keys (get w groups) ++ key ∷ []) groups)))
      ↔ (In k (or_no_keys (get v groups)) ⊎ ((k ≡ key) × (w ≡ v)))
In-grown v w k key groups =
    let entry = get-insert v w (or_no_keys (get w groups) ++ key ∷ []) groups in
    elim (Bool-cases (v == w)) [
      | inl same ↦
          let e = (eq_iff v w).0 same in
          let now : or_no_keys (get v (insert w (or_no_keys (get w groups) ++ key ∷ []) groups))
              ≡ or_no_keys (get v groups) ++ key ∷ [] =
            ground (arith, entry, same, ap (λ x. get x groups) e) in
          let (split, join) = In-append k (or_no_keys (get v groups)) (key ∷ []) in
          (
            λ m. elim (split (subst (In k) now m)) [
              | inl old ↦ inl old
              | inr new ↦ elim new [ inl here ↦ inr (here, sym e) | inr n ↦ absurd n ]
            ],
            λ h.
                subst (In k) (sym now)
                  (join (elim h [ inl old ↦ inl old | inr (here, _) ↦ inr (inl here) ])),
          )
      | inr differ ↦
          let now : or_no_keys (get v (insert w (or_no_keys (get w groups) ++ key ∷ []) groups))
              ≡ or_no_keys (get v groups) =
            ground (arith, entry, differ) in
          (
            λ m. inl (subst (In k) now m),
            λ h. elim h [
              | inl old ↦ subst (In k) (sym now) old
              | inr (_, same) ↦ absurd (clash v w differ same)
            ],
          )
    ]

-- The members of the group of a value after the loop.
pub In-group :
    (value : Row → String) (groups : Groups) (rows : Keyed) (v k : String)
    → In k (or_no_keys (get v (group value groups rows)))
      ↔ (In k (or_no_keys (get v groups)) ⊎ HasRow value rows v k)
unfolding group
In-group value groups [] v k = (λ h. inl h, λ h. elim h [ inl m ↦ m | inr (row, m, e) ↦ absurd m ])
In-group value groups ((key, row) ∷ rows) v k =
    let next = insert (value row) (or_no_keys (get (value row) groups) ++ key ∷ []) groups in
    let (to, from) = In-group value next rows v k in
    let (shrink, grow) = In-grown v (value row) k key groups in
    (
      λ h. elim (to h) [
        | inl m ↦ elim (shrink m) [
          | inl old ↦ inl old
          | inr (here, same) ↦ inr (row, inl (ap (λ x. (x, row)) here), same)
        ]
        | inr (r, m, w) ↦ inr (r, inr m, w)
      ],
      λ h. elim h [
        | inl old ↦ from (inl (grow (inl old)))
        | inr (r, m, w) ↦ elim m [
          | inl here ↦ from (
              inl (
                grow (
                  inr (
                    ap (λ (x : String × Row). x.0) here,
                    ap value (sym (ap (λ (x : String × Row). x.1) here)) ∙ w,
                  ))))
          | inr later ↦ from (inr (r, later, w))
        ]
      ],
    )
