-- ===== src/Merge/Unique/Least.antt =====
-- Of the rows that claim one unique value the one with the least id stays.
use carryctx.Base.{
  In-keep, String, false, Option, none, some, List, [], ◌∷◌, ◌≡◌, inl, inr, ◌↔◌, refl, sym, ap, ◌∙◌,
  subst, arith, ◌==◌, eq_iff, Bool-cases, In, In-append, contains, contains_iff, text_lt,
  text_lt_irrefl, text_lt-either, text_asym, not_before_trans, Text-cases,
}
use carryctx.Merge.{Row, get}
use carryctx.Merge.Index.{RowIndex}
use carryctx.Merge.Aliases.Stable.{In-get}
use carryctx.Merge.Unique.{
  place_text, sort_texts, Keyed, Groups, or_no_keys, group, survivors, kept_keys, unique_value,
  resolve_keyed,
}
use carryctx.Merge.Unique.Groups.{group-IsSorted, In-group}

-- No text of the list comes before `h`.
abbrev NoneBefore : String → List String → Type 0
NoneBefore h xs = (x : String) → In x xs → text_lt x h ≡ false

-- The head of the sorted list.
sort_texts_head :
    (a : String) (xs : List String)
    → (h : String) × (t : List String) × (sort_texts (a ∷ xs) ≡ h ∷ t)
      × In h (a ∷ xs)
      × NoneBefore h (a ∷ xs)
unfolding sort_texts place_text
sort_texts_head a [] = (
  a,
  [],
  refl,
  inl refl,
  λ x m. elim m [
    | inl e ↦ subst (λ y. text_lt y a ≡ false) (sym e) (text_lt_irrefl a)
    | inr n ↦ absurd n
  ],
)
sort_texts_head a (b ∷ xs) =
    let (h, t, same, m, least) = sort_texts_head b xs in
    elim (Bool-cases (text_lt h a)) [
      | inl before ↦ (
        h,
        place_text a t,
        rw (same, before) refl,
        inr m,
        λ x k. elim k [
          | inl e ↦ subst (λ y. text_lt y h ≡ false) (sym e) (text_asym a h before)
          | inr later ↦ least x later
        ],
      )
      | inr after ↦ (
        a,
        h ∷ t,
        rw (same, after) refl,
        inl refl,
        λ x k. elim k [
          | inl e ↦ subst (λ y. text_lt y a ≡ false) (sym e) (text_lt_irrefl a)
          | inr later ↦ not_before_trans a h x after (least x later)
        ],
      )
    ]

-- The least text of the keys of a group stays, and no other.
survivors_iff :
    (keys : List String) (k : String) → In k (survivors keys) ↔ (In k keys × NoneBefore k keys)
unfolding survivors
survivors_iff [] k = (λ h. absurd h, λ h. absurd h.0)
survivors_iff (a ∷ []) k = (
  λ h. (
    h,
    λ x m. elim h [
      | inl e ↦ elim m [ inl f ↦ rw (e, f) (text_lt_irrefl a) | inr n ↦ absurd n ]
      | inr n ↦ absurd n
    ],
  ),
  λ h. h.0,
)
survivors_iff (a ∷ b ∷ keys) k =
    let (h, t, same, m, least) = sort_texts_head a (b ∷ keys) in
    rw same (
      λ e. elim e [
        | inl is ↦
            subst (λ x. In x (a ∷ b ∷ keys) × NoneBefore x (a ∷ b ∷ keys)) (sym is) (m, least)
        | inr n ↦ absurd n
      ],
      λ (here, first). elim (Text-cases k h) [
        | inl is ↦ inl is
        | inr differ ↦ absurd (ground (arith, first h m, least k here, text_lt-either k h differ))
      ],
    )

pub get-In :
    {A : Type 0} (v : String) (a : A) (m : List (String × A)) → get v m ≡ some a → In (v, a) m
unfolding get
get-In v a [] h = cc
get-In v a ((w, b) ∷ m) h = elim (Bool-cases (v == w)) [
  | inl same ↦ let is : b ≡ a = ground (arith, same, h) in inl (rw ((eq_iff v w).0 same, is) refl)
  | inr differ ↦ inr (get-In v a m (rw differ at h))
]

In-kept_keys :
    (groups : Groups) (k : String)
    → In k (kept_keys groups)
      ↔ ((v : String) × (keys : List String) × In (v, keys) groups × In k (survivors keys))
unfolding kept_keys
In-kept_keys [] k = (λ h. absurd h, λ (v, keys, m, h). absurd m)
In-kept_keys ((w, ks) ∷ groups) k =
    let (split, join) = In-append k (survivors ks) (kept_keys groups) in
    let (to, from) = In-kept_keys groups k in
    (
      λ h. elim (split h) [
        | inl here ↦ (w, ks, inl refl, here)
        | inr later ↦ let (v, keys, m, n) = to later in (v, keys, inr m, n)
      ],
      λ (v, keys, m, n). elim m [
        | inl here ↦ join (inl (subst (λ (x : String × List String). In k (survivors x.1)) here n))
        | inr later ↦ join (inr (from (v, keys, later, n)))
      ],
    )

-- Rows of one id are one row.
abbrev pub IdOnce : Keyed → Type 0
IdOnce rows = (k : String) (r q : Row) → In (k, r) rows → In (k, q) rows → r ≡ q

or_no_keys-some :
    (found : Option (List String)) (keys : List String)
    → found ≡ some keys
    → or_no_keys found ≡ keys
or_no_keys-some none keys h = cc
or_no_keys-some (some a) keys h = ground (arith, h)

some_of_member :
    (found : Option (List String)) (k : String)
    → In k (or_no_keys found)
    → (keys : List String) × (found ≡ some keys)
some_of_member none k m = absurd m
some_of_member (some keys) k m = (keys, refl)

-- No row of the value of this one has an id before `k`.
abbrev pub IsLeast : (Row → String) → Keyed → String → Row → Type 0
IsLeast value rows k row =
    (j : String) (q : Row) → In (j, q) rows → value q ≡ value row → text_lt j k ≡ false

module _ (value : Row → String) (rows : Keyed) (once : IdOnce rows) (k : String) (row : Row)
    (here : In (k, row) rows) where
  kept-IsLeast : In k (kept_keys (group value [] rows)) → IsLeast value rows k row
  unfolding get
  kept-IsLeast m =
      let groups = group value [] rows in
      let (v, keys, entry, stays) = (In-kept_keys groups k).0 m in
      let found = In-get v keys groups (group-IsSorted value [] rows tt) entry in
      let is = or_no_keys-some (get v groups) keys found in
      let (member, least) = (survivors_iff keys k).0 stays in
      λ j q other same. elim ((In-group value [] rows v k).0 (subst (In k) (sym is) member)) [
        | inl n ↦ absurd n
        | inr (r, there, w) ↦
            let own : value row ≡ v = ap value (once k row r here there) ∙ w in
            least j (subst (In j) is ((In-group value [] rows v j).1 (inr (q, other, same ∙ own))))
      ]

  IsLeast-kept : IsLeast value rows k row → In k (kept_keys (group value [] rows))
  unfolding get
  IsLeast-kept least =
      let groups = group value [] rows in
      let v = value row in
      let member = (In-group value [] rows v k).1 (inr (row, here, refl)) in
      let (keys, found) = some_of_member (get v groups) k member in
      let is = or_no_keys-some (get v groups) keys found in
      (In-kept_keys groups k).1 (
        v,
        keys,
        get-In v keys groups found,
        (survivors_iff keys k).1 (
          subst (In k) is member,
          λ j m. elim ((In-group value [] rows v j).0 (subst (In j) (sym is) m)) [
            | inl n ↦ absurd n
            | inr (q, there, w) ↦ least j q there w
          ],
        ),
      )

-- Where the ids of the rows are distinct, a row stays after the collisions of a unique value are resolved exactly
-- when it is one of the rows and no row with its value has an id before its own.
pub resolve_keyed_iff :
    (table : String) (columns : List String) (ours theirs : RowIndex) (rows : Keyed)
    → IdOnce rows
    → (k : String) (row : Row)
    → In (k, row) (resolve_keyed table columns ours theirs rows).0
      ↔ (In (k, row) rows × IsLeast (unique_value columns) rows k row)
unfolding resolve_keyed
resolve_keyed_iff table columns ours theirs rows once k row =
    let value = unique_value columns in
    let kept = kept_keys (group value [] rows) in
    let (to, from) = In-keep (λ (key, _). contains kept key) (k, row) rows in
    (
      λ h.
          let (m, b) = to h in
          (m, kept-IsLeast value rows once k row m ((contains_iff kept k).0 b)),
      λ (m, least). from (m, (contains_iff kept k).1 (IsLeast-kept value rows once k row m least)),
    )
