-- ===== src/Merge/Members/Highest.antt =====
-- The membership that is kept is the one of the highest rank, and there is one for each key.
use carryctx.Base.{
  String, Bool, true, false, none, some, List, [], ◌∷◌, map, ◌≡◌, ◌≢◌, ◌⊎◌, inl, inr, refl, sym, ap,
  ◌∙◌, subst, arith, eq_iff, Bool-cases, In, Result, ok, err, text_lt, text_lt_irrefl, text_asym,
  text_lt-either, not_before_trans, Text-cases, ◌||◌, ◌&&◌, ◌==◌,
}
use carryctx.Merge.{Row, get, External, AutoResolution}
use carryctx.Merge.Maps.{Above, IsSorted}
use carryctx.Merge.Aliases.Stable.{In-get}
use carryctx.Merge.Unique.Least.{get-In}
use carryctx.Merge.Index.{RowIndex, MergeError, row_key}
use carryctx.Merge.Index.Kept.{Gathered, gather-Gathered}
use carryctx.Merge.Members.{
  Rank, rank_lt, member_rank, higher_member, members, reconciled,
  reconcile_team_members_after_remap,
}

rank_lt_irrefl : (a : Rank) → rank_lt a a ≡ false
unfolding rank_lt
rank_lt_irrefl (none, f, k) = ground (arith, text_lt_irrefl f, text_lt_irrefl k)
rank_lt_irrefl (some t, f, k) = ground (arith, text_lt_irrefl f, text_lt_irrefl k)

rank_lt_asym : (a b : Rank) → rank_lt a b ≡ true → rank_lt b a ≡ false
unfolding rank_lt
rank_lt_asym (none, f, k) (none, g, l) h =
    ground (arith, text_asym f g, text_asym k l, eq_iff f g, eq_iff g f, text_lt_irrefl f)
rank_lt_asym (none, f, k) (some u, g, l) h = refl
rank_lt_asym (some t, f, k) (none, g, l) h = cc
rank_lt_asym (some t, f, k) (some u, g, l) h =
    ground (arith, text_asym f g, text_asym k l, eq_iff f g, eq_iff g f, text_lt_irrefl f)

abbrev pair_before : String → String → String → String → Bool
pair_before f k g l = text_lt f g || f == g && text_lt k l

not_after_trans :
    (f k g l h m : String)
    → pair_before f k g l ≡ false
    → pair_before g l h m ≡ false
    → pair_before f k h m ≡ false
not_after_trans f k g l h m p q = elim (Text-cases f g) [
  | inl here ↦ elim (Text-cases g h) [
    | inl there ↦ ground (
      arith,
      p,
      q,
      here,
      there,
      eq_iff f g,
      eq_iff g h,
      eq_iff f h,
      not_before_trans m l k,
      text_lt_irrefl f,
    )
    | inr apart ↦ ground (
      arith,
      p,
      q,
      here,
      text_lt-either g h apart,
      eq_iff f h,
      eq_iff f g,
      not_before_trans h g f,
    )
  ]
  | inr apart ↦
      ground (arith, p, q, text_lt-either f g apart, not_before_trans h g f, eq_iff f h, eq_iff g h)
]

-- `a` does not come after `b`, nor `b` after `c`.
not_above_trans : (a b c : Rank) → rank_lt a b ≡ false → rank_lt b c ≡ false → rank_lt a c ≡ false
unfolding rank_lt
not_above_trans (none, f, k) (none, g, l) (none, h, m) p q = not_after_trans f k g l h m p q
not_above_trans (none, f, k) (none, g, l) (some v, h, m) p q = cc
not_above_trans (none, f, k) (some u, g, l) c p q = cc
not_above_trans (some t, f, k) b (none, h, m) p q = refl
not_above_trans (some t, f, k) (none, g, l) (some v, h, m) p q = cc
not_above_trans (some t, f, k) (some u, g, l) (some v, h, m) p q =
    ground (arith, p, q, not_after_trans f k g l h m)

module _ (ext : External) where
  -- The row `b` does not outrank `a`.
  abbrev NotAbove : Row → Row → Type 0
  NotAbove a b = rank_lt (member_rank ext a) (member_rank ext b) ≡ false

  higher_stands :
      (key : String) (a b w : Row)
      → higher_member ext key a b ≡ ok w
      → ((w ≡ a) ⊎ (w ≡ b)) × NotAbove w a × NotAbove w b
  unfolding higher_member
  higher_stands key a b w h = elim (Bool-cases (rank_lt (member_rank ext a) (member_rank ext b))) [
    | inl above ↦
        let kept : w ≡ b = ground (arith, above, h) in
        rw kept (
          inr refl,
          rank_lt_asym (member_rank ext a) (member_rank ext b) above,
          rank_lt_irrefl (member_rank ext b),
        )
    | inr stays ↦
        let kept : w ≡ a = ground (arith, stays, h) in
        rw kept (inl refl, rank_lt_irrefl (member_rank ext a), stays)
  ]

  module _ (rows : List Row) (out : RowIndex) (done : members ext rows ≡ ok out) where
    members-Gathered :
        Gathered
          (row_key ext "team_members")
          (higher_member ext)
          NotAbove
          (λ a. rank_lt_irrefl (member_rank ext a))
          (λ a b c. not_above_trans (member_rank ext a) (member_rank ext b) (member_rank ext c))
          higher_stands
          []
          rows
          out
    unfolding members
    members-Gathered =
        gather-Gathered (row_key ext "team_members") (higher_member ext) NotAbove
          (λ a. rank_lt_irrefl (member_rank ext a))
          (λ a b c. not_above_trans (member_rank ext a) (member_rank ext b) (member_rank ext c))
          higher_stands [] rows out done

    kept_above :
        (row : Row)
        → In row rows
        → (key : String) × (w : Row) × (row_key ext "team_members" row ≡ ok key)
          × (get key out ≡ some w)
          × NotAbove w row
          × In w rows
          × (row_key ext "team_members" w ≡ ok key)
    unfolding get
    kept_above row m =
        let (_, all, from, _) = members-Gathered in
        let (key, w, k, there, stands) = all row m in
        let (side, own) = no_start key w (from key w there) in (key, w, k, there, stands, side, own)
      where
        no_start :
            (key : String) (w : Row)
            → (get key [] ≡ some w) ⊎ (In w rows × (row_key ext "team_members" w ≡ ok key))
            → In w rows × (row_key ext "team_members" w ≡ ok key)
        no_start key w (inl start) = cc start
        no_start key w (inr h) = h

    won :
        (key : String) (w : Row)
        → In (key, w) out
        → In w rows × (row_key ext "team_members" w ≡ ok key)
    unfolding get
    won key w m =
        let (_, _, from, sort) = members-Gathered in
        elim (from key w (In-get key w out (sort tt) m)) [ inl start ↦ cc start | inr own ↦ own ]

    winners-IsSorted : IsSorted out
    winners-IsSorted = let (_, _, _, sort) = members-Gathered in sort tt

Above-In :
    (c k : String) (w : Row) (out : RowIndex) → Above c out → In (k, w) out → text_lt c k ≡ true
Above-In c k w [] above m = absurd m
Above-In c k w ((j, v) ∷ out) (first, above) m = elim m [
  | inl here ↦ ap (λ (x : String × Row). text_lt c x.0) here ∙ first
  | inr later ↦ Above-In c k w out above later
]

abbrev pub rows_in : RowIndex → List Row
rows_in out = map (λ (_, row). row) out

In-rows_in : (out : RowIndex) (w : Row) → In w (rows_in out) → (k : String) × In (k, w) out
In-rows_in [] w m = absurd m
In-rows_in ((k, v) ∷ out) w m = elim m [
  | inl here ↦ (k, inl (ap (λ (x : Row). (k, x)) here))
  | inr later ↦ let (j, n) = In-rows_in out w later in (j, inr n)
]

pub rows_in-In : (k : String) (w : Row) (out : RowIndex) → In (k, w) out → In w (rows_in out)
rows_in-In k w [] m = absurd m
rows_in-In k w ((j, v) ∷ out) m = elim m [
  | inl here ↦ inl (ap (λ (x : String × Row). x.1) here)
  | inr later ↦ inr (rows_in-In k w out later)
]

module _ (ext : External) where
  -- No two places of the list have rows of one key.
  abbrev pub OneEach : List Row → Type 0
  OneEach [] = Unit
  OneEach (w ∷ kept) =
      ((v : Row) → In v kept → row_key ext "team_members" w ≢ row_key ext "team_members" v)
      × OneEach kept

  sorted-OneEach :
      (out : RowIndex)
      → IsSorted out
      → ((k : String) (w : Row) → In (k, w) out → row_key ext "team_members" w ≡ ok k)
      → OneEach (rows_in out)
  sorted-OneEach [] sort own = tt
  sorted-OneEach ((k, w) ∷ out) (above, sort) own = (
    λ v m same.
        let (j, n) = In-rows_in out v m in
        ground (
          arith,
          same,
          own k w (inl refl),
          own j v (inr n),
          Above-In k j v out above n,
          text_lt_irrefl k,
        ),
    sorted-OneEach out sort (λ j v n. own j v (inr n)),
  )

  -- The rows that are kept: one of the given rows for each key, which no row of the key outranks.
  abbrev pub IsReconciled : List Row → List Row → Type 0
  IsReconciled rows kept =
      ((row : Row)
        → In row rows
        → (w : Row) × In w kept
          × In w rows
          × (row_key ext "team_members" w ≡ row_key ext "team_members" row)
          × (rank_lt (member_rank ext w) (member_rank ext row) ≡ false))
      × ((w : Row) → In w kept → In w rows)
      × OneEach kept

  from_winners :
      (rows kept : List Row) (notes : List AutoResolution) (r : Result MergeError RowIndex)
      → members ext rows ≡ r
      → reconciled ext rows r ≡ ok (kept, notes)
      → (out : RowIndex) × (members ext rows ≡ ok out) × (rows_in out ≡ kept)
  from_winners rows kept notes (err e) h k = cc
  from_winners rows kept notes (ok out) h k = (out, h, ground (arith, k))

  -- After agents are folded, a reconciliation of memberships that succeeds keeps for every membership one of the rows
  -- of its key that it does not outrank, by the time of change, then the canonical content; it keeps none but given
  -- rows, and no two places of what it keeps have one key.
  pub reconcile_team_members-IsReconciled :
      (rows kept : List Row) (notes : List AutoResolution)
      → reconcile_team_members_after_remap ext rows ≡ ok (kept, notes)
      → IsReconciled rows kept
  unfolding reconcile_team_members_after_remap
  reconcile_team_members-IsReconciled rows kept notes h =
      let (out, done, same) = from_winners rows kept notes (members ext rows) refl h in
      subst (IsReconciled rows) same (
        λ row m.
            let (key, w, k, there, stands, side, own) = kept_above ext rows out done row m in
            (w, rows_in-In key w out (get-In key w out there), side, own ∙ sym k, stands),
        λ w m. let (k, n) = In-rows_in out w m in (won ext rows out done k w n).0,
        sorted-OneEach out (winners-IsSorted ext rows out done)
            (λ k w m. (won ext rows out done k w m).1),
      )
