-- ===== src/Merge/Tombstones/Earliest.antt =====
-- The merge of tombstones keeps the earliest one of each key.
use carryctx.Base.{
  ℕ, String, true, false, Option, none, some, List, [], ◌++◌, ◌≡◌, ◌⊎◌, inl, inr, refl, sym, ap,
  ◌∙◌, arith, text_asym, not_before_trans, Bool-cases, In, ok, text_lt_irrefl, if◌then◌else◌,
}
use carryctx.Merge.{Row, get, External}
use carryctx.Merge.Index.{RowIndex}
use carryctx.Merge.Index.Kept.{gather-Gathered, gather_total}
use carryctx.Merge.Tombstones.{
  tombstone_key, canon, time_of, earlier_by, earlier_tombstone, earliest, merge_tombstones,
}

module _ (ext : External) where
  earlier_by_trans :
      (a b c : Row) (t u v : Option ℕ)
      → earlier_by ext b a u t ≡ false
      → earlier_by ext c b v u ≡ false
      → earlier_by ext c a v t ≡ false
  unfolding earlier_by
  earlier_by_trans a b c (some t) (some u) (some v) h k =
      ground (arith, not_before_trans (canon ext a) (canon ext b) (canon ext c))
  earlier_by_trans a b c t u v h k =
      ground (arith, not_before_trans (canon ext a) (canon ext b) (canon ext c))

  earlier_by_irrefl : (a : Row) (t : Option ℕ) → earlier_by ext a a t t ≡ false
  unfolding earlier_by
  earlier_by_irrefl a none = text_lt_irrefl (canon ext a)
  earlier_by_irrefl a (some t) = ground (arith, text_lt_irrefl (canon ext a))

  -- The row `b` is no earlier than `a`.
  abbrev NotBefore : Row → Row → Type 0
  NotBefore a b = earlier_tombstone ext b a ≡ false

  NotBefore-trans : (a b c : Row) → NotBefore a b → NotBefore b c → NotBefore a c
  unfolding earlier_tombstone
  NotBefore-trans a b c = earlier_by_trans a b c (time_of ext a) (time_of ext b) (time_of ext c)

  NotBefore-refl : (a : Row) → NotBefore a a
  unfolding earlier_tombstone
  NotBefore-refl a = earlier_by_irrefl a (time_of ext a)

  earlier_by_asym :
      (a b : Row) (t u : Option ℕ) → earlier_by ext b a u t ≡ true → earlier_by ext a b t u ≡ false
  unfolding earlier_by
  earlier_by_asym a b (some t) (some u) h = ground (arith, text_asym (canon ext a) (canon ext b))
  earlier_by_asym a b t u h = ground (arith, text_asym (canon ext a) (canon ext b))

  earliest_stands :
      (key : String) (a b w : Row)
      → earliest ext key a b ≡ ok w
      → ((w ≡ a) ⊎ (w ≡ b)) × NotBefore w a × NotBefore w b
  unfolding earliest earlier_tombstone
  earliest_stands key a b w h = elim (Bool-cases (earlier_tombstone ext b a)) [
    | inl before ↦
        let kept : w ≡ b = ground (arith, before, h) in
        rw kept
          (inr refl, earlier_by_asym a b (time_of ext a) (time_of ext b) before, NotBefore-refl b)
    | inr after ↦
        let kept : w ≡ a = ground (arith, after, h) in rw kept (inl refl, NotBefore-refl a, after)
  ]

  -- The merge of tombstones that are JSON objects succeeds, and for every tombstone of a side it has one under the same
  -- key that some side has and that the tombstone does not come before: by the time of deletion, a tombstone without a
  -- time last, and among equal times by the canonical content.
  pub merge_tombstones-earliest :
      (base ours theirs : List Row) (row : Row)
      → In row (base ++ ours ++ theirs)
      → (out : RowIndex) × (w : Row) × (merge_tombstones ext base ours theirs ≡ ok out)
        × (get (tombstone_key row) out ≡ some w)
        × (earlier_tombstone ext row w ≡ false)
        × In w (base ++ ours ++ theirs)
        × (tombstone_key w ≡ tombstone_key row)
  unfolding merge_tombstones earliest get
  merge_tombstones-earliest base ours theirs row m =
      let (out, done) =
        gather_total tombstone_key (λ k a b. if earlier_tombstone ext b a then b else a) []
          (base ++ ours ++ theirs) in
      let (_, rows, from, _) =
        gather-Gathered (λ row. ok (tombstone_key row)) (earliest ext) NotBefore NotBefore-refl
          NotBefore-trans earliest_stands [] (base ++ ours ++ theirs) out done in
      let (key, w, same, there, stands) = rows row m in
      let here : tombstone_key row ≡ key = cc same in
      elim (from key w there) [
        | inl start ↦ cc start
        | inr (side, k) ↦
            let own : tombstone_key w ≡ key = cc k in
            (out, w, done, ap (λ x. get x out) here ∙ there, stands, side, own ∙ sym here)
      ]
