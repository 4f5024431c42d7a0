-- ===== src/Merge/Maps.antt =====
-- Lists by rising key, as `BTreeMap` holds them: inserting keeps the order, and an entry is found.
use carryctx.Base.{
  String, true, none, List, [], ◌∷◌, ◌≡◌, refl, sym, ap, subst, arith, ◌==◌, eq_iff, Bool-cases,
  inl, inr, text_lt, text_lt-either, text_lt_trans, text_lt_irrefl,
}
use carryctx.Merge.{get, insert}

module _ {A : Type 0} where
  -- Every key comes after `c`.
  abbrev pub Above : String → List (String × A) → Type 0
  Above c [] = Unit
  Above c ((d, v) ∷ m) = (text_lt c d ≡ true) × Above c m

  abbrev pub IsSorted : List (String × A) → Type 0
  IsSorted [] = Unit
  IsSorted ((c, v) ∷ m) = Above c m × IsSorted m

  Above-trans : (c d : String) (m : List (String × A)) → text_lt c d ≡ true → Above d m → Above c m
  Above-trans c d [] h a = tt
  Above-trans c d ((e, v) ∷ m) h (k, a) = (text_lt_trans c d e h k, Above-trans c d m h a)

  Above-insert :
      (c d : String) (v : A) (m : List (String × A))
      → text_lt c d ≡ true
      → Above c m
      → Above c (insert d v m)
  unfolding insert
  Above-insert c d v [] h a = (h, tt)
  Above-insert c d v ((e, w) ∷ m) h (k, a) = elim (Bool-cases (d == e)) [
    | inl same ↦ rw same (h, a)
    | inr differ ↦ elim (Bool-cases (text_lt d e)) [
      | inl before ↦ rw (differ, before) (h, (k, a))
      | inr after ↦ rw (differ, after) (k, Above-insert c d v m h a)
    ]
  ]

  pub insert-IsSorted :
      (c : String) (v : A) (m : List (String × A)) → IsSorted m → IsSorted (insert c v m)
  unfolding insert
  insert-IsSorted c v [] s = (tt, tt)
  insert-IsSorted c v ((d, w) ∷ m) (a, s) = elim (Bool-cases (c == d)) [
    | inl same ↦ rw same (subst (λ x. Above x m) (sym ((eq_iff c d).0 same)) a, s)
    | inr differ ↦ elim (Bool-cases (text_lt c d)) [
      | inl before ↦ rw (differ, before) ((before, Above-trans c d m before a), (a, s))
      | inr after ↦
          let later : text_lt d c ≡ true = ground (arith, text_lt-either c d, eq_iff c d) in
          rw (differ, after) (Above-insert d c v m later a, insert-IsSorted c v m s)
    ]
  ]

  pub get-Above : (c : String) (m : List (String × A)) → Above c m → get c m ≡ none
  unfolding get
  get-Above c [] a = refl
  get-Above c ((d, v) ∷ m) (h, a) =
      ground (arith, eq_iff c d, text_lt_irrefl c, ap (text_lt c), get-Above c m a)
