-- ===== src/Merge/Frame.antt =====
-- Content frames: comparing them decides their equality, and writing a column outside the frame does
-- not change one.
use carryctx.Base.{
  String, true, false, ◌↔◌, [], ◌∷◌, ◌≡◌, ap, arith, ◌==◌, eq_iff, Bool-cases, inl, inr,
}
use carryctx.Merge.{
  Value, value_eq, Row, row_eq, insert, is_framed, frame, content_eq, null, boolean, number, text,
  other,
}

-- A column outside the frame is written without a trace in it.
pub frame-insert :
    (table c : String) (v : Value) (row : Row)
    → is_framed table c ≡ false
    → frame table (insert c v row) ≡ frame table row
unfolding frame insert
frame-insert table c v [] h = ground (arith, h)
frame-insert table c v ((d, w) ∷ row) h = elim (Bool-cases (c == d)) [
  | inl same ↦ ground (arith, h, same, ap (is_framed table) ((eq_iff c d).0 same))
  | inr differ ↦ ground (arith, h, differ, frame-insert table c v row h)
]

value_eq_iff : (a b : Value) → (value_eq a b ≡ true) ↔ (a ≡ b)
unfolding value_eq
value_eq_iff null null = ground arith
value_eq_iff (boolean a) (boolean b) = ground arith
value_eq_iff (number a) (number b) = ground arith
value_eq_iff (text a) (text b) = ground (arith, eq_iff a b)
value_eq_iff (other a) (other b) = ground (arith, eq_iff a b)
value_eq_iff a b = ground arith

pub row_eq_iff : (a b : Row) → (row_eq a b ≡ true) ↔ (a ≡ b)
unfolding row_eq
row_eq_iff [] [] = ground arith
row_eq_iff [] (d ∷ b) = ground arith
row_eq_iff (c ∷ a) [] = ground arith
row_eq_iff ((c, v) ∷ a) ((d, w) ∷ b) = ground (arith, eq_iff c d, value_eq_iff v w, row_eq_iff a b)

pub content_eq_iff :
    (table : String) (a b : Row) → (content_eq table a b ≡ true) ↔ (frame table a ≡ frame table b)
unfolding content_eq
content_eq_iff table a b = row_eq_iff (frame table a) (frame table b)
