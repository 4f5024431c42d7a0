-- ===== src/Base/TextOrder.antt =====
-- The order of texts by their characters, which is `Ord` of `str`.
use Prim.Native.Nat.{ℕ, Ordering, compare as compare_ℕ}
use Prim.Native.Char.{Char, code}
use Prim.Native.String.compare
use Prim.Native.String.{String, [], ◌∷◌, compare, then}
use mathlib.Core.Path.{◌≡◌, refl, sym, ap, ◌∙◌}
use mathlib.Core.Logic.{◌⊎◌, inl, inr, ◌≢◌}
use mathlib.Core.Bool.{Bool, true, false, ◌&&◌, ◌||◌}
use native.Mathlib.Omega.{arith}
use text.Mathlib.Text.{is_lt}
use text.Mathlib.TextEquality.{path_by_compare}
use carryctx.Base.Tests.{ltb, nat_eq, Bool-cases, Text-cases}

abbrev pub text_lt : String → String → Bool
text_lt a b = is_lt (compare a b)

abbrev flip : Ordering → Ordering
flip Ordering.lt = Ordering.gt
flip Ordering.eq = Ordering.eq
flip Ordering.gt = Ordering.lt

compare_ℕ-flip : (m n : ℕ) → compare_ℕ n m ≡ flip (compare_ℕ m n)
compare_ℕ-flip m n = ground arith

then-flip : (o r : Ordering) → then (flip o) (flip r) ≡ flip (then o r)
then-flip Ordering.lt r = refl
then-flip Ordering.eq r = refl
then-flip Ordering.gt r = refl

compare-flip : (a b : String) → compare b a ≡ flip (compare a b)
compare-flip [] [] = compare.nil-nil ∙ sym (ap flip compare.nil-nil)
compare-flip [] (d ∷ b) = compare.cons-nil d b ∙ sym (ap flip (compare.nil-cons d b))
compare-flip (c ∷ a) [] = compare.nil-cons c a ∙ sym (ap flip (compare.cons-nil c a))
compare-flip (c ∷ a) (d ∷ b) =
    compare.cons-cons d c b a
    ∙ (ap (λ o. then o (compare b a)) (compare_ℕ-flip (code c) (code d))
        ∙ ap (then (flip (compare_ℕ (code c) (code d)))) (compare-flip a b))
    ∙ then-flip (compare_ℕ (code c) (code d)) (compare a b)
    ∙ sym (ap flip (compare.cons-cons c d a b))

-- Of two different texts exactly one comes before the other.
pub text_lt-either :
    (a b : String)
    → a ≢ b
    → ((text_lt a b ≡ true) × (text_lt b a ≡ false))
      ⊎ ((text_lt a b ≡ false) × (text_lt b a ≡ true))
text_lt-either a b ne = either (compare a b) refl
  where
    either :
        (o : Ordering)
        → compare a b ≡ o
        → ((text_lt a b ≡ true) × (text_lt b a ≡ false))
          ⊎ ((text_lt a b ≡ false) × (text_lt b a ≡ true))
    either Ordering.lt e = inl (ap is_lt e, ap is_lt (compare-flip a b ∙ ap flip e))
    either Ordering.eq e = absurd (ne (path_by_compare a b e))
    either Ordering.gt e = inr (ap is_lt e, ap is_lt (compare-flip a b ∙ ap flip e))

text_lt-cons :
    (c d : Char) (a b : String)
    → text_lt (c ∷ a) (d ∷ b) ≡ (ltb (code c) (code d) || (nat_eq (code c) (code d) && text_lt a b))
text_lt-cons c d a b =
    ap is_lt (compare.cons-cons c d a b) ∙ by_code (compare_ℕ (code c) (code d)) refl
  where
    by_code :
        (o : Ordering)
        → compare_ℕ (code c) (code d) ≡ o
        → is_lt (then (compare_ℕ (code c) (code d)) (compare a b))
          ≡ (ltb (code c) (code d) || (nat_eq (code c) (code d) && text_lt a b))
    by_code Ordering.lt e = ground (arith, e)
    by_code Ordering.eq e = ground (arith, e)
    by_code Ordering.gt e = ground (arith, e)

pub text_lt_trans : (a b c : String) → text_lt a b ≡ true → text_lt b c ≡ true → text_lt a c ≡ true
text_lt_trans a [] c h k = absurd (not_before_nil a h)
  where
    not_before_nil : (a : String) → text_lt a [] ≡ true → ⊥
    not_before_nil [] h = cc
    not_before_nil (c ∷ a) h = cc (ap is_lt (compare.cons-nil c a), h)
text_lt_trans a (d ∷ b) [] h k = cc (ap is_lt (compare.cons-nil d b), k)
text_lt_trans [] (d ∷ b) (e ∷ c) h k = ap is_lt (compare.nil-cons e c)
text_lt_trans (x ∷ a) (d ∷ b) (e ∷ c) h k = ground (
  arith,
  h,
  k,
  text_lt-cons x d a b,
  text_lt-cons d e b c,
  text_lt-cons x e a c,
  text_lt_trans a b c,
)

pub text_lt_irrefl : (a : String) → text_lt a a ≡ false
text_lt_irrefl [] = ap is_lt compare.nil-nil
text_lt_irrefl (c ∷ a) = ground (arith, text_lt-cons c c a a, text_lt_irrefl a)

pub text_asym : (a b : String) → text_lt b a ≡ true → text_lt a b ≡ false
text_asym a b h = elim (Bool-cases (text_lt a b)) [
  | inl k ↦ ground (arith, text_lt_trans a b a, text_lt_irrefl a)
  | inr n ↦ n
]

pub not_before_trans :
    (a b c : String) → text_lt b a ≡ false → text_lt c b ≡ false → text_lt c a ≡ false
not_before_trans a b c h k = elim (Bool-cases (text_lt c a)) [
  | inl before ↦ elim (Text-cases a b) [
    | inl same ↦ cc
    | inr differ ↦ ground (arith, text_lt-either a b differ, text_lt_trans c a b before)
  ]
  | inr after ↦ after
]
