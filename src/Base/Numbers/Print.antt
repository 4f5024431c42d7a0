-- ===== src/Base/Numbers/Print.antt =====
-- Printing a number and reading it back.
use Prim.Native.Nat.{ℕ, zero, suc, ◌/◌, ◌%◌, ◌^◌, ◌<◌, ◌+◌, ◌-◌, ◌≤◌}
use Prim.Native.Nat.pow
use Prim.Native.Char.{code}
use Prim.Native.String.append
use Prim.Native.String.{String, [], ◌∷◌, ◌++◌, len}
use mathlib.Core.Path.{◌≡◌, refl, ap, ◌∙◌}
use mathlib.Core.Logic.{◌≢◌, inl, inr}
use mathlib.Core.Bool.{true}
use mathlib.Core.Option.{some}
use native.Mathlib.Omega.{arith}
use carryctx.Base.Tests.{Bool-cases, ltb}
use carryctx.Base.Text.{is_ascii_digit, all_chars}
use carryctx.Base.Numbers.{
  value, parse_uint, parse_uint-digits, nth_char, digit_char, emit, decimal, zeros, pad_to,
}

abbrev size : String → ℕ
size [] = 0
size (c ∷ s) = suc (size s)

abbrev Rising : ℕ → String → Type 0
Rising n [] = Unit
Rising n (c ∷ s) = (code c ≡ n) × Rising (suc n) s

code-nth_char : (n d : ℕ) (s : String) → Rising n s → d < size s → code (nth_char s d) ≡ n + d
code-nth_char n d [] r h = absurd (omega arith)
code-nth_char n zero (c ∷ s) (e, r) h = omega arith
code-nth_char n (suc d) (c ∷ s) (e, r) h = omega (arith, code-nth_char (suc n) d s r (omega arith))

digits_rise : Rising b'0' "0123456789"
digits_rise = (refl, (refl, (refl, (refl, (refl, (refl, (refl, (refl, (refl, (refl, tt))))))))))

code-digit_char : (d : ℕ) → d < 10 → code (digit_char d) ≡ b'0' + d
unfolding digit_char
code-digit_char d h = code-nth_char b'0' d "0123456789" digits_rise h

value-emit : (fuel n : ℕ) (out : String) → n < 10 ^ fuel → value 0 (emit fuel n out) ≡ value n out
unfolding emit
value-emit zero n out h = ap (λ m. value m out) (omega (arith, pow.zero 10))
value-emit (suc fuel) n out h = elim (Bool-cases (ltb n 10)) [
  | inl small ↦ ground (arith, small, code-digit_char n)
  | inr large ↦ ground (
    arith,
    large,
    value-emit fuel (n / 10) (digit_char (n % 10) ∷ out),
    code-digit_char (n % 10) (omega arith),
    pow.suc 10 fuel,
  )
]

all_digits-emit :
    (fuel n : ℕ) (out : String)
    → all_chars is_ascii_digit out ≡ true
    → all_chars is_ascii_digit (emit fuel n out) ≡ true
unfolding emit all_chars is_ascii_digit
all_digits-emit zero n out h = h
all_digits-emit (suc fuel) n out h = ground (
  arith,
  all_digits-emit fuel (n / 10) (digit_char (n % 10) ∷ out),
  code-digit_char n,
  code-digit_char (n % 10) (omega arith),
)

emit-ne-nil : (fuel n : ℕ) (out : String) → out ≢ "" → emit fuel n out ≢ ""
unfolding emit
emit-ne-nil zero n out ne = ne
emit-ne-nil (suc fuel) n out ne = elim (Bool-cases (ltb n 10)) [
  | inl small ↦ rw small (cc)
  | inr large ↦ rw large (emit-ne-nil fuel (n / 10) (digit_char (n % 10) ∷ out) (cc))
]

decimal-ne-nil : (n : ℕ) → decimal n ≢ ""
unfolding decimal emit
decimal-ne-nil n = elim (Bool-cases (ltb n 10)) [
  | inl small ↦ rw small (cc)
  | inr large ↦ rw large (emit-ne-nil 19 (n / 10) (digit_char (n % 10) ∷ "") (cc))
]

all_digits-zeros :
    (k : ℕ) (s : String)
    → all_chars is_ascii_digit s ≡ true
    → all_chars is_ascii_digit (zeros k ++ s) ≡ true
unfolding zeros all_chars is_ascii_digit
all_digits-zeros zero s h = rw (append.nil s) h
all_digits-zeros (suc k) s h = rw (append.cons "0" (zeros k) s) (all_digits-zeros k s h)

value-zeros : (k : ℕ) (s : String) → value 0 (zeros k ++ s) ≡ value 0 s
unfolding zeros
value-zeros zero s = ap (value 0) (append.nil s)
value-zeros (suc k) s = ap (value 0) (append.cons "0" (zeros k) s) ∙ value-zeros k s

zeros-ne-nil : (k : ℕ) (s : String) → s ≢ "" → zeros k ++ s ≢ ""
unfolding zeros
zeros-ne-nil zero s ne = rw (append.nil s) ne
zeros-ne-nil (suc k) s ne = rw (append.cons "0" (zeros k) s) (cc)

-- A padded number is one or more digits, which spell it.
pub value-pad_to : (width n : ℕ) → n < 10 ^ 20 → value 0 (pad_to width n) ≡ n
unfolding pad_to decimal
value-pad_to width n h = value-zeros (width - len (decimal n)) (decimal n) ∙ value-emit 20 n "" h

pub all_digits-pad_to : (width n : ℕ) → all_chars is_ascii_digit (pad_to width n) ≡ true
unfolding pad_to decimal all_chars
all_digits-pad_to width n =
    all_digits-zeros (width - len (decimal n)) (decimal n) (all_digits-emit 20 n "" refl)

pub pad_to-ne-nil : (width n : ℕ) → pad_to width n ≢ ""
unfolding pad_to
pad_to-ne-nil width n = zeros-ne-nil (width - len (decimal n)) (decimal n) (decimal-ne-nil n)

-- Reading a padded number gives it back, up to the limit.
pub parse_uint-pad_to :
    (limit width n : ℕ) → n < 10 ^ 20 → n ≤ limit → parse_uint limit (pad_to width n) ≡ some n
parse_uint-pad_to limit width n h fits = ground (
  arith,
  parse_uint-digits limit (pad_to width n) (pad_to-ne-nil width n) (all_digits-pad_to width n),
  value-pad_to width n h,
)
