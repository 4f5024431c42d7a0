-- ===== src/Base/Numbers.antt =====
-- `str::parse` of an unsigned integer with a largest value, and the number that digits spell.
pub mod Print
use Prim.Native.Nat.{ℕ, zero, suc, ◌/◌, ◌%◌, ◌^◌, ◌<◌, ◌+◌, ◌-◌, ◌*◌, ◌≤◌}
use Prim.Native.Nat.pow
use Prim.Native.Char.{Char, code}
use Prim.Native.String.{String, [], ◌∷◌, ◌++◌, len}
use mathlib.Core.Path.{◌≡◌, refl, ap}
use mathlib.Core.Logic.{◌≢◌, inl, inr}
use mathlib.Core.Bool.{Bool, true, false, ◌&&◌}
use mathlib.Core.Option.{Option, none, some}
use native.Mathlib.Omega.{arith}
use carryctx.Base.Tests.{Bool-cases, leb, ltb, nat_eq, if◌then◌else◌}
use carryctx.Base.Text.{is_ascii_digit, all_chars}

abbrev pub digit : Char → ℕ
digit c = code c - b'0'

-- The number that digits spell behind `n`, with no bound.
abbrev pub value : ℕ → String → ℕ
value n [] = n
value n (c ∷ s) = value (n * 10 + digit c) s

-- The loop of `from_str_radix`, with `checked_mul` and `checked_add`.
unfoldable pub scan : ℕ → ℕ → String → Option ℕ
unfolding is_ascii_digit
scan limit n [] = some n
scan limit n (c ∷ s) =
    let rest = scan limit (n * 10 + digit c) s in
    if is_ascii_digit c && leb (n * 10 + digit c) limit then rest else none

-- A sign `+` may stand before the digits.
unfoldable pub parse_uint : ℕ → String → Option ℕ
unfolding scan
parse_uint limit [] = none
parse_uint limit (c ∷ []) = scan limit 0 (c ∷ [])
parse_uint limit (c ∷ d ∷ s) = scan limit 0 (if nat_eq (code c) b'+' then d ∷ s else c ∷ d ∷ s)

le-value : (n : ℕ) (s : String) → n ≤ value n s
le-value n [] = omega arith
le-value n (c ∷ s) = omega (arith, le-value (n * 10 + digit c) s)

scan-digits :
    (limit n : ℕ) (s : String)
    → n ≤ limit
    → all_chars is_ascii_digit s ≡ true
    → scan limit n s ≡ (if leb (value n s) limit then some (value n s) else none)
unfolding scan all_chars
scan-digits limit n [] fits h = ground arith
scan-digits limit n (c ∷ s) fits h =
    ground (arith, scan-digits limit (n * 10 + digit c) s, le-value (n * 10 + digit c) s)

-- One or more digits are read as the number they spell, if it is not above the limit.
pub parse_uint-digits :
    (limit : ℕ) (s : String)
    → s ≢ ""
    → all_chars is_ascii_digit s ≡ true
    → parse_uint limit s ≡ (if leb (value 0 s) limit then some (value 0 s) else none)
unfolding parse_uint is_ascii_digit all_chars
parse_uint-digits limit [] ne h = absurd (ne refl)
parse_uint-digits limit (c ∷ []) ne h = scan-digits limit 0 (c ∷ []) (omega arith) h
parse_uint-digits limit (c ∷ d ∷ s) ne h =
    ground (arith, scan-digits limit 0 (c ∷ d ∷ s) (omega arith) h)

abbrev pub nth_char : String → ℕ → Char
nth_char [] n = "0"
nth_char (c ∷ s) zero = c
nth_char (c ∷ s) (suc n) = nth_char s n

-- `char::from_digit` below ten
unfoldable pub digit_char : ℕ → Char
digit_char = nth_char "0123456789"

-- The digits of a number before `out`, at most as many as the fuel.
unfoldable pub emit : ℕ → ℕ → String → String
emit zero n out = out
emit (suc fuel) n out =
    let rest = emit fuel (n / 10) (digit_char (n % 10) ∷ out) in
    if ltb n 10 then digit_char n ∷ out else rest

-- `Display` of a number of at most 64 bits, which has at most twenty digits
unfoldable pub decimal : ℕ → String
unfolding emit digit_char
decimal n = emit 20 n ""

unfoldable pub zeros : ℕ → String
zeros zero = ""
zeros (suc n) = "0" ∷ zeros n

-- `{:0width$}`
unfoldable pub pad_to : ℕ → ℕ → String
unfolding decimal zeros
pad_to width n = zeros (width - len (decimal n)) ++ decimal n
