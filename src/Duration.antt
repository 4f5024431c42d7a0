-- ===== src/Duration.antt =====
-- crates/carryctx-core/src/domain/duration.rs: durations such as `2h30m`, in milliseconds.
pub mod Exact
pub mod Complete
use Prim.Native.Char.{Char}
use Prim.Native.String.{[], ◌∷◌, ◌++◌}
use carryctx.Base.{
  ℕ, ◌+◌, ◌*◌, ◌-◌, ◌^◌, String, Bool, Option, none, some, ◌==◌, if◌then◌else◌, leb, nat_eq, not,
  Result, ok, err,
}
use carryctx.Base.Text.{trim, is_ascii_digit}
use carryctx.Base.Numbers.{parse_uint}
use carryctx.Error.{CarryCtxError, validation_error}

abbrev pub max_u64 : ℕ
max_u64 = 2 ^ 64 - 1

-- The milliseconds of a unit; those of `ms` are taken as they are.
unfoldable pub unit_ms : String → Option ℕ
unit_ms suffix =
    if suffix == "ms"
    then some 1
    else if suffix == "s"
    then some 1000
    else if suffix == "m"
    then some (60 * 1000)
    else if suffix == "h"
    then some (3600 * 1000)
    else if suffix == "d"
    then some (24 * 3600 * 1000)
    else if suffix == "w"
    then some (7 * 24 * 3600 * 1000)
    else none

abbrev overflow_err : CarryCtxError
overflow_err = validation_error "Duration overflow."

-- `checked_mul`, then `checked_add`
unfoldable pub add_checked : ℕ → ℕ → ℕ → Result CarryCtxError ℕ
add_checked total value factor =
    if leb (value * factor) max_u64
    then if leb (total + value * factor) max_u64
      then ok (total + value * factor)
      else err overflow_err
    else err overflow_err

unfoldable pub add_units : ℕ → String → ℕ → Option ℕ → Result CarryCtxError ℕ
unfolding add_checked
add_units total suffix value none = err (validation_error ("Unknown duration suffix: " ++ suffix))
add_units total suffix value (some factor) = add_checked total value factor

unfoldable pub add_number : ℕ → String → String → Option ℕ → Result CarryCtxError ℕ
unfolding add_units unit_ms
add_number total num suffix none = err (validation_error ("Invalid duration number: " ++ num))
add_number total num suffix (some value) = add_units total suffix value (unit_ms suffix)

unfoldable pub apply_suffix : ℕ → String → String → Result CarryCtxError ℕ
unfolding add_number parse_uint
apply_suffix total num suffix = add_number total num suffix (parse_uint max_u64 num)

-- After the loop over the characters.
unfoldable pub finish : String → ℕ → String → String → Result CarryCtxError ℕ
unfolding apply_suffix
finish s total num suffix =
    if not (num == "")
    then apply_suffix total num suffix
    else if not (suffix == "")
    then err (validation_error ("Invalid duration: " ++ s))
    else ok total

abbrev pub and_then : Result CarryCtxError ℕ → (ℕ → Result CarryCtxError ℕ) → Result CarryCtxError ℕ
and_then (err e) f = err e
and_then (ok n) f = f n

-- The loop with `total`, `num_buf` and `suffix_buf` over the characters that are left.
unfoldable pub read : String → ℕ → String → String → String → Result CarryCtxError ℕ
unfolding finish is_ascii_digit
read s total num suffix [] = finish s total num suffix
read s total num suffix (c ∷ rest) =
    if is_ascii_digit c
    then if not (suffix == "")
      then and_then (apply_suffix total num suffix) (λ t. read s t (c ∷ []) "" rest)
      else read s total (num ++ c ∷ []) suffix rest
    else read s total num (suffix ++ c ∷ []) rest

abbrev pub positive : Result CarryCtxError ℕ → Result CarryCtxError ℕ
positive (err e) = err e
positive (ok total) =
    if nat_eq total 0 then err (validation_error "Duration must be positive.") else ok total

unfoldable pub parse_trimmed : String → Result CarryCtxError ℕ
unfolding read
parse_trimmed s =
    if s == ""
    then err (validation_error "Duration cannot be empty.")
    else positive (read s 0 "" "" s)

unfoldable pub parse_duration : String → Result CarryCtxError ℕ
unfolding parse_trimmed trim
parse_duration s = parse_trimmed (trim s)
