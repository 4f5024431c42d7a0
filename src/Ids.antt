-- ===== src/Ids.antt =====
-- crates/carryctx-core/src/domain/ids.rs: display ids, such as `CTX-0001`, and their prefixes. Internal
-- ids, which are ULIDs, are texts in this development.
pub mod RoundTrip
use Prim.Native.Char.{Char, code}
use Prim.Native.String.{[], ◌∷◌, ◌++◌, len}
use carryctx.Base.{
  ℕ, ◌+◌, ◌*◌, ◌-◌, ◌^◌, ◌/◌, ◌%◌, String, Bool, false, Option, none, some, ◌==◌, if◌then◌else◌,
  ltb, nat_eq, not, ◌||◌, Result, ok, err,
}
use carryctx.Base.Text.{is_ascii_digit, is_ascii_uppercase, all_chars}
use carryctx.Base.Numbers.{parse_uint, pad_to}

abbrev pub max_u32 : ℕ
max_u32 = 2 ^ 32 - 1

unfoldable pub format_display_id : String → ℕ → String
unfolding pad_to
format_display_id prefix seq = prefix ++ ("-" ++ pad_to 4 seq)

-- `rfind('-')`: what stands before and after the last dash.
unfoldable pub split_from : Char → String → Option (String × String) → Option (String × String)
split_from c s (some (before, after)) = some (c ∷ before, after)
split_from c s none = if nat_eq (code c) b'-' then some ("", s) else none

unfoldable pub split_dash : String → Option (String × String)
unfolding split_from
split_dash [] = none
split_dash (c ∷ s) = split_from c s (split_dash s)

abbrev pub with_prefix : String → Option ℕ → Option (String × ℕ)
with_prefix prefix none = none
with_prefix prefix (some seq) = some (prefix, seq)

unfoldable pub parse_parts : Option (String × String) → Option (String × ℕ)
unfolding parse_uint
parse_parts none = none
parse_parts (some (prefix, num_str)) = with_prefix prefix (parse_uint max_u32 num_str)

unfoldable pub parse_display_id : String → Option (String × ℕ)
unfolding parse_parts split_dash
parse_display_id id = parse_parts (split_dash id)

abbrev pub upper_or_digit : Char → Bool
upper_or_digit c = is_ascii_uppercase c || is_ascii_digit c

unfoldable pub first_is_upper : String → Bool
unfolding is_ascii_uppercase
first_is_upper [] = false
first_is_upper (c ∷ _) = is_ascii_uppercase c

unfoldable pub validate_task_prefix : String → Result String (Unit {0})
unfolding first_is_upper all_chars is_ascii_uppercase is_ascii_digit
validate_task_prefix prefix =
    if prefix == "" || ltb 10 (len prefix)
    then err "Prefix must be 1-10 characters."
    else if not (first_is_upper prefix)
    then err "Prefix must start with an uppercase ASCII letter."
    else if not (all_chars upper_or_digit prefix)
    then err "Prefix may contain only uppercase ASCII letters and digits."
    else ok tt
