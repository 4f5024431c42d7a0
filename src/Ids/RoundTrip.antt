-- ===== src/Ids/RoundTrip.antt =====
-- Display ids are read back.
use Prim.Native.String.append
use Prim.Native.String.{[], ◌∷◌, ◌++◌}
use carryctx.Base.{ℕ, ◌≤◌, String, true, none, some, ◌≡◌, refl, arith}
use carryctx.Base.Text.{is_ascii_digit, all_chars}
use carryctx.Base.Numbers.{pad_to}
use carryctx.Base.Numbers.Print.{all_digits-pad_to, parse_uint-pad_to}
use carryctx.Ids.{max_u32, format_display_id, split_from, split_dash, parse_parts, parse_display_id}

split_dash-digits : (s : String) → all_chars is_ascii_digit s ≡ true → split_dash s ≡ none
unfolding split_dash split_from all_chars is_ascii_digit
split_dash-digits [] h = refl
split_dash-digits (c ∷ s) h = ground (arith, split_dash-digits s)

-- The last dash is the one before the digits, whatever the prefix.
pub split_dash-append :
    (prefix digits : String)
    → all_chars is_ascii_digit digits ≡ true
    → split_dash (prefix ++ ("-" ++ digits)) ≡ some (prefix, digits)
unfolding split_dash split_from
split_dash-append [] digits h =
    rw
      (
        append.nil ("-" ++ digits),
        append.cons "-" "" digits,
        append.nil digits,
        split_dash-digits digits h,
      )
      refl
split_dash-append (c ∷ prefix) digits h =
    rw (append.cons c prefix ("-" ++ digits), split_dash-append prefix digits h) refl

-- A display id is read back as its prefix and its number, whatever the prefix, for every `u32`.
pub parse_display_id-format_display_id :
    (prefix : String) (seq : ℕ)
    → seq ≤ max_u32
    → parse_display_id (format_display_id prefix seq) ≡ some (prefix, seq)
unfolding parse_display_id parse_parts format_display_id
parse_display_id-format_display_id prefix seq h =
    rw
      (
        split_dash-append prefix (pad_to 4 seq) (all_digits-pad_to 4 seq),
        parse_uint-pad_to max_u32 4 seq (omega arith) h,
      )
      refl
