-- ===== src/Examples/Values.antt =====
-- The theorems on durations and display ids, at concrete texts.
use carryctx.Base.{◌≤◌, ◌<◌, some, ok, ◌≡◌, ◌↔◌, refl, arith}
use carryctx.Base.Text.{trim}
use carryctx.Duration.{max_u64, parse_duration}
use carryctx.Duration.Exact.{Spells}
use carryctx.Duration.Complete.{parse_duration_iff}
use carryctx.Ids.{format_display_id, parse_display_id}
use carryctx.Ids.RoundTrip.{parse_display_id-format_display_id}

two_parts : parse_duration "2h30m" ≡ ok 9000000
unfolding parse_duration
two_parts = refl

parse_duration_iff_example :
    (parse_duration "2h30m" ≡ ok 9000000)
    ↔ (Spells (trim "2h30m") 9000000 × (0 < 9000000) × (9000000 ≤ max_u64))
parse_duration_iff_example = parse_duration_iff "2h30m" 9000000

printed : format_display_id "CTX" 1 ≡ "CTX-0001"
unfolding format_display_id
printed = refl

parse_display_id-format_display_id_example :
    parse_display_id (format_display_id "CTX" 12345) ≡ some ("CTX", 12345)
parse_display_id-format_display_id_example =
    parse_display_id-format_display_id "CTX" 12345 (omega arith)
