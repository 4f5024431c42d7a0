-- ===== src/Merge/Members.antt =====
-- `reconcile_team_members_after_remap` of merge/mod.rs: after agents are folded, one row is kept for
-- each membership.
pub mod Highest
use carryctx.Base.{
  ℕ, ◌+◌, String, Bool, true, false, ◌&&◌, ◌||◌, ◌==◌, Option, none, some, List, [], ◌∷◌, ◌++◌, map,
  if◌then◌else◌, text_lt, ltb, Result, ok, err, opt_eq,
}
use carryctx.Base.{nat_eq}
use carryctx.Merge.{Row, External, key_or_empty, identity_key, AutoResolution}
use carryctx.Merge.Elect.{canonical_frame, parse_instant, row_digest}
use carryctx.Merge.Index.{MergeError, RowIndex, gather, row_key}

-- The order of ranks: no time comes before any time.
abbrev pub Rank : Type 0
Rank = Option ℕ × String × String

unfoldable pub rank_lt : Rank → Rank → Bool
rank_lt (none, f, k) (none, g, l) = text_lt f g || f == g && text_lt k l
rank_lt (none, _, _) (some _, _, _) = true
rank_lt (some _, _, _) (none, _, _) = false
rank_lt (some t, f, k) (some u, g, l) =
    ltb t u || nat_eq t u && (text_lt f g || f == g && text_lt k l)

module _ (ext : External) where
  unfoldable pub member_rank : Row → Rank
  unfolding parse_instant canonical_frame key_or_empty
  member_rank row = (
    parse_instant ext "updated_at" row,
    canonical_frame ext "team_members" row,
    key_or_empty ext "team_members" row,
  )

  unfoldable pub higher_member : String → Row → Row → Result MergeError Row
  unfolding rank_lt member_rank
  higher_member key existing row =
      ok (if rank_lt (member_rank existing) (member_rank row) then row else existing)

  unfoldable pub members : List Row → Result MergeError RowIndex
  unfolding gather row_key higher_member
  members rows = gather (row_key ext "team_members") higher_member [] rows

  abbrev has_key : String → Row → Bool
  has_key key row = opt_eq (identity_key ext "team_members" row) (some key)

  -- How many rows have the key.
  unfoldable pub times : String → List Row → ℕ
  unfolding identity_key
  times key [] = 0
  times key (row ∷ rows) = (if has_key key row then 1 else 0) + times key rows

  unfoldable pub member_notes : List Row → RowIndex → List AutoResolution
  unfolding times row_digest
  member_notes rows [] = []
  member_notes rows ((key, row) ∷ winners) =
      let rest = member_notes rows winners in
      if ltb 1 (times key rows)
      then record {
        table = "team_members";
        key = key;
        kind = "team_member_alias";
        winner = row_digest ext "team_members" row;
      }
        ∷ rest
      else rest

  abbrev reconciled :
      List Row → Result MergeError RowIndex → Result MergeError (List Row × List AutoResolution)
  reconciled rows (err e) = err e
  reconciled rows (ok winners) = ok (map (λ (_, row). row) winners, member_notes rows winners)

  unfoldable pub reconcile_team_members_after_remap :
      List Row → Result MergeError (List Row × List AutoResolution)
  unfolding members member_notes
  reconcile_team_members_after_remap rows = reconciled rows (members rows)
