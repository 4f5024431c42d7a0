-- ===== src/Merge/ThreeWay.antt =====
-- The three-way classification of a row that both sides have: what changed on one side only.
use carryctx.Base.{String, true, false, none, some, ◌≡◌, refl, sym, ◌∙◌, Bool-cases, inl, inr}
use mathlib.Core.Bool.{false≢true}
use carryctx.Merge.{Row, frame, content_eq, is_immutable, External, MergeOptions}
use carryctx.Merge.Frame.{content_eq_iff}
use carryctx.Merge.Elect.{overlay_machine_local}
use carryctx.Merge.Symmetric.{frame-overlay}
use carryctx.Merge.Table.{changed, Outcome, merge_both}

-- A row with the content of `side` and nothing recorded.
abbrev pub TakenFrom : String → Row → Outcome → Type 0
TakenFrom table side outcome =
    (row : Row) × (outcome ≡ (some row, none)) × (frame table row ≡ frame table side)

same : (table : String) (a b : Row) → frame table a ≡ frame table b → content_eq table a b ≡ true
same table a b e = (content_eq_iff table a b).1 e

module _ (ext : External) (options : MergeOptions) (table key : String) (base ours theirs : Row)
    (mutable : is_immutable table ≡ false) where
  -- In a table that is not immutable, where theirs has the content of the base, the merge of a row keeps our
  -- content and records nothing.
  pub merge_both-kept :
      frame table theirs ≡ frame table base
      → TakenFrom table ours (merge_both ext options table key (some base) ours theirs)
  unfolding merge_both changed
  merge_both-kept e = elim (Bool-cases (content_eq table ours theirs)) [
    | inl equal ↦ (ours, rw equal refl, refl)
    | inr differ ↦ elim (Bool-cases (content_eq table ours base)) [
      | inl unchanged ↦ absurd (
          false≢true (
            sym differ
            ∙ same table ours theirs ((content_eq_iff table ours base).0 unchanged ∙ sym e)))
      | inr edited ↦ (ours, rw (differ, mutable, edited, same table theirs base e) refl, refl)
    ]
  ]

  -- In a table that is not immutable, where ours has the content of the base, the merge of a row takes their
  -- content and records nothing.
  pub merge_both-taken :
      frame table ours ≡ frame table base
      → TakenFrom table theirs (merge_both ext options table key (some base) ours theirs)
  unfolding merge_both changed
  merge_both-taken e = elim (Bool-cases (content_eq table ours theirs)) [
    | inl equal ↦ (ours, rw equal refl, (content_eq_iff table ours theirs).0 equal)
    | inr differ ↦ (
      overlay_machine_local table theirs ours,
      rw (differ, mutable, same table ours base e) refl,
      frame-overlay table theirs ours,
    )
  ]
