-- ===== src/Merge/Deletes.antt =====
-- Deleted rows: when a delete stands, and when it blocks the merge.
pub mod Notes
use carryctx.Base.{
  String, Bool, true, false, not, ◌&&◌, ◌||◌, Option, none, some, ◌≡◌, ◌≢◌, ◌⊎◌, ◌↔◌, refl, sym, ap,
  subst, arith, inl, inr, if◌then◌else◌, Bool-cases, eq_iff, ◌==◌,
}
use carryctx.Merge.{
  Row, External, MergeOptions, Conflict, AutoResolution, frame, content_eq, is_immutable,
}
use carryctx.Merge.Frame.{content_eq_iff}
use carryctx.Merge.Elect.{
  Note, conflict, auto, elect, elect_task, elect_by_edit, edit_resolved, resolved, conflicting, lww,
  elected_row, overlay_machine_local, is_terminal_status, status,
}
use carryctx.Merge.Table.{
  changed, Outcome, blocked, delete_or_conflict, resolve_delete_vs_edit, merge_key, merge_rows,
  merge_both, merge_immutable, dependency_kind_election,
}
use carryctx.Merge.Deletes.Notes.{OtherOutcome, silent_other, both_other}

-- A side that has a row which the base has not, or has with other content.
abbrev pub Edited : String → Option Row → Option Row → Type 0
Edited table base side =
    (row : Row) × (side ≡ some row) × ((b : Row) → base ≡ some b → frame table row ≢ frame table b)

changed_iff :
    (table : String) (row : Row) (base : Option Row)
    → (changed table row base ≡ true)
      ↔ ((b : Row) → base ≡ some b → frame table row ≢ frame table b)
unfolding changed
changed_iff table row none = (λ h b e. cc e, λ h. refl)
changed_iff table row (some base) = (
  λ h b e same.
      ground (arith, h, e, same, content_eq_iff table row base, content_eq_iff table row b),
  λ h. elim (Bool-cases (content_eq table row base)) [
    | inl equal ↦ absurd (h base refl ((content_eq_iff table row base).0 equal))
    | inr differ ↦ rw differ refl
  ],
)

-- A conflict between a delete and an edit is recorded.
abbrev pub DeleteConflict : Outcome → Type 0
DeleteConflict outcome =
    (c : Conflict) × (outcome.1 ≡ some (conflict c)) × (c.kind ≡ "delete_vs_edit")

module _ (ext : External) (options : MergeOptions) (table key : String) (base : Option Row) where
  -- One side alone deleted the row, and the other one has it edited.
  abbrev pub Contested : Option Row → Option Row → Bool → Bool → Type 0
  Contested ours theirs our_deleted their_deleted =
      ((our_deleted ≡ true) × (their_deleted ≡ false) × Edited table base theirs)
      ⊎ ((our_deleted ≡ false) × (their_deleted ≡ true) × Edited table base ours)

  -- Both sides deleted the row, or one did and the other has it not edited, or neither did and neither has it.
  abbrev pub Gone : Option Row → Option Row → Bool → Bool → Type 0
  Gone ours theirs our_deleted their_deleted =
      ((our_deleted ≡ true) × (their_deleted ≡ true))
      ⊎ ((our_deleted ≡ true) × (their_deleted ≡ false) × (¬ Edited table base theirs))
      ⊎ ((our_deleted ≡ false) × (their_deleted ≡ true) × (¬ Edited table base ours))
      ⊎ ((our_deleted ≡ false) × (their_deleted ≡ false) × (ours ≡ none) × (theirs ≡ none))

  -- What an outcome says of a delete.
  abbrev pub Judged : Option Row → Option Row → Bool → Bool → Outcome → Type 0
  Judged ours theirs our_deleted their_deleted outcome =
      ((outcome ≡ (none, none)) ↔ Gone ours theirs our_deleted their_deleted)
      × (DeleteConflict outcome ↔ Contested ours theirs our_deleted their_deleted)
      × ((outcome ≡ (ours, blocked "delete_vs_edit" table key base ours theirs))
          ↔ Contested ours theirs our_deleted their_deleted)

  silent :
      (ours theirs : Option Row) (a b : Bool)
      → Gone ours theirs a b
      → (¬ Contested ours theirs a b)
      → Judged ours theirs a b (none, none)
  unfolding blocked
  silent ours theirs a b gone not_contested = (
    (λ h. gone, λ h. refl),
    (λ (c, e, k). cc e, λ h. absurd (not_contested h)),
    (λ h. cc h, λ h. absurd (not_contested h)),
  )

  stopped :
      (ours theirs : Option Row) (a b : Bool)
      → Contested ours theirs a b
      → (¬ Gone ours theirs a b)
      → Judged ours theirs a b (ours, blocked "delete_vs_edit" table key base ours theirs)
  unfolding blocked
  stopped ours theirs a b contested not_gone = (
    (λ h. cc h, λ h. absurd (not_gone h)),
    (λ h. contested, λ h. (_, refl, refl)),
    (λ h. contested, λ h. refl),
  )

  passed :
      (ours theirs : Option Row) (a b : Bool) (outcome : Outcome)
      → OtherOutcome outcome
      → (¬ Contested ours theirs a b)
      → (¬ Gone ours theirs a b)
      → Judged ours theirs a b outcome
  unfolding blocked
  passed ours theirs a b outcome ((row, there), other) not_contested not_gone = (
    (λ h. cc (h, there), λ h. absurd (not_gone h)),
    (λ (c, e, k). absurd (other c e k), λ h. absurd (not_contested h)),
    (λ h. absurd (other _ (ap (λ (o : Outcome). o.1) h) refl), λ h. absurd (not_contested h)),
  )

  Edited-iff : (row : Row) → (changed table row base ≡ true) ↔ Edited table base (some row)
  Edited-iff row = (
    λ h. (row, refl, (changed_iff table row base).0 h),
    λ (r, e, apart).
        (changed_iff table row base).1
          (subst (λ x. (b : Row) → base ≡ some b → frame table x ≢ frame table b) (one r e) apart),
  )
    where
      one : (r : Row) → some row ≡ some r → r ≡ row
      one r e = cc e

  unedited : (row : Row) → changed table row base ≡ false → ¬ Edited table base (some row)
  unedited row same e = let edited = (Edited-iff row).1 e in ground (arith, same, edited)

  judge_one :
      (ours theirs other : Option Row) (a b : Bool)
      → (Edited table base other → Contested ours theirs a b × (¬ Gone ours theirs a b))
      → ((¬ Edited table base other) → Gone ours theirs a b × (¬ Contested ours theirs a b))
      → Judged ours theirs a b (delete_or_conflict table key base ours theirs other)
  unfolding delete_or_conflict
  judge_one ours theirs none a b yours not_yours =
      let (gone, apart) = not_yours (λ (r, e, _). cc e) in silent ours theirs a b gone apart
  judge_one ours theirs (some row) a b yours not_yours =
      elim (Bool-cases (changed table row base)) [
        | inl edited ↦
            let (contested, apart) = yours ((Edited-iff row).0 edited) in
            rw edited (stopped ours theirs a b contested apart)
        | inr same ↦
            let (gone, apart) = not_yours (λ e. unedited row same e) in
            rw same (silent ours theirs a b gone apart)
      ]

  not-Contested : (ours theirs : Option Row) → ¬ Contested ours theirs false false
  not-Contested ours theirs (inl (e, _, _)) = cc e
  not-Contested ours theirs (inr (_, e, _)) = cc e

  not-Gone :
      (ours theirs : Option Row)
      → ¬ ((ours ≡ none) × (theirs ≡ none))
      → ¬ Gone ours theirs false false
  not-Gone ours theirs some_row h = elim h [
    | inl (e, _) ↦ cc e
    | inr h ↦ elim h [
      | inl (e, _, _) ↦ cc e
      | inr h ↦ elim h [ inl (_, e, _) ↦ cc e | inr (_, _, n, m) ↦ some_row (n, m) ]
    ]
  ]

  judge_rows :
      (ours theirs : Option Row)
      → Judged ours theirs false false (merge_rows ext options table key base ours theirs)
  unfolding merge_rows
  judge_rows none none =
      silent none none false false (inr (inr (inr (refl, refl, refl, refl))))
        (not-Contested none none)
  judge_rows (some ours) none =
      passed (some ours) none false false (some ours, none)
        (silent_other ext options table key base ours) (not-Contested (some ours) none)
        (not-Gone (some ours) none (λ (n, _). cc n))
  judge_rows none (some theirs) =
      passed none (some theirs) false false (some theirs, none)
        (silent_other ext options table key base theirs) (not-Contested none (some theirs))
        (not-Gone none (some theirs) (λ (_, n). cc n))
  judge_rows (some ours) (some theirs) =
      passed (some ours) (some theirs) false false
        (merge_both ext options table key base ours theirs)
        (both_other ext options table key base ours theirs)
        (not-Contested (some ours) (some theirs))
        (not-Gone (some ours) (some theirs) (λ (n, _). cc n))

  ours_alone :
      (ours theirs : Option Row)
      → Edited table base theirs
      → Contested ours theirs true false × (¬ Gone ours theirs true false)
  ours_alone ours theirs w = (
    inl (refl, refl, w),
    λ h. elim h [
      | inl (_, e) ↦ cc e
      | inr h ↦ elim h [
        | inl (_, _, n) ↦ n w
        | inr h ↦ elim h [ inl (e, _, _) ↦ cc e | inr (e, _, _, _) ↦ cc e ]
      ]
    ],
  )

  ours_alone_same :
      (ours theirs : Option Row)
      → ¬ Edited table base theirs
      → Gone ours theirs true false × (¬ Contested ours theirs true false)
  ours_alone_same ours theirs n =
      (inr (inl (refl, refl, n)), λ h. elim h [ inl (_, _, w) ↦ n w | inr (e, _, _) ↦ cc e ])

  theirs_alone :
      (ours theirs : Option Row)
      → Edited table base ours
      → Contested ours theirs false true × (¬ Gone ours theirs false true)
  theirs_alone ours theirs w = (
    inr (refl, refl, w),
    λ h. elim h [
      | inl (e, _) ↦ cc e
      | inr h ↦ elim h [
        | inl (e, _, _) ↦ cc e
        | inr h ↦ elim h [ inl (_, _, n) ↦ n w | inr (_, e, _, _) ↦ cc e ]
      ]
    ],
  )

  theirs_alone_same :
      (ours theirs : Option Row)
      → ¬ Edited table base ours
      → Gone ours theirs false true × (¬ Contested ours theirs false true)
  theirs_alone_same ours theirs n =
      (inr (inr (inl (refl, refl, n))), λ h. elim h [ inl (e, _, _) ↦ cc e | inr (_, _, w) ↦ n w ])

  -- The merge of a key leaves no row and no note exactly when both sides deleted the row, or one did and the other
  -- has it not edited, or neither did and neither has it. It records a conflict between a delete and an edit exactly
  -- when one side alone deleted the row and the other has it edited, and then ours stays as it was. A row is edited
  -- where the base has none under the key, or one of other content.
  pub merge_key-deleted :
      (ours theirs : Option Row) (our_deleted their_deleted : Bool)
      → Judged ours theirs our_deleted their_deleted
          (merge_key ext options table key base ours theirs our_deleted their_deleted)
  unfolding merge_key resolve_delete_vs_edit
  merge_key-deleted ours theirs true true =
      silent ours theirs true true (inl (refl, refl))
        (λ h. elim h [ inl (_, e, _) ↦ cc e | inr (e, _, _) ↦ cc e ])
  merge_key-deleted ours theirs true false =
      judge_one ours theirs theirs true false (ours_alone ours theirs) (ours_alone_same ours theirs)
  merge_key-deleted ours theirs false true =
      judge_one ours theirs ours false true (theirs_alone ours theirs)
        (theirs_alone_same ours theirs)
  merge_key-deleted ours theirs false false = judge_rows ours theirs
