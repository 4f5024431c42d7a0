-- ===== src/Merge/Deletes/Notes.antt =====
-- What the merge of a row that no side deleted records: never a conflict with a delete (merge/mod.rs).
use carryctx.Base.{
  String, Bool, true, false, not, Option, none, some, ◌≡◌, ◌≢◌, refl, arith, inl, inr, Bool-cases,
  eq_iff, ◌==◌,
}
use carryctx.Merge.{Row, External, MergeOptions, Conflict, AutoResolution, content_eq, is_immutable}
use carryctx.Merge.Elect.{
  Note, conflict, auto, elect, elect_task, elect_by_edit, edit_resolved, resolved, conflicting, lww,
  elected_row, overlay_machine_local, is_terminal_status, status,
}
use carryctx.Merge.Table.{
  changed, Outcome, blocked, merge_both, merge_immutable, dependency_kind_election,
}

-- A note that is no conflict between a delete and an edit.
abbrev pub Other : Note → Type 0
Other note = (c : Conflict) → note ≡ conflict c → c.kind ≢ "delete_vs_edit"

-- An outcome that is neither such a conflict nor a key that is gone.
abbrev pub OtherOutcome : Outcome → Type 0
OtherOutcome outcome =
    ((row : Row) × (outcome.0 ≡ some row))
    × ((c : Conflict) → outcome.1 ≡ some (conflict c) → c.kind ≢ "delete_vs_edit")

module _ (ext : External) (options : MergeOptions) (table key : String) (base : Option Row) where
  Other-resolved : (kind : String) (row : Row) → Other (resolved ext table key kind row).1
  unfolding resolved
  Other-resolved kind row c e = cc e

  Other-conflicting :
      (kind : String) (ours theirs : Row)
      → kind ≢ "delete_vs_edit"
      → Other (conflicting ext table key kind base ours theirs).1
  unfolding conflicting
  Other-conflicting kind ours theirs ne c e same = ne (ground (arith, e, same))

  Other-edit_resolved :
      (ours : Row) (pair : Row × Row) → Other (edit_resolved ext table key ours pair).1
  unfolding edit_resolved
  Other-edit_resolved ours (winner, loser) =
      Other-resolved "row_edit" (elected_row table winner loser ours)

  Other-elect_by_edit :
      (ours theirs : Row) → Other (elect_by_edit ext options table key base ours theirs).1
  unfolding elect_by_edit
  Other-elect_by_edit ours theirs = elim (Bool-cases options.strict_edits) [
    | inl strict ↦ rw strict (Other-conflicting "row_edit" ours theirs (λ e. cc e))
    | inr lenient ↦ rw lenient (Other-edit_resolved ours (lww ext table ours theirs))
  ]

  Other-elect_task :
      (ours theirs : Row) (a b gap : Bool)
      → Other (elect_task ext options table key base ours theirs a b gap).1
  unfolding elect_task
  Other-elect_task ours theirs true true true =
      Other-conflicting "status_gap" ours theirs (λ e. cc e)
  Other-elect_task ours theirs true true false = Other-elect_by_edit ours theirs
  Other-elect_task ours theirs true false gap =
      Other-resolved "status_terminal" (elected_row table ours theirs ours)
  Other-elect_task ours theirs false true gap =
      Other-resolved "status_terminal" (elected_row table theirs ours ours)
  Other-elect_task ours theirs false false gap = Other-elect_by_edit ours theirs

  Other-elect : (ours theirs : Row) → Other (elect ext options table key base ours theirs).1
  unfolding elect
  Other-elect ours theirs = elim (Bool-cases (table == "tasks")) [
    | inl task ↦ rw task (
        Other-elect_task ours theirs (is_terminal_status (status ours))
          (is_terminal_status (status theirs)) (not (status ours == status theirs)))
    | inr no_task ↦ rw no_task (Other-elect_by_edit ours theirs)
  ]

  auto_other : (row : Row) (a : AutoResolution) → OtherOutcome (some row, some (auto a))
  auto_other row a = ((row, refl), λ c e. cc e)

  pub silent_other : (row : Row) → OtherOutcome (some row, none)
  silent_other row = ((row, refl), λ c e. cc e)

  elected-Other : (pair : Row × Note) → Other pair.1 → OtherOutcome (some pair.0, some pair.1)
  elected-Other pair o = ((pair.0, refl), λ c e. o c (ground (arith, e)))

  blocked_other :
      (kind : String) (ours theirs : Option Row)
      → kind ≢ "delete_vs_edit"
      → (c : Conflict) → blocked kind table key base ours theirs ≡ some (conflict c)
      → c.kind ≢ "delete_vs_edit"
  unfolding blocked
  blocked_other kind ours theirs ne c e same = ne (ground (arith, e, same))

  immutable_other :
      (ours theirs : Row) (kind : Option Row)
      → OtherOutcome (merge_immutable ext options table key base ours theirs kind)
  unfolding merge_immutable
  immutable_other ours theirs none = (
    (ours, refl),
    blocked_other "immutable_edit" (some ours) (some theirs)
        (λ e. cc ((eq_iff "immutable_edit" "delete_vs_edit").1 e)),
  )
  immutable_other ours theirs (some row) = auto_other row _

  pub both_other :
      (ours theirs : Row) → OtherOutcome (merge_both ext options table key base ours theirs)
  unfolding merge_both
  both_other ours theirs = elim (Bool-cases (content_eq table ours theirs)) [
    | inl equal ↦ rw equal (silent_other ours)
    | inr differ ↦ elim (Bool-cases (is_immutable table)) [
      | inl fixed ↦
          rw (differ, fixed)
            (immutable_other ours theirs (dependency_kind_election table ours theirs))
      | inr mutable ↦ elim (Bool-cases (changed table ours base)) [
        | inl mine ↦ elim (Bool-cases (changed table theirs base)) [
          | inl yours ↦
              rw (differ, mutable, mine, yours)
                (elected-Other (elect ext options table key base ours theirs)
                  (Other-elect ours theirs))
          | inr same ↦ rw (differ, mutable, mine, same) (silent_other ours)
        ]
        | inr kept ↦
            rw (differ, mutable, kept) (silent_other (overlay_machine_local table theirs ours))
      ]
    ]
  ]
