-- ===== src/Merge/Symmetric.antt =====
-- An election does not depend on which side is ours.
use carryctx.Base.{
  ℕ, String, Bool, true, false, not, Option, none, some, List, [], ◌∷◌, ◌≡◌, ◌≢◌, refl, sym, ap,
  subst, ◌∙◌, arith, ◌==◌, eq_iff, eq_refl, text_lt-either, if◌then◌else◌, contains,
}
use carryctx.Merge.{
  Value, Row, monotonic_columns, get, machine_local_columns, is_framed, frame, External,
  MergeOptions,
}
use carryctx.Merge.Frame.{frame-insert}
use carryctx.Merge.Elect.{
  canonical_frame, tie_break, by_time, lww, parse_instant, copy_columns, overlay_machine_local,
  elected_row, fill_all, copy_value, Note, auto, conflict, resolved, conflicting, elect_by_edit,
  edit_resolved, elect_task, elect, status, is_terminal_status,
}

abbrev swap : Row × Row → Row × Row
swap (a, b) = (b, a)

module _ (ext : External) (table : String) (ours theirs : Row)
    (differ : canonical_frame ext table ours ≢ canonical_frame ext table theirs) where
  tie_break-swap : tie_break ext table ours theirs ≡ tie_break ext table theirs ours
  unfolding tie_break
  tie_break-swap = ground (
    arith,
    differ,
    text_lt-either (canonical_frame ext table ours) (canonical_frame ext table theirs) differ,
    eq_iff (canonical_frame ext table ours) (canonical_frame ext table theirs),
    eq_iff (canonical_frame ext table theirs) (canonical_frame ext table ours),
  )

  by_time-swap :
      (a b : Option ℕ) → by_time ext table ours theirs a b ≡ by_time ext table theirs ours b a
  unfolding by_time
  by_time-swap none none = tie_break-swap
  by_time-swap none (some b) = tie_break-swap
  by_time-swap (some a) none = tie_break-swap
  by_time-swap (some a) (some b) = ground (arith, tie_break-swap)

  -- Of two rows with different canonical contents the same one wins, and the same one loses, whichever
  -- side is ours.
  pub lww-swap : lww ext table ours theirs ≡ lww ext table theirs ours
  unfolding lww
  lww-swap =
      by_time-swap (parse_instant ext "updated_at" ours) (parse_instant ext "updated_at" theirs)

frame-copy_value :
    (table c : String) (found : Option Value) (row : Row)
    → is_framed table c ≡ false
    → frame table (copy_value c found row) ≡ frame table row
frame-copy_value table c none row h = refl
frame-copy_value table c (some v) row h = frame-insert table c v row h

frame-copy_columns :
    (table : String) (ours : Row) (columns : List String) (row : Row)
    → ((c : String) → contains columns c ≡ true → is_framed table c ≡ false)
    → frame table (copy_columns ours columns row) ≡ frame table row
unfolding copy_columns
frame-copy_columns table ours [] row h = refl
frame-copy_columns table ours (c ∷ columns) row h =
    frame-copy_columns table ours columns (copy_value c (get c ours) row)
      (λ d m. h d (ground (arith, m)))
    ∙ frame-copy_value table c (get c ours) row (h c (rw (eq_refl c) refl))

local_not_framed :
    (table c : String) → contains (machine_local_columns table) c ≡ true → is_framed table c ≡ false
unfolding is_framed
local_not_framed table c h = rw h refl

-- The machine-local columns of ours leave no trace in the content.
pub frame-overlay :
    (table : String) (row ours : Row)
    → frame table (overlay_machine_local table row ours) ≡ frame table row
unfolding overlay_machine_local
frame-overlay table row ours =
    frame-copy_columns table ours (machine_local_columns table) row (local_not_framed table)

frame-elected_row :
    (table : String) (winner loser ours : Row)
    → frame table (elected_row table winner loser ours)
      ≡ frame table (fill_all loser monotonic_columns winner)
unfolding elected_row
frame-elected_row table winner loser ours =
    frame-overlay table (fill_all loser monotonic_columns winner) ours

-- Two results of an election on the two sides of a merge: the same resolution with rows of the same
-- content, or conflicts of the same kind on the same row.
unfoldable pub Agree : String → Row × Note → Row × Note → Type 0
unfolding frame
Agree table (a, auto x) (b, auto y) = (frame table a ≡ frame table b) × (x ≡ y)
Agree table (a, conflict x) (b, conflict y) =
    (x.kind ≡ y.kind) × (x.table ≡ y.table) × (x.key ≡ y.key)
Agree table (a, auto x) (b, conflict y) = ⊥
Agree table (a, conflict x) (b, auto y) = ⊥

module _ (ext : External) (table key : String) where
  resolved-Agree :
      (kind : String) (winner loser ours theirs : Row)
      → Agree table
          (resolved ext table key kind (elected_row table winner loser ours))
          (resolved ext table key kind (elected_row table winner loser theirs))
  unfolding resolved Agree
  resolved-Agree kind winner loser ours theirs =
      let e =
        frame-elected_row table winner loser ours
        ∙ sym (frame-elected_row table winner loser theirs) in
      (
        e,
        ap
            (λ f. record {
              table = table;
              key = key;
              kind = kind;
              winner = ext.sha256_hex (ext.to_json f);
            })
            e,
      )

  conflicting-Agree :
      (kind : String) (base : Option Row) (ours theirs : Row)
      → Agree table
          (conflicting ext table key kind base ours theirs)
          (conflicting ext table key kind base theirs ours)
  unfolding conflicting Agree
  conflicting-Agree kind base ours theirs = (refl, refl, refl)

  edit_resolved-Agree :
      (ours theirs : Row) (p q : Row × Row)
      → p ≡ q
      → Agree table (edit_resolved ext table key ours p) (edit_resolved ext table key theirs q)
  unfolding edit_resolved
  edit_resolved-Agree ours theirs p q e =
      subst
        (λ r.
          Agree table (edit_resolved ext table key ours p) (edit_resolved ext table key theirs r))
        e (resolved-Agree "row_edit" p.0 p.1 ours theirs)

Agree-if :
    (table : String) (b : Bool) (x y x' y' : Row × Note)
    → Agree table x x'
    → Agree table y y'
    → Agree table (if b then x else y) (if b then x' else y')
Agree-if table true x y x' y' p q = p
Agree-if table false x y x' y' p q = q

eq-swap : (a b : String) → (a == b) ≡ (b == a)
eq-swap a b = ground (arith, eq_iff a b, eq_iff b a)

module _ (ext : External) (options : MergeOptions) (table key : String) (base : Option Row)
    (ours theirs : Row)
    (differ : canonical_frame ext table ours ≢ canonical_frame ext table theirs) where
  elect_by_edit-Agree :
      Agree table
        (elect_by_edit ext options table key base ours theirs)
        (elect_by_edit ext options table key base theirs ours)
  unfolding elect_by_edit
  elect_by_edit-Agree =
      Agree-if table options.strict_edits _ _ _ _
        (conflicting-Agree ext table key "row_edit" base ours theirs)
        (edit_resolved-Agree ext table key ours theirs _ _ (lww-swap ext table ours theirs differ))

  elect_task-Agree :
      (a b gap : Bool)
      → Agree table
          (elect_task ext options table key base ours theirs a b gap)
          (elect_task ext options table key base theirs ours b a gap)
  unfolding elect_task
  elect_task-Agree true true gap =
      Agree-if table gap _ _ _ _ (conflicting-Agree ext table key "status_gap" base ours theirs)
        elect_by_edit-Agree
  elect_task-Agree true false gap =
      resolved-Agree ext table key "status_terminal" ours theirs ours theirs
  elect_task-Agree false true gap =
      resolved-Agree ext table key "status_terminal" theirs ours ours theirs
  elect_task-Agree false false gap = elect_by_edit-Agree

-- An election between two rows of different canonical content has the same outcome whichever side is
-- ours: the same resolution, with a winner of the same content, or a conflict of the same kind on the
-- same row.
pub elect-Agree :
    (ext : External) (options : MergeOptions) (table key : String) (base : Option Row)
    (ours theirs : Row)
    → canonical_frame ext table ours ≢ canonical_frame ext table theirs
    → Agree table
        (elect ext options table key base ours theirs)
        (elect ext options table key base theirs ours)
unfolding elect
elect-Agree ext options table key base ours theirs differ =
    Agree-if table (table == "tasks") _ _ _ _
      (rw (eq-swap (status ours) (status theirs)) (
        elect_task-Agree ext options table key base ours theirs differ
          (is_terminal_status (status ours)) (is_terminal_status (status theirs))
          (not (status theirs == status ours))))
      (elect_by_edit-Agree ext options table key base ours theirs differ)
