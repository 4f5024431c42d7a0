-- ===== src/Merge/Loop/Commute.antt =====
-- The merge of a table does not depend on which side is ours.
use carryctx.Base.{
  String, Bool, true, false, ◌||◌, Option, none, some, ◌≡◌, inl, inr, refl, sym, arith, eq_iff,
  Bool-cases,
}
use mathlib.Core.Bool.{false≢true}
use carryctx.Merge.{
  Row, get, frame, content_eq, is_immutable, as_text, row_eq, External, MergeOptions,
}
use carryctx.Merge.Frame.{content_eq_iff, row_eq_iff}
use carryctx.Merge.Elect.{Note, auto, conflict, canonical_frame, elect}
use carryctx.Merge.Symmetric.{Agree, elect-Agree, frame-overlay}
use carryctx.Merge.Table.{
  Outcome, changed, blocked, delete_or_conflict, resolve_delete_vs_edit, kind_winner,
  dependency_kind_election, frame_without_kind, merge_immutable, merge_both, merge_rows, merge_key,
}
use carryctx.Merge.Loop.{Sides, merge_at}

-- The same content, or no row on either side.
abbrev pub SameRow : String → Option Row → Option Row → Type 0
SameRow table none none = Unit
SameRow table (some a) (some b) = frame table a ≡ frame table b
SameRow table _ _ = ⊥

-- The same row with the same resolution, or conflicts of one kind on one row.
abbrev pub Agrees : String → Outcome → Outcome → Type 0
Agrees table (r, none) (q, none) = SameRow table r q
Agrees table (r, some (auto x)) (q, some (auto y)) = SameRow table r q × (x ≡ y)
Agrees table (r, some (conflict x)) (q, some (conflict y)) =
    (x.kind ≡ y.kind) × (x.table ≡ y.table) × (x.key ≡ y.key)
Agrees table _ _ = ⊥

SameRow-refl : (table : String) (r : Option Row) → SameRow table r r
SameRow-refl table none = tt
SameRow-refl table (some a) = refl

from-Agree :
    (table : String) (x y : Row × Note)
    → Agree table x y
    → Agrees table (some x.0, some x.1) (some y.0, some y.1)
unfolding Agree
from-Agree table (a, auto x) (b, auto y) h = h
from-Agree table (a, conflict x) (b, conflict y) h = h
from-Agree table (a, auto x) (b, conflict y) h = absurd h
from-Agree table (a, conflict x) (b, auto y) h = absurd h

delete_or_conflict-Agrees :
    (table key : String) (base ours theirs other : Option Row)
    → Agrees table
        (delete_or_conflict table key base ours theirs other)
        (delete_or_conflict table key base theirs ours other)
unfolding delete_or_conflict blocked
delete_or_conflict-Agrees table key base ours theirs none = tt
delete_or_conflict-Agrees table key base ours theirs (some r) =
    elim (Bool-cases (changed table r base)) [
      | inl edited ↦ rw edited (refl, refl, refl)
      | inr same ↦ rw same tt
    ]

resolve_delete_vs_edit-Agrees :
    (table key : String) (base ours theirs : Option Row) (a b : Bool)
    → (a || b) ≡ true
    → Agrees table
        (resolve_delete_vs_edit table key base ours theirs a b)
        (resolve_delete_vs_edit table key base theirs ours b a)
unfolding resolve_delete_vs_edit
resolve_delete_vs_edit-Agrees table key base ours theirs true true h = tt
resolve_delete_vs_edit-Agrees table key base ours theirs true false h =
    delete_or_conflict-Agrees table key base ours theirs theirs
resolve_delete_vs_edit-Agrees table key base ours theirs false true h =
    delete_or_conflict-Agrees table key base ours theirs ours
resolve_delete_vs_edit-Agrees table key base ours theirs false false h = cc

row_eq-swap : (a b : Row) → row_eq a b ≡ row_eq b a
row_eq-swap a b = ground (arith, row_eq_iff a b, row_eq_iff b a)

kind_winner-swap :
    (table : String) (ours theirs : Row) (a b : Option String)
    → kind_winner table ours theirs a b ≡ kind_winner table theirs ours b a
unfolding kind_winner
kind_winner-swap table ours theirs none none = refl
kind_winner-swap table ours theirs none (some b) = refl
kind_winner-swap table ours theirs (some a) none = refl
kind_winner-swap table ours theirs (some a) (some b) =
    rw (row_eq-swap (frame_without_kind table ours) (frame_without_kind table theirs)) (
      ground (
        arith,
        eq_iff a b,
        eq_iff b a,
        eq_iff a "strong",
        eq_iff b "strong",
        eq_iff a "informational",
        eq_iff b "informational",
      ))

dependency_kind_election-swap :
    (table : String) (ours theirs : Row)
    → dependency_kind_election table ours theirs ≡ dependency_kind_election table theirs ours
unfolding dependency_kind_election
dependency_kind_election-swap table ours theirs =
    rw
      (kind_winner-swap table ours theirs (as_text (get "kind" ours)) (as_text (get "kind" theirs)))
      refl

-- Two rows that both have the content of the base have one content.
nothing_changed :
    (table : String) (ours theirs : Row) (base : Option Row)
    → content_eq table ours theirs ≡ false
    → changed table ours base ≡ false
    → changed table theirs base ≡ false
    → ⊥
unfolding changed
nothing_changed table ours theirs none d a b = false≢true (sym a)
nothing_changed table ours theirs (some r) d a b = ground (
  arith,
  d,
  a,
  b,
  content_eq_iff table ours theirs,
  content_eq_iff table ours r,
  content_eq_iff table theirs r,
)

-- Canonical texts tell the contents of the two rows apart.
abbrev pub Tells : External → String → Row → Row → Type 0
Tells ext table ours theirs =
    canonical_frame ext table ours ≡ canonical_frame ext table theirs
    → frame table ours ≡ frame table theirs

module _ (ext : External) (options : MergeOptions) (table key : String) (base : Option Row) where
  merge_immutable-Agrees :
      (ours theirs : Row) (elected : Option Row)
      → Agrees table
          (merge_immutable ext options table key base ours theirs elected)
          (merge_immutable ext options table key base theirs ours elected)
  unfolding merge_immutable blocked
  merge_immutable-Agrees ours theirs none = (refl, refl, refl)
  merge_immutable-Agrees ours theirs (some w) = (refl, refl)

  merge_both-Agrees :
      (ours theirs : Row)
      → Tells ext table ours theirs
      → Agrees table
          (merge_both ext options table key base ours theirs)
          (merge_both ext options table key base theirs ours)
  unfolding merge_both
  merge_both-Agrees ours theirs tells =
      let other : content_eq table theirs ours ≡ content_eq table ours theirs =
        ground (arith, content_eq_iff table ours theirs, content_eq_iff table theirs ours) in
      elim (Bool-cases (content_eq table ours theirs)) [
        | inl equal ↦ rw (other, equal) ((content_eq_iff table ours theirs).0 equal)
        | inr differ ↦ elim (Bool-cases (is_immutable table)) [
          | inl fixed ↦
              rw (other, differ, fixed, dependency_kind_election-swap table theirs ours)
                (merge_immutable-Agrees ours theirs (dependency_kind_election table ours theirs))
          | inr free ↦ elim (Bool-cases (changed table ours base)) [
            | inl a ↦ elim (Bool-cases (changed table theirs base)) [
              | inl b ↦
                  rw (other, differ, free, a, b)
                    (from-Agree table (elect ext options table key base ours theirs)
                      (elect ext options table key base theirs ours)
                      (elect-Agree ext options table key base ours theirs
                        (λ e. cc (differ, (content_eq_iff table ours theirs).1 (tells e)))))
              | inr b ↦ rw (other, differ, free, a, b) (sym (frame-overlay table ours theirs))
            ]
            | inr a ↦ elim (Bool-cases (changed table theirs base)) [
              | inl b ↦ rw (other, differ, free, a, b) (frame-overlay table theirs ours)
              | inr b ↦ absurd (nothing_changed table ours theirs base differ a b)
            ]
          ]
        ]
      ]

  merge_key-Agrees :
      (ours theirs : Option Row) (a b : Bool)
      → ((o t : Row) → ours ≡ some o → theirs ≡ some t → Tells ext table o t)
      → Agrees table
          (merge_key ext options table key base ours theirs a b)
          (merge_key ext options table key base theirs ours b a)
  unfolding merge_key merge_rows
  merge_key-Agrees ours theirs true true tells =
      resolve_delete_vs_edit-Agrees table key base ours theirs true true refl
  merge_key-Agrees ours theirs true false tells =
      resolve_delete_vs_edit-Agrees table key base ours theirs true false refl
  merge_key-Agrees ours theirs false true tells =
      resolve_delete_vs_edit-Agrees table key base ours theirs false true refl
  merge_key-Agrees none none false false tells = tt
  merge_key-Agrees (some o) none false false tells = refl
  merge_key-Agrees none (some t) false false tells = refl
  merge_key-Agrees (some o) (some t) false false tells = merge_both-Agrees o t (tells o t refl refl)

-- The sides the other way round.
abbrev pub swapped : Sides → Sides
swapped s = record s {
  ours = s.theirs;
  theirs = s.ours;
  our_tombstones = s.their_tombstones;
  their_tombstones = s.our_tombstones;
}

-- Where canonical texts tell apart the contents that the two sides have under one key, the merge of a table
-- does not depend on which side is ours: at every key the two merges give rows of the same content, or no row,
-- and record the same resolution or nothing, or else both record a conflict of one kind on that key.
pub merge_at-Agrees :
    (ext : External) (options : MergeOptions) (table : String) (s : Sides)
    → ((k : String) (o t : Row)
        → get k s.ours ≡ some o
        → get k s.theirs ≡ some t
        → Tells ext table o t)
    → (k : String)
    → Agrees table (merge_at ext options table s k) (merge_at ext options table (swapped s) k)
unfolding merge_at
merge_at-Agrees ext options table s tells k =
    merge_key-Agrees ext options table k (get k s.base) (get k s.ours) (get k s.theirs) _ _
      (tells k)
