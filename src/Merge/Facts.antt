-- ===== src/Merge/Facts.antt =====
-- The monotonic facts of two elected rows: a fact that either row has survives the election.
use carryctx.Base.{
  String, Bool, true, false, not, ◌&&◌, Option, none, some, List, [], ◌∷◌, ◌≡◌, refl, sym, ap, ◌∙◌,
  arith, ◌==◌, eq_iff, eq_refl, Bool-cases, Text-cases, inl, inr, text_lt, if◌then◌else◌, contains,
  all,
}
use carryctx.Merge.{Value, Row, get, insert, is_null, machine_local_columns, monotonic_columns}
use carryctx.Merge.Elect.{
  is_missing, insert_fact, fill, fill_all, copy_value, copy_columns, overlay_machine_local,
  elected_row,
}

pub get-insert :
    {A : Type 0} (c d : String) (v : A) (row : List (String × A))
    → get c (insert d v row) ≡ (if c == d then some v else get c row)
unfolding get insert
get-insert c d v [] = refl
get-insert c d v ((e, w) ∷ row) = elim (Bool-cases (d == e)) [
  | inl same ↦ ground (arith, same, (eq_iff d e).0 same)
  | inr differ ↦ elim (Bool-cases (text_lt d e)) [
    | inl before ↦ ground (arith, differ, before)
    | inr after ↦
        ground (arith, differ, after, get-insert c d v row, eq_iff d e, eq_iff c d, eq_iff c e)
  ]
]

-- The first fact, or else the second.
unfoldable pub either_fact : Option Value → Option Value → Option Value
either_fact a b = if is_missing a && not (is_missing b) then b else a

get-insert_fact :
    (c d : String) (found : Option Value) (row : Row)
    → get c (insert_fact d found row)
      ≡ (if c == d && not (is_missing found) then found else get c row)
get-insert_fact c d none row = ground arith
get-insert_fact c d (some v) row = elim (Bool-cases (is_null v)) [
  | inl n ↦ ground (arith, n)
  | inr y ↦ ground (arith, y, get-insert c d v row)
]

get-fill_same :
    (c : String) (loser row : Row)
    → get c (fill loser c row) ≡ either_fact (get c row) (get c loser)
unfolding fill either_fact
get-fill_same c loser row = ground (arith, get-insert_fact c c (get c loser) row, eq_refl c)

get-fill_other :
    (c d : String) (loser row : Row) → (c == d) ≡ false → get c (fill loser d row) ≡ get c row
unfolding fill
get-fill_other c d loser row differ = ground (arith, differ, get-insert_fact c d (get d loser) row)

either_fact-again : (a b : Option Value) → either_fact (either_fact a b) b ≡ either_fact a b
unfolding either_fact
either_fact-again a b = ground arith

get-fill_all_other :
    (c : String) (loser : Row) (columns : List String) (row : Row)
    → contains columns c ≡ false
    → get c (fill_all loser columns row) ≡ get c row
unfolding fill_all
get-fill_all_other c loser [] row h = refl
get-fill_all_other c loser (d ∷ columns) row h =
    get-fill_all_other c loser columns (fill loser d row) (ground (arith, h))
    ∙ get-fill_other c d loser row (ground (arith, h, eq_iff c d, eq_iff d c))

get-fill_all :
    (c : String) (loser : Row) (columns : List String) (row : Row)
    → contains columns c ≡ true
    → get c (fill_all loser columns row) ≡ either_fact (get c row) (get c loser)
unfolding fill_all
get-fill_all c loser [] row h = cc
get-fill_all c loser (d ∷ columns) row h = elim (Text-cases c d) [
  | inl same ↦ elim (Bool-cases (contains columns c)) [
    | inl more ↦
        get-fill_all c loser columns (fill loser d row) more
        ∙ ap (λ x. either_fact x (get c loser))
            (ap (λ x. get c (fill loser x row)) (sym same) ∙ get-fill_same c loser row)
        ∙ either_fact-again (get c row) (get c loser)
    | inr no_more ↦
        get-fill_all_other c loser columns (fill loser d row) no_more
        ∙ (ap (λ x. get c (fill loser x row)) (sym same) ∙ get-fill_same c loser row)
  ]
  | inr differ ↦
      get-fill_all c loser columns (fill loser d row) (ground (arith, h, differ, eq_iff d c))
      ∙ ap (λ x. either_fact x (get c loser))
          (get-fill_other c d loser row (ground (arith, differ, eq_iff c d)))
]

get-copy_value :
    (c d : String) (found : Option Value) (row : Row)
    → (c == d) ≡ false
    → get c (copy_value d found row) ≡ get c row
get-copy_value c d none row h = refl
get-copy_value c d (some v) row h = ground (arith, h, get-insert c d v row)

get-copy_columns :
    (c : String) (ours : Row) (columns : List String) (row : Row)
    → contains columns c ≡ false
    → get c (copy_columns ours columns row) ≡ get c row
unfolding copy_columns
get-copy_columns c ours [] row h = refl
get-copy_columns c ours (d ∷ columns) row h =
    get-copy_columns c ours columns (copy_value d (get d ours) row) (ground (arith, h))
    ∙ get-copy_value c d (get d ours) row (ground (arith, h, eq_iff c d, eq_iff d c))

all_at :
    (p : String → Bool) (xs : List String) (c : String)
    → all p xs ≡ true
    → contains xs c ≡ true
    → p c ≡ true
all_at p [] c h m = cc
all_at p (x ∷ xs) c h m = elim (Text-cases x c) [
  | inl same ↦ ground (arith, h, ap p same)
  | inr differ ↦ all_at p xs c (ground (arith, h)) (ground (arith, m, differ, eq_iff x c))
]

facts_not_local :
    (table : String)
    → all (λ d. not (contains (machine_local_columns table) d)) monotonic_columns ≡ true
unfolding machine_local_columns
facts_not_local table = elim (Bool-cases (table == "projects")) [
  | inl p ↦ rw p refl
  | inr np ↦ elim (Bool-cases (table == "worktrees")) [
    | inl w ↦ rw (np, w) refl
    | inr nw ↦ elim (Bool-cases (table == "sessions")) [
      | inl s ↦ rw (np, nw, s) refl
      | inr ns ↦ rw (np, nw, ns) refl
    ]
  ]
]

fact_not_local :
    (table c : String)
    → contains monotonic_columns c ≡ true
    → contains (machine_local_columns table) c ≡ false
fact_not_local table c h = ground (
  arith,
  all_at (λ d. not (contains (machine_local_columns table) d)) monotonic_columns c
      (facts_not_local table) h,
)

-- A monotonic column of an elected row is the winner's, or, where the winner lacks it or has it as null,
-- the loser's if the loser has it: a fact that one side has recorded is never lost to the other's null.
pub get-elected_row :
    (table c : String) (winner loser ours : Row)
    → contains monotonic_columns c ≡ true
    → get c (elected_row table winner loser ours) ≡ either_fact (get c winner) (get c loser)
unfolding elected_row overlay_machine_local
get-elected_row table c winner loser ours h =
    get-copy_columns c ours (machine_local_columns table) (fill_all loser monotonic_columns winner)
      (fact_not_local table c h)
    ∙ get-fill_all c loser monotonic_columns winner h
