-- ===== src/Merge/Sequences.antt =====
-- `merge_sequences` of merge/mod.rs: the display-id counters of three sides.
use carryctx.Base.{
  ℕ, String, Option, none, some, List, [], ◌∷◌, ◌++◌, ◌≡◌, refl, sym, ap, ◌∙◌, arith, ◌==◌, eq_iff,
  Bool-cases, inl, inr, if◌then◌else◌, ltb,
}
use carryctx.Cleanup.{concat}
use carryctx.Merge.{Value, number, Row, get, insert, as_text}
use carryctx.Merge.Facts.{get-insert}

abbrev as_u64 : Option Value → Option ℕ
as_u64 none = none
as_u64 (some v) = elim v [ number n ↦ some n | _ ↦ none ]

abbrev pub or_empty : Option String → String
or_empty none = ""
or_empty (some s) = s

abbrev or_one : Option ℕ → ℕ
or_one none = 1
or_one (some n) = n

unfoldable pub next_of : Row → ℕ
unfolding get
next_of row = or_one (as_u64 (get "next_value" row))

unfoldable pub sequence_key : Row → String
unfolding get concat
sequence_key row =
    concat (or_empty (as_text (get "project_id" row)))
      (concat "\u{1}" (or_empty (as_text (get "kind" row))))

unfoldable pub with_next : ℕ → Row → Row
unfolding insert
with_next n row = insert "next_value" (number n) row

abbrev pub raise : ℕ → Row → Option Row → Row
raise next row none = with_next next row
raise next row (some existing) =
    if ltb (next_of existing) next then with_next next existing else existing

-- The body of the loop. An entry that is not raised is written back as it is.
unfoldable pub add_sequence : List (String × Row) → Row → List (String × Row)
add_sequence index row =
    insert (sequence_key row) (raise (next_of row) row (get (sequence_key row) index)) index

unfoldable pub add_all : List (String × Row) → List Row → List (String × Row)
add_all index [] = index
add_all index (row ∷ rows) = add_all (add_sequence index row) rows

-- The rows of the base, if there is one, of ours and of theirs, by their keys.
unfoldable pub merge_sequences : List Row → List Row → List Row → List (String × Row)
merge_sequences base ours theirs = add_all [] (base ++ ours ++ theirs)

abbrev count_of : Option Row → Option ℕ
count_of none = none
count_of (some row) = some (next_of row)

-- The counter of a key.
unfoldable pub counter : String → List (String × Row) → Option ℕ
unfolding get
counter key index = count_of (get key index)

-- The higher of two counters.
unfoldable pub higher : Option ℕ → Option ℕ → Option ℕ
higher none b = b
higher (some a) none = some a
higher (some a) (some b) = some (if ltb a b then b else a)

-- The highest counter of a key among rows.
unfoldable pub highest : String → List Row → Option ℕ
highest key [] = none
highest key (row ∷ rows) =
    let rest = highest key rows in
    if key == sequence_key row then higher (some (next_of row)) rest else rest

next_of-with_next : (n : ℕ) (row : Row) → next_of (with_next n row) ≡ n
unfolding next_of with_next
next_of-with_next n row =
    ap (λ v. or_one (as_u64 v)) (get-insert "next_value" "next_value" (number n) row)

higher_assoc : (a b c : Option ℕ) → higher (higher a b) c ≡ higher a (higher b c)
unfolding higher
higher_assoc none b c = refl
higher_assoc (some a) none c = refl
higher_assoc (some a) (some b) none = refl
higher_assoc (some a) (some b) (some c) = ground arith

higher_comm : (a b : Option ℕ) → higher a b ≡ higher b a
unfolding higher
higher_comm none none = refl
higher_comm none (some b) = refl
higher_comm (some a) none = refl
higher_comm (some a) (some b) = ground arith

count_of-raise :
    (n : ℕ) (row : Row) (found : Option Row)
    → count_of (some (raise n row found)) ≡ higher (count_of found) (some n)
unfolding higher
count_of-raise n row none = ap some (next_of-with_next n row)
count_of-raise n row (some existing) = elim (Bool-cases (ltb (next_of existing) n)) [
  | inl up ↦ rw up (ap some (next_of-with_next n existing))
  | inr stay ↦ rw stay refl
]

counter-add_sequence :
    (key : String) (index : List (String × Row)) (row : Row)
    → counter key (add_sequence index row) ≡ (
        if key == sequence_key row
        then higher (counter key index) (some (next_of row))
        else counter key index)
unfolding counter add_sequence
counter-add_sequence key index row =
    let found =
      get-insert key (sequence_key row) (raise (next_of row) row (get (sequence_key row) index))
        index in
    elim (Bool-cases (key == sequence_key row)) [
      | inl same ↦
          let k = (eq_iff key (sequence_key row)).0 same in
          ap count_of found
          ∙ rw same (
              count_of-raise (next_of row) row (get (sequence_key row) index)
              ∙ ap (λ x. higher (count_of (get x index)) (some (next_of row))) (sym k))
      | inr differ ↦ ap count_of found ∙ rw differ refl
    ]

counter-add_all :
    (key : String) (rows : List Row) (index : List (String × Row))
    → counter key (add_all index rows) ≡ higher (counter key index) (highest key rows)
unfolding add_all highest counter higher
counter-add_all key [] index = higher_comm none (counter key index)
counter-add_all key (row ∷ rows) index =
    counter-add_all key rows (add_sequence index row)
    ∙ ap (λ x. higher x (highest key rows)) (counter-add_sequence key index row)
    ∙ elim (Bool-cases (key == sequence_key row)) [
      | inl same ↦
          rw same (higher_assoc (counter key index) (some (next_of row)) (highest key rows))
      | inr differ ↦ rw differ refl
    ]

-- The merged counter of every key is the highest that any side has, and a key that no side has gets none:
-- a counter never goes back.
pub counter-merge_sequences :
    (base ours theirs : List Row) (key : String)
    → counter key (merge_sequences base ours theirs) ≡ highest key (base ++ ours ++ theirs)
unfolding merge_sequences counter higher
counter-merge_sequences base ours theirs key = counter-add_all key (base ++ ours ++ theirs) []
