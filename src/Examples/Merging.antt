-- ===== src/Examples/Merging.antt =====
-- The theorems on the merge engine, at concrete rows.
use carryctx.Base.{ℕ, String, true, false, none, some, [], ◌∷◌, ◌++◌, ◌≡◌, ◌≢◌, refl, eq_iff}
use carryctx.Merge.{Value, null, text, number, Row, get, External, MergeOptions}
use carryctx.Merge
use carryctx.Merge.Elect.{canonical_frame, elected_row}
use carryctx.Merge.Facts.{either_fact, get-elected_row}
use carryctx.Merge.Table.{merge_both, merge_key}
use carryctx.Merge.ThreeWay.{TakenFrom, merge_both-kept, merge_both-taken}
use carryctx.Merge.Deletes.{Judged, merge_key-deleted}
use carryctx.Merge.Sequences.{counter, highest, merge_sequences, counter-merge_sequences}

-- A serialisation that shows the first text of a row, and instants that are all unreadable.
abbrev first_text : Row → String
first_text [] = ""
first_text (column ∷ row) = elim column.1 [ text s ↦ s | _ ↦ "-" ]

abbrev pub plain : External
plain = record {
  to_json = first_text;
  parts_to_json = λ parts. "-";
  value_to_json = λ v. "-";
  sha256_hex = λ s. s;
  parse_from_rfc3339 = λ s. none;
}

abbrev pub lenient : MergeOptions
lenient = record { strict_edits = false; require_base = false }

abbrev pub row_at : String → Value → Row
row_at status started = ("status", text status) ∷ ("started_at", started) ∷ []

differ :
    canonical_frame plain "tasks" (row_at "completed" null)
    ≢ canonical_frame plain "tasks" (row_at "ready" (text "t1"))
unfolding canonical_frame Merge.frame Merge.machine_local_columns Merge.identity_columns
differ h = cc ((eq_iff "completed" "ready").1 h)

get-elected_row_example :
    get "started_at" (
      elected_row "tasks"
        (row_at "completed" null)
        (row_at "ready" (text "t1"))
        (row_at "ready" (text "t1")))
    ≡ either_fact
        (get "started_at" (row_at "completed" null))
        (get "started_at" (row_at "ready" (text "t1")))
get-elected_row_example =
    get-elected_row "tasks" "started_at" (row_at "completed" null) (row_at "ready" (text "t1"))
      (row_at "ready" (text "t1")) refl

merge_key-deleted_example :
    Judged plain lenient "tasks" "01A" none none
      (some (row_at "ready" null))
      true
      false
      (merge_key plain lenient "tasks" "01A" none none (some (row_at "ready" null)) true false)
merge_key-deleted_example =
    merge_key-deleted plain lenient "tasks" "01A" none none (some (row_at "ready" null)) true false

abbrev sequence_at : ℕ → Row
sequence_at n =
    ("kind", text "display_id_CTX") ∷ ("next_value", number n) ∷ ("project_id", text "p") ∷ []

counter-merge_sequences_example :
    counter "p" (merge_sequences [] (sequence_at 4 ∷ []) (sequence_at 7 ∷ []))
    ≡ highest "p" ([] ++ (sequence_at 4 ∷ []) ++ (sequence_at 7 ∷ []))
counter-merge_sequences_example =
    counter-merge_sequences [] (sequence_at 4 ∷ []) (sequence_at 7 ∷ []) "p"

mutable : Merge.is_immutable "tasks" ≡ false
unfolding Merge.is_immutable
mutable = refl

merge_both-kept_example : TakenFrom "tasks" (row_at "review" null) (
    merge_both plain lenient "tasks" "01A"
      (some (row_at "ready" null))
      (row_at "review" null)
      (row_at "ready" null))
merge_both-kept_example =
    merge_both-kept plain lenient "tasks" "01A" (row_at "ready" null) (row_at "review" null)
      (row_at "ready" null) mutable refl

merge_both-taken_example : TakenFrom "tasks" (row_at "review" null) (
    merge_both plain lenient "tasks" "01A"
      (some (row_at "ready" null))
      (row_at "ready" null)
      (row_at "review" null))
merge_both-taken_example =
    merge_both-taken plain lenient "tasks" "01A" (row_at "ready" null) (row_at "ready" null)
      (row_at "review" null) mutable refl
