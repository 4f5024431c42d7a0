-- ===== src/Examples/Renumbering.antt =====
-- The renumbering at two tasks that both sides have numbered alike.
use carryctx.Base.{ℕ, String, some, [], ◌∷◌, ◌≡◌, inl, All, refl, subst, arith, trim, eq_iff}
use carryctx.Merge.{Row, text, number}
use carryctx.Merge.Tombstones.{TableSet, text_of}
use carryctx.Merge.Aliases.Redirect.{rows_of}
use carryctx.Merge.Renumber.{
  DisplayKind, display_tables, display_id, display_kind, sequence_state, next_number, floor,
  number_at,
}
use carryctx.Merge.Renumber.Fresh.{Distinct}
use carryctx.Merge.Renumber.HighWater.{Numbered}
use carryctx.Merge.Renumber.Tables.{plan_display_renumbers, renumber_tables, display_high_water}
use carryctx.Merge.Renumber.Project.{
  Unspent, stated, observed, final_counters, plan_display_renumbers-Distinct,
}
use carryctx.Examples.Merging.{plain}

abbrev task : String → String → Row
task id display = ("display_id", text display) ∷ ("id", text id) ∷ ("project_id", text "p") ∷ []

abbrev sequence : ℕ → Row
sequence n =
    ("kind", text "display_id_CTX") ∷ ("next_value", number n) ∷ ("project_id", text "p") ∷ []

abbrev twice : TableSet
twice =
    ("sequences", sequence 5 ∷ [])
    ∷ ("tasks", task "01A" "CTX-0001" ∷ task "01B" "CTX-0001" ∷ [])
    ∷ []

renumbered : plan_display_renumbers plain twice ≡ (
  ("sequences", sequence 6 ∷ [])
      ∷ ("tasks", task "01A" "CTX-0001" ∷ task "01B" "CTX-0005" ∷ [])
      ∷ [],
  record { table = "tasks"; row_id = "01B"; display_id = "CTX-0001"; new_display_id = "CTX-0005" }
      ∷ [],
)
unfolding plan_display_renumbers trim
renumbered = refl

abbrev ctx : DisplayKind
ctx = record { kind = "display_id_CTX"; prefix = "CTX"; width = 4 }

same_display : (id d : String) → display_id (task id "CTX-0001") ≡ some d → "CTX-0001" ≡ d
unfolding display_id
same_display id d h = cc

splits_one : display_kind "tasks" "CTX-0001" ≡ some ctx
unfolding display_kind trim
splits_one = refl

splits :
    (id d : String)
    → display_id (task id "CTX-0001") ≡ some d
    → (k : DisplayKind) × (display_kind "tasks" d ≡ some k)
splits id d h =
    (ctx, subst (λ x. display_kind "tasks" x ≡ some ctx) (same_display id d h) splits_one)

rows_hold : All (λ t. All (Numbered "p" t) (rows_of t twice)) display_tables
unfolding rows_of text_of
rows_hold = (((refl, splits "01A"), ((refl, splits "01B"), tt)), (tt, (tt, (tt, tt))))

counters : final_counters plain twice ≡ (("p", "display_id_CTX"), 6) ∷ []
unfolding renumber_tables display_high_water sequence_state rows_of trim
counters = refl

stated_five : stated twice ≡ (("p", "display_id_CTX"), 5) ∷ []
unfolding sequence_state rows_of
stated_five = refl

observed_one : observed twice ≡ (("p", "display_id_CTX"), 1) ∷ []
unfolding display_high_water trim
observed_one = refl

room : Unspent (stated twice) (observed twice) "p" (final_counters plain twice)
unfolding next_number floor number_at
room kind = rw (counters, stated_five, observed_one) (ground (arith, eq_iff kind "display_id_CTX"))

plan_display_renumbers-Distinct_example :
    Distinct (rows_of "tasks" (plan_display_renumbers plain twice).0)
plan_display_renumbers-Distinct_example =
    plan_display_renumbers-Distinct plain twice "p" "tasks" rows_hold room (inl refl)
