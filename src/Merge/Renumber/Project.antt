-- ===== src/Merge/Renumber/Project.antt =====
-- The renumbering of a project's display tables: afterwards no two rows of a table have one display id.
use carryctx.Base.{
  ℕ, ◌≤◌, ◌<◌, String, false, Option, none, some, List, [], ◌∷◌, ◌≡◌, inl, inr, refl, sym, ap, ◌∙◌,
  subst, arith, ◌==◌, eq_iff, if◌then◌else◌, In, All,
}
use carryctx.Duration.{max_u64}
use carryctx.Merge.{Row, get, insert, External}
use carryctx.Merge.Facts.{get-insert}
use carryctx.Merge.Tables.{or_no_rows, rows_of-get, rows_of-same, get-other}
use carryctx.Merge.Tombstones.{TableSet}
use carryctx.Merge.Aliases.Redirect.{rows_of}
use carryctx.Merge.Renumber.{
  Counters, display_tables, next_number, renumber_groups, group_rows, sequence_state, number_at,
}
use carryctx.Merge.Renumber.Counters.{Respects}
use carryctx.Merge.Renumber.Fresh.{Distinct}
use carryctx.Merge.Renumber.Distinct.{renumber_groups-Rises, renumber_groups-Ran}
use carryctx.Merge.Renumber.Grouping.{Regular, group_rows-Grouped}
use carryctx.Merge.Renumber.HighWater.{Numbered, display_high_water-Regular}
use carryctx.Merge.Renumber.Tables.{
  Planned, renumber_table, renumber_tables, display_high_water, write_back_sequences,
  plan_display_renumbers,
}

-- Each table comes once.
abbrev pub Once : List String → Type 0
Once [] = Unit
Once (table ∷ tables) = All (λ other. (table == other) ≡ false) tables × Once tables

-- No counter of the project is at the largest 64-bit number.
abbrev pub Unspent : Counters → Counters → String → Counters → Type 0
Unspent sequences high_water project u =
    (kind : String) → next_number sequences high_water u (project, kind) < max_u64

module _ (ext : External) (sequences high_water : Counters) (project : String) where
  abbrev next : Counters → String → ℕ
  next updates kind = next_number sequences high_water updates (project, kind)

  abbrev Room : Counters → Type 0
  Room = Unspent sequences high_water project

  abbrev Rises : Counters → Counters → Type 0
  Rises u v = (kind : String) → next u kind ≤ next v kind

  abbrev Fits : TableSet → String → Type 0
  Fits result table = All (Regular sequences high_water table project) (rows_of table result)

  abbrev one : String → Option (List Row) → TableSet → Counters → Planned ext sequences high_water
  one = renumber_table ext sequences high_water

  abbrev run : List String → TableSet → Counters → Planned ext sequences high_water
  run = renumber_tables ext sequences high_water

  found-Fits :
      (table : String) (result : TableSet) (rows : List Row)
      → get table result ≡ some rows
      → Fits result table
      → All (Regular sequences high_water table project) rows
  found-Fits table result rows h =
      subst (All (Regular sequences high_water table project))
        (rows_of-get table result ∙ ap or_no_rows h)

  one-get :
      (table other : String) (found : Option (List Row)) (result : TableSet) (u : Counters)
      → (other == table) ≡ false
      → get other (one table found result u).1 ≡ get other result
  unfolding renumber_table
  one-get table other none result u h = refl
  one-get table other (some rows) result u h = get-other other table _ result h

  one-Rises :
      (table : String) (found : Option (List Row)) (result : TableSet) (u : Counters)
      → get table result ≡ found
      → Fits result table
      → Rises u (one table found result u).0
  unfolding renumber_table
  one-Rises table none result u h fits = λ kind. omega arith
  one-Rises table (some rows) result u h fits =
      renumber_groups-Rises sequences high_water table project (group_rows ext table [] rows) u (
        group_rows-Grouped sequences high_water table project ext rows
          (found-Fits table result rows h fits))

  one-Distinct :
      (table : String) (found : Option (List Row)) (result : TableSet) (u : Counters)
      → get table result ≡ found
      → Fits result table
      → Respects sequences high_water u
      → Room (one table found result u).0
      → Respects sequences high_water (one table found result u).0
        × Distinct (rows_of table (one table found result u).1)
  unfolding renumber_table
  one-Distinct table none result u h fits r room =
      (r, subst Distinct (sym (rows_of-get table result ∙ ap or_no_rows h)) tt)
  one-Distinct table (some rows) result u h fits r room =
      let groups = group_rows ext table [] rows in
      let merged = (renumber_groups sequences high_water table groups u).1 in
      let (r', _, _, distinct) =
        renumber_groups-Ran sequences high_water table project groups u
          (group_rows-Grouped sequences high_water table project ext rows
            (found-Fits table result rows h fits))
          r room in
      (
        r',
        subst Distinct
            (sym (
              rows_of-get table (insert table merged result)
              ∙ ap or_no_rows (
                  get-insert table table merged result
                  ∙ ap (λ b. if b then some merged else get table result)
                      ((eq_iff table table).1 refl))))
            distinct,
      )

  pub run-get :
      (table : String) (tables : List String) (result : TableSet) (u : Counters)
      → All (λ other. (table == other) ≡ false) tables
      → get table (run tables result u).1 ≡ get table result
  unfolding renumber_tables
  run-get table [] result u a = refl
  run-get table (other ∷ tables) result u (h, a) =
      let first = one other (get other result) result u in
      run-get table tables first.1 first.0 a ∙ one-get other table (get other result) result u h

  -- Another table is as it was.
  Fits-after :
      (table : String) (tables : List String) (found : Option (List Row)) (result : TableSet)
      (u : Counters)
      → All (λ other. (table == other) ≡ false) tables
      → All (Fits result) tables
      → All (Fits (one table found result u).1) tables
  Fits-after table [] found result u apart fits = tt
  Fits-after table (other ∷ tables) found result u (h, apart) (first, fits) = (
    subst (All (Regular sequences high_water other project))
        (sym (
          rows_of-same other (one table found result u).1 result (
            one-get table other found result u
              (ground (arith, h, eq_iff table other, eq_iff other table)))))
        first,
    Fits-after table tables found result u apart fits,
  )

  run-Rises :
      (tables : List String) (result : TableSet) (u : Counters)
      → Once tables
      → All (Fits result) tables
      → Rises u (run tables result u).0
  unfolding renumber_tables
  run-Rises [] result u once fits = λ kind. omega arith
  run-Rises (table ∷ tables) result u (apart, once) (first, fits) = λ kind.
      let now = one table (get table result) result u in
      omega (
        arith,
        one-Rises table (get table result) result u refl first kind,
        run-Rises tables now.1 now.0 once
            (Fits-after table tables (get table result) result u apart fits) kind,
      )

  pub run-Distinct :
      (tables : List String) (result : TableSet) (u : Counters)
      → Once tables
      → All (Fits result) tables
      → Respects sequences high_water u
      → Room (run tables result u).0
      → (table : String) → In table tables
      → Distinct (rows_of table (run tables result u).1)
  unfolding renumber_tables
  run-Distinct [] result u once fits r room wanted m = absurd m
  run-Distinct (table ∷ tables) result u (apart, once) (first, fits) r room wanted m =
      let now = one table (get table result) result u in
      let fits' = Fits-after table tables (get table result) result u apart fits in
      let room' : Room now.0 =
        λ kind. omega (arith, room kind, run-Rises tables now.1 now.0 once fits' kind) in
      let (r', distinct) = one-Distinct table (get table result) result u refl first r room' in
      elim m [
        | inl here ↦
            subst (λ x. Distinct (rows_of x (run tables now.1 now.0).1)) (sym here)
              (subst Distinct
                (sym (
                  rows_of-same table (run tables now.1 now.0).1 now.1
                    (run-get table tables now.1 now.0 apart)))
                distinct)
        | inr later ↦ run-Distinct tables now.1 now.0 once fits' r' room wanted later
      ]

pub get-write_back_sequences :
    (table : String) (result : TableSet) (updates : Counters)
    → (table == "sequences") ≡ false
    → get table (write_back_sequences result updates) ≡ get table result
unfolding write_back_sequences
get-write_back_sequences table result [] h = refl
get-write_back_sequences table result (u ∷ updates) h = get-other table "sequences" _ result h

display_tables-Once : Once display_tables
display_tables-Once = ground arith

not_sequences : (table : String) → In table display_tables → (table == "sequences") ≡ false
not_sequences table m = elim m [
  | inl tasks ↦ ap (λ x. x == "sequences") tasks
  | inr (inl progress) ↦ ap (λ x. x == "sequences") progress
  | inr (inr (inl decisions)) ↦ ap (λ x. x == "sequences") decisions
  | inr (inr (inr (inl handoffs))) ↦ ap (λ x. x == "sequences") handoffs
  | inr (inr (inr (inr none_left))) ↦ absurd none_left
]

Respects-nil : (sequences high_water : Counters) → Respects sequences high_water []
unfolding number_at
Respects-nil sequences high_water key n h = cc

-- The sequences and the numbers of the tables, as the renumbering reads them.
abbrev pub stated : TableSet → Counters
stated result = sequence_state [] (rows_of "sequences" result)

abbrev pub observed : TableSet → Counters
observed result = display_high_water display_tables result []

-- The counters at the end.
abbrev pub final_counters : External → TableSet → Counters
final_counters ext result =
    (renumber_tables ext (stated result) (observed result) display_tables result []).0

-- Let every row of the display tables be of one project, with a display id that splits if it has one. If no
-- counter reaches the largest 64-bit number, no two rows of a display table have one display id after the
-- renumbering, whether kept or new.
pub plan_display_renumbers-Distinct :
    (ext : External) (result : TableSet) (project table : String)
    → All (λ t. All (Numbered project t) (rows_of t result)) display_tables
    → Unspent (stated result) (observed result) project (final_counters ext result)
    → In table display_tables
    → Distinct (rows_of table (plan_display_renumbers ext result).0)
unfolding plan_display_renumbers
plan_display_renumbers-Distinct ext result project table numbered room m =
    let s = stated result in
    let w = observed result in
    let fits =
      display_high_water-Regular s w project display_tables result [] (λ key. omega arith)
        numbered in
    let after = renumber_tables ext s w display_tables result [] in
    subst Distinct
      (sym (
        rows_of-same table (write_back_sequences after.1 after.0) after.1
          (get-write_back_sequences table after.1 after.0 (not_sequences table m))))
      (run-Distinct ext s w project display_tables result [] display_tables-Once fits
        (Respects-nil s w) room table m)
