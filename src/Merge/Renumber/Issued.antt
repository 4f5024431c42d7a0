-- ===== src/Merge/Renumber/Issued.antt =====
-- Giving out numbers one after another: what a run over the rows of one group leaves.
use carryctx.Base.{
  ℕ, ◌≤◌, ◌<◌, String, some, List, [], ◌∷◌, ◌≡◌, refl, sym, ap, ◌∙◌, subst, arith, eq_iff, All,
  trim,
}
use carryctx.Duration.{max_u64}
use carryctx.Merge.{Row, text, insert}
use carryctx.Merge.Facts.{get-insert}
use carryctx.Merge.Tombstones.{text_of}
use carryctx.Merge.Renumber.{
  Counters, DisplayKind, kind_name, display_kind, render_display_id, renumber, renumber_all,
}
use carryctx.Merge.Renumber.Numbers.{split-trim}
use carryctx.Merge.Renumber.Counters.{Respects}
use carryctx.Merge.Renumber.Fresh
use carryctx.Merge.Renumber.Fresh.{Shows, Differ, Distinct, kind_of}

module _ (sequences high_water : Counters) (table project : String) where
  abbrev next : Counters → String → ℕ
  next = Fresh.next sequences high_water table project

  abbrev New : Counters → Counters → Row → Type 0
  New = Fresh.New sequences high_water table project

  abbrev Room : Counters → Type 0
  Room = Fresh.Room sequences high_water table project

  abbrev Rises : Counters → Counters → Type 0
  Rises = Fresh.Rises sequences high_water table project

  abbrev OfProject : String × Row → Type 0
  OfProject = Fresh.OfProject sequences high_water table project

  abbrev after : String → Counters → Counters
  after = Fresh.after sequences high_water table project

  -- What a run of the renumbering leaves.
  abbrev pub Ran : Counters → Counters → (Row → Type 0) → List Row → Type 0
  Ran u v P rows = Respects sequences high_water v × Rises u v × All P rows × Distinct rows

  pub All-impl :
      (P Q : Row → Type 0) (rows : List Row) → ((r : Row) → P r → Q r) → All P rows → All Q rows
  All-impl P Q [] k a = tt
  All-impl P Q (r ∷ rows) k (first, rest) = (k r first, All-impl P Q rows k rest)

  Shows-insert : (row : Row) (s : String) → Shows (insert "display_id" (text s) row) s
  unfolding text_of
  Shows-insert row s = rw (get-insert "display_id" "display_id" (text s) row) refl

  renumber-some :
      (d key : String) (k : DisplayKind) (row : Row) (u : Counters)
      → OfProject (key, row)
      → (renumber sequences high_water table d u (key, row) (some k)).0 ≡ after k.kind u
        × ((renumber sequences high_water table d u (key, row) (some k)).1
            ≡ insert "display_id" (text (render_display_id k.prefix (next u k.kind) k.width)) row)
  unfolding renumber
  renumber-some d key k row u h = rw h (refl, refl)

  -- The row that is given the next number of its kind.
  given_here :
      (d : String) (k : DisplayKind) (u v : Counters) (row : Row)
      → display_kind table d ≡ some k
      → next (after k.kind u) k.kind ≤ next v k.kind
      → next v k.kind < max_u64
      → New u
          (after k.kind u)
          (insert "display_id" (text (render_display_id k.prefix (next u k.kind) k.width)) row)
  given_here d k u v row is up room =
      let (parts, split, named, prefix) = kind_of table d k is in
      let n = next u k.kind in
      let now = Fresh.next-after sequences high_water table project k.kind k.kind u in
      (
        k.kind,
        k.prefix,
        n,
        k.width,
        Shows-insert row (render_display_id k.prefix n k.width),
        subst (λ x. trim x ≡ x) (sym prefix) (split-trim d parts split),
        ap (kind_name table) prefix ∙ named,
        omega arith,
        ground (arith, now, up, room, eq_iff k.kind k.kind),
        omega (arith, up, room),
      )

  pub renumber_all-cons :
      (d : String) (k : DisplayKind) (m : String × Row) (members : List (String × Row))
      (u : Counters)
      → display_kind table d ≡ some k
      → OfProject m
      → ((renumber_all sequences high_water table d (m ∷ members) u).0
          ≡ (renumber_all sequences high_water table d members (after k.kind u)).0)
        × ((renumber_all sequences high_water table d (m ∷ members) u).1
            ≡ insert "display_id" (text (render_display_id k.prefix (next u k.kind) k.width)) m.1
              ∷ (renumber_all sequences high_water table d members (after k.kind u)).1)
  unfolding renumber_all
  renumber_all-cons d k m members u is h =
      let (a, b) = renumber-some d m.0 k m.1 u h in
      rw is (
        ap (λ x. (renumber_all sequences high_water table d members x).0) a,
        ap
              (λ x.
                x
                ∷ (renumber_all sequences high_water table d members
                    (renumber sequences high_water table d u m (some k)).0).1)
              b
            ∙ ap
                (λ x.
                  insert "display_id" (text (render_display_id k.prefix (next u k.kind) k.width))
                    m.1
                  ∷ (renumber_all sequences high_water table d members x).1)
                a,
      )

  -- Giving out one number after another.
  pub renumber_all-Ran :
      (d : String) (k : DisplayKind) (members : List (String × Row)) (u : Counters)
      → display_kind table d ≡ some k
      → Respects sequences high_water u
      → All OfProject members
      → Room (renumber_all sequences high_water table d members u).0
      → Ran u
          (renumber_all sequences high_water table d members u).0
          (New u (renumber_all sequences high_water table d members u).0)
          (renumber_all sequences high_water table d members u).1
  unfolding renumber_all
  renumber_all-Ran d k [] u is r all room = (r, λ kind. omega arith, tt, tt)
  renumber_all-Ran d k (m ∷ members) u is r (first, rest) room =
      let u' = after k.kind u in
      let v = (renumber_all sequences high_water table d members u').0 in
      let (same, rows) = renumber_all-cons d k m members u is first in
      let room' : Room v = subst Room same room in
      let (rv, up, news, distinct) =
        renumber_all-Ran d k members u' is
          (Fresh.Respects-after sequences high_water table project k.kind u r) rest room' in
      let rise = Fresh.Rises-after sequences high_water table project k.kind u in
      let made : Row =
        insert "display_id" (text (render_display_id k.prefix (next u k.kind) k.width)) m.1 in
      let here : New u v made =
        Fresh.widen sequences high_water table project u u u' v made (λ kind. omega arith) up room'
          (given_here d k u v m.1 is (up k.kind) (room' k.kind)) in
      let done : Ran u v (New u v)
          (made ∷ (renumber_all sequences high_water table d members u').1) =
        (
          rv,
          λ kind. omega (arith, rise kind, up kind),
          (
            here,
            All-impl (New u' v) (New u v) (renumber_all sequences high_water table d members u').1
                (λ row.
                  Fresh.widen sequences high_water table project u u' v v row rise
                    (λ kind. omega arith) room')
                news,
          ),
          (
            All-impl (New u' v) (Differ made)
                (renumber_all sequences high_water table d members u').1
                (λ row.
                  Fresh.New-Differ sequences high_water table project u u' v made row
                    (given_here d k u v m.1 is (up k.kind) (room' k.kind)))
                news,
            distinct,
          ),
        ) in
      subst (λ x. Ran u x (New u x) (renumber_all sequences high_water table d (m ∷ members) u).1)
        (sym same) (subst (Ran u v (New u v)) (sym rows) done)
