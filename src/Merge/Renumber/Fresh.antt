-- ===== src/Merge/Renumber/Fresh.antt =====
-- Numbers that the renumbering gives out: none is that of an old display id, and none comes twice.
use carryctx.Base.{
  ℕ, ◌≤◌, ◌<◌, String, Option, none, some, List, [], ◌∷◌, ◌≡◌, inl, inr, refl, sym, ap, ◌∙◌, subst,
  arith, ◌==◌, eq_iff, if◌then◌else◌, Option-cases, All, trim,
}
use carryctx.Duration.{max_u64}
use carryctx.Merge.{Row}
use carryctx.Merge.Tombstones.{text_of}
use carryctx.Merge.Aliases.{pair_eq}
use carryctx.Merge.Renumber.{
  Counters, number_at, put_number, or_number, next_u64, next_number, DisplayKind, DisplayParts,
  kind_name, kind_from, display_kind, split_display_id, render_display_id,
}
use carryctx.Merge.Renumber.Numbers.{split-render, render-inj}
use carryctx.Merge.Renumber.Counters.{Respects, floor-le, next_number-put, put-Respects, seen-lt}

-- The display id that a row has.
abbrev pub Shows : Row → String → Type 0
Shows row d = text_of "display_id" row ≡ some d

-- No two rows of the list have one display id.
abbrev pub Differ : Row → Row → Type 0
Differ r q = (d : String) → Shows r d → Shows q d → ⊥

abbrev pub Distinct : List Row → Type 0
Distinct [] = Unit
Distinct (r ∷ rows) = All (Differ r) rows × Distinct rows

kind_parts :
    (table d : String) (k : DisplayKind) (found : Option DisplayParts)
    → kind_from table found ≡ some k
    → (parts : DisplayParts) × (found ≡ some parts)
      × (kind_name table parts.prefix ≡ some k.kind)
      × (k.prefix ≡ parts.prefix)
kind_parts table d k none h = cc
kind_parts table d k (some parts) h = elim (Option-cases (kind_name table parts.prefix)) [
  | inl no_kind ↦ cc (rw no_kind at h)
  | inr (name, is) ↦ (parts, refl, ground (arith, is, h), ground (arith, is, h))
]

pub kind_of :
    (table d : String) (k : DisplayKind)
    → display_kind table d ≡ some k
    → (parts : DisplayParts) × (split_display_id d ≡ some parts)
      × (kind_name table parts.prefix ≡ some k.kind)
      × (k.prefix ≡ parts.prefix)
unfolding display_kind
kind_of table d k h = kind_parts table d k (split_display_id d) h

module _ (sequences high_water : Counters) (table project : String) where
  abbrev pub next : Counters → String → ℕ
  next updates kind = next_number sequences high_water updates (project, kind)

  -- A display id that splits, whose number has been seen.
  abbrev pub Known : String → Type 0
  Known d =
      (k : DisplayKind) × (display_kind table d ≡ some k)
      × ((parts : DisplayParts)
          → split_display_id d ≡ some parts
          → parts.number ≤ or_number 0 (number_at (project, k.kind) high_water))

  -- A row with a number that was given out after `u` and before `v`.
  abbrev pub New : Counters → Counters → Row → Type 0
  New u v row =
      (kind : String) × (prefix : String) × (n : ℕ) × (width : ℕ) × Shows row
        (render_display_id prefix n width)
      × (trim prefix ≡ prefix)
      × (kind_name table prefix ≡ some kind)
      × (next u kind ≤ n)
      × (n < next v kind)
      × (next v kind < max_u64)

  -- An old display id is not one that is given out.
  pub New-fresh :
      (u v : Counters) (d : String) (row : Row)
      → Respects sequences high_water u
      → Known d
      → New u v row
      → ¬ Shows row d
  New-fresh u v d row r (k, is, seen)
        (kind, prefix, n, width, shown, trimmed, named, from, below, room) own =
      let (parts, split, name, _) = kind_of table d k is in
      let same : d ≡ render_display_id prefix n width = some-inj (sym own ∙ shown) in
      let (p, number) =
        split-render prefix n width parts (omega (arith, below, room))
          (ap split_display_id (sym same) ∙ split) in
      let kinds : k.kind ≡ kind =
        some-inj (sym name ∙ ap (kind_name table) (p ∙ trimmed) ∙ named) in
      let low =
        subst (λ x. parts.number ≤ or_number 0 (number_at (project, x) high_water)) kinds
          (seen parts split) in
      let high =
        seen-lt sequences high_water u (project, kind) r (omega (arith, from, below, room)) in
      absurd (omega (arith, low, high, from, number))
    where
      some-inj : {a b : String} → some a ≡ some b → a ≡ b
      some-inj e = cc

  -- A number that was given out earlier is not given out again.
  pub New-Differ :
      (u v w : Counters) (row other : Row) → New u v row → New v w other → Differ row other
  New-Differ u v w row other (kind, p, n, a, shown, _, named, _, below, room)
        (kind', q, k, b, shown', _, named', from, below', room') d h i =
      let (prefixes, numbers) =
        render-inj p q n k a b (omega (arith, below, room)) (omega (arith, below', room'))
          (some-inj (sym shown ∙ h ∙ sym i ∙ shown')) in
      let kinds : kind ≡ kind' = some-inj (sym named ∙ ap (kind_name table) prefixes ∙ named') in
      let at = subst (λ x. next v x ≤ k) (sym kinds) from in
      absurd (omega (arith, at, below, numbers))
    where
      some-inj : {a b : String} → some a ≡ some b → a ≡ b
      some-inj e = cc

  abbrev pub Room : Counters → Type 0
  Room v = (kind : String) → next v kind < max_u64

  abbrev pub Rises : Counters → Counters → Type 0
  Rises u v = (kind : String) → next u kind ≤ next v kind

  pub widen :
      (u u' v v' : Counters) (row : Row)
      → Rises u u'
      → Rises v v'
      → Room v'
      → New u' v row
      → New u v' row
  widen u u' v v' row a b room (kind, prefix, n, width, shown, trimmed, named, from, below, _) = (
    kind,
    prefix,
    n,
    width,
    shown,
    trimmed,
    named,
    omega (arith, a kind, from),
    omega (arith, b kind, below),
    room kind,
  )

  abbrev pub OfProject : String × Row → Type 0
  OfProject m = text_of "project_id" m.1 ≡ some project

  -- The counters after a number of a kind is given out.
  abbrev pub after : String → Counters → Counters
  after kind u = put_number (project, kind) (next_u64 (next u kind)) u

  pub next-after :
      (kind other : String) (u : Counters)
      → next (after kind u) other ≡ (if other == kind then next_u64 (next u kind) else next u other)
  next-after kind other u =
      next_number-put sequences high_water u (project, other) (project, kind)
        (next_u64 (next u kind))
      ∙ ap (λ b. if b then next_u64 (next u kind) else next u other) (pair-same other kind)
    where
      pair-same : (a b : String) → pair_eq (project, a) (project, b) ≡ (a == b)
      pair-same a b = ground (arith, eq_iff project project)

  pub Rises-after : (kind : String) (u : Counters) → Rises u (after kind u)
  Rises-after kind u other = ground (arith, next-after kind other u, ap (next u), eq_iff other kind)

  pub Respects-after :
      (kind : String) (u : Counters)
      → Respects sequences high_water u
      → Respects sequences high_water (after kind u)
  Respects-after kind u r =
      put-Respects sequences high_water u (project, kind) (next_u64 (next u kind))
        (ground (arith, floor-le sequences high_water u (project, kind) r)) r
