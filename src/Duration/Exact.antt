-- ===== src/Duration/Exact.antt =====
-- What durations spell, and that `parse_duration` answers exactly that.
use Prim.Native.Nat.mul
use Prim.Native.Char.{Char}
use Prim.Native.String.append
use Prim.Native.String.{[], ◌∷◌, ◌++◌}
use carryctx.Base.{
  ℕ, zero, suc, ◌+◌, ◌*◌, ◌≤◌, String, true, some, ◌==◌, ok, ◌≡◌, ◌≢◌, Result, err, refl, ap, ◌∙◌,
  subst, arith, eq_iff, Bool-cases, Option-cases, inl, inr,
}
use carryctx.Base.Append.{append-snoc, append-ne-nil, all_chars-append}
use carryctx.Base.Text.{is_ascii_digit, all_chars}
use carryctx.Base.Numbers.{value, parse_uint, parse_uint-digits}
use carryctx.Error.{CarryCtxError}
use carryctx.Duration.{
  max_u64, unit_ms, add_checked, add_units, add_number, and_then, apply_suffix, finish, read,
}

-- Numbers with their units, and the milliseconds in all, with no bound.
pub data Spells : String → ℕ → Type 0 where
  nothing : Spells "" 0
  part :
      (digits unit rest : String) (factor n : ℕ)
      → digits ≢ ""
      → all_chars is_ascii_digit digits ≡ true
      → unit_ms unit ≡ some factor
      → Spells rest n
      → Spells (digits ++ (unit ++ rest)) (value 0 digits * factor + n)

unit_pos : (unit : String) (factor : ℕ) → unit_ms unit ≡ some factor → 1 ≤ factor
unfolding unit_ms
unit_pos unit factor h = ground (arith, h)

le_mul : (v factor : ℕ) → 1 ≤ factor → v ≤ v * factor
le_mul zero factor h = omega arith
le_mul (suc v) factor h = omega (arith, mul.suc v factor, le_mul v factor h)

-- A number and its unit are added when they fit.
apply_suffix_sound :
    (total t : ℕ) (num suffix : String)
    → num ≢ ""
    → all_chars is_ascii_digit num ≡ true
    → apply_suffix total num suffix ≡ ok t
    → (factor : ℕ) × (unit_ms suffix ≡ some factor)
      × (total + value 0 num * factor ≡ t)
      × (t ≤ max_u64)
unfolding apply_suffix add_number add_units add_checked
apply_suffix_sound total t num suffix ne digits h = elim (Option-cases (unit_ms suffix)) [
  | inl unknown ↦ ground (arith, h, unknown, parse_uint-digits max_u64 num ne digits)
  | inr (factor, known) ↦ (
    factor,
    known,
    ground (arith, h, known, parse_uint-digits max_u64 num ne digits),
    ground (arith, h, known, parse_uint-digits max_u64 num ne digits),
  )
]

pub apply_suffix_complete :
    (total factor : ℕ) (num suffix : String)
    → num ≢ ""
    → all_chars is_ascii_digit num ≡ true
    → unit_ms suffix ≡ some factor
    → total + value 0 num * factor ≤ max_u64
    → apply_suffix total num suffix ≡ ok (total + value 0 num * factor)
unfolding apply_suffix add_number add_units add_checked
apply_suffix_complete total factor num suffix ne digits known fits = ground (
  arith,
  known,
  parse_uint-digits max_u64 num ne digits,
  le_mul (value 0 num) factor (unit_pos suffix factor known),
)

digits-snoc :
    (num : String) (c : Char)
    → all_chars is_ascii_digit num ≡ true
    → is_ascii_digit c ≡ true
    → all_chars is_ascii_digit (num ++ (c ∷ [])) ≡ true
unfolding all_chars
digits-snoc num c h d = ground (arith, all_chars-append is_ascii_digit num (c ∷ []))

-- The milliseconds that `text` spells, after `total`, are `t` in all.
abbrev pub Reads : String → ℕ → ℕ → Type 0
Reads text total t = (n : ℕ) × Spells text n × (total + n ≡ t) × (t ≤ max_u64)

-- One number and its unit before what is read after them.
Reads-part :
    (total t u : ℕ) (num suffix rest : String)
    → num ≢ ""
    → all_chars is_ascii_digit num ≡ true
    → apply_suffix total num suffix ≡ ok u
    → Reads rest u t
    → Reads (num ++ (suffix ++ rest)) total t
Reads-part total t u num suffix rest ne digits h (n, spells, sum, fits) =
    let (factor, known, added, _) = apply_suffix_sound total u num suffix ne digits h in
    (
      value 0 num * factor + n,
      part num suffix rest factor n ne digits known spells,
      omega arith,
      fits,
    )

and_then-ok :
    (r : Result CarryCtxError ℕ) (f : ℕ → Result CarryCtxError ℕ) (t : ℕ)
    → and_then r f ≡ ok t
    → (u : ℕ) × (r ≡ ok u) × (f u ≡ ok t)
and_then-ok (err e) f t h = cc
and_then-ok (ok u) f t h = (u, refl, h)

-- A digit goes on the number when no suffix has begun.
append-digit :
    (num suffix : String) (c : Char) (rest : String)
    → suffix ≡ ""
    → (num ++ (c ∷ [])) ++ (suffix ++ rest) ≡ num ++ (suffix ++ (c ∷ rest))
append-digit num suffix c rest e =
    rw (e, append.nil rest, append.nil (c ∷ rest)) (append-snoc num c rest)

append-one : (c : Char) (rest : String) → (c ∷ []) ++ ("" ++ rest) ≡ c ∷ rest
append-one c rest =
    append.cons c "" ("" ++ rest) ∙ ap (λ x. c ∷ x) (append.nil ("" ++ rest) ∙ append.nil rest)

module _ (s : String) where
  -- After a suffix without a number every way ends in an error.
  read-junk :
      (total t : ℕ) (suffix rest : String) → suffix ≢ "" → read s total "" suffix rest ≢ ok t
  unfolding read finish apply_suffix parse_uint add_number
  read-junk total t suffix [] ne h = ground (arith, eq_iff suffix "")
  read-junk total t suffix (c ∷ rest) ne h = elim (Bool-cases (is_ascii_digit c)) [
    | inl d ↦ ground (arith, d, h, eq_iff suffix "")
    | inr n ↦
        read-junk total t (suffix ++ (c ∷ [])) rest (append-ne-nil suffix c [])
          (ground (arith, n, h))
  ]

  read_sound :
      (total t : ℕ) (num suffix rest : String)
      → num ≢ ""
      → all_chars is_ascii_digit num ≡ true
      → read s total num suffix rest ≡ ok t
      → Reads (num ++ (suffix ++ rest)) total t
  unfolding read finish all_chars
  read_sound total t num suffix [] ne digits h =
      let applied : apply_suffix total num suffix ≡ ok t = ground (arith, h, eq_iff num "") in
      let (_, _, _, fits) = apply_suffix_sound total t num suffix ne digits applied in
      Reads-part total t t num suffix "" ne digits applied (0, nothing, omega arith, fits)
  read_sound total t num suffix (c ∷ rest) ne digits h = elim (Bool-cases (is_ascii_digit c)) [
    | inl d ↦ elim (Bool-cases (suffix == "")) [
      | inl e ↦
          subst (λ x. Reads x total t) (append-digit num suffix c rest ((eq_iff suffix "").0 e))
            (read_sound total t (num ++ (c ∷ [])) suffix rest (append-ne-nil num c [])
              (digits-snoc num c digits d) (ground (arith, d, e, h)))
      | inr n ↦
          let (u, applied, next) =
            and_then-ok (apply_suffix total num suffix) (λ u. read s u (c ∷ []) "" rest) t
              (ground (arith, d, n, h)) in
          Reads-part total t u num suffix (c ∷ rest) ne digits applied (
            subst (λ x. Reads x u t) (append-one c rest)
              (read_sound u t (c ∷ []) "" rest (cc) (ground (arith, d)) next))
    ]
    | inr n ↦
        subst (λ x. Reads (num ++ x) total t) (append-snoc suffix c rest)
          (read_sound total t num (suffix ++ (c ∷ [])) rest ne digits (ground (arith, n, h)))
  ]

  pub read-start : (t : ℕ) (rest : String) → rest ≢ "" → read s 0 "" "" rest ≡ ok t → Reads rest 0 t
  unfolding read finish all_chars
  read-start t [] ne h = absurd (ne refl)
  read-start t (c ∷ rest) ne h = elim (Bool-cases (is_ascii_digit c)) [
    | inl d ↦
        subst (λ x. Reads x 0 t) (append-one c rest)
          (read_sound 0 t (c ∷ []) "" rest (cc) (ground (arith, d))
            (ground (arith, d, h, append.nil (c ∷ []))))
    | inr n ↦ absurd (read-junk 0 t (c ∷ []) rest (cc) (ground (arith, n, h, append.nil (c ∷ []))))
  ]
