-- ===== src/Duration/Complete.antt =====
-- Durations are read as they are written.
use Prim.Native.String.append
use Prim.Native.String.{[], ◌∷◌, ◌++◌}
use text.Mathlib.TextLemmas.{append-nil}
use carryctx.Base.{
  ℕ, ◌+◌, ◌*◌, ◌≤◌, ◌<◌, String, true, false, not, Result, err, some, ◌==◌, ok, ◌≡◌, ◌≢◌, ◌↔◌, refl,
  sym, ap, subst, ◌∙◌, arith, eq_iff, Bool-cases, inl, inr,
}
use carryctx.Base.Append.{append-snoc}
use carryctx.Base.Text.{trim, is_ascii_digit, all_chars}
use carryctx.Base.Numbers.{value}
use carryctx.Error.{CarryCtxError}
use carryctx.Duration.{positive, max_u64, unit_ms, finish, read, parse_trimmed, parse_duration}
use carryctx.Duration.Exact.{Reads, Spells, nothing, part, apply_suffix_complete, read-start}

-- One or more characters, none of them a digit.
abbrev IsUnit : String → Type 0
IsUnit unit = (unit ≢ "") × (all_chars (λ c. not (is_ascii_digit c)) unit ≡ true)

IsUnit-if :
    (known unit : String) → IsUnit known → ((unit == known) ≡ false → IsUnit unit) → IsUnit unit
IsUnit-if known unit h rest = elim (Bool-cases (unit == known)) [
  | inl same ↦ subst IsUnit (sym ((eq_iff unit known).0 same)) h
  | inr differ ↦ rest differ
]

unit_ms-IsUnit : (unit : String) (factor : ℕ) → unit_ms unit ≡ some factor → IsUnit unit
unfolding unit_ms all_chars is_ascii_digit
unit_ms-IsUnit unit factor h =
    IsUnit-if "ms" unit (cc, refl)
      λ ms.
        IsUnit-if "s" unit (cc, refl)
          λ s.
            IsUnit-if "m" unit (cc, refl)
              λ m.
                IsUnit-if "h" unit (cc, refl)
                  λ hour.
                    IsUnit-if "d" unit (cc, refl)
                      λ d.
                        IsUnit-if "w" unit (cc, refl) λ w. ground (arith, h, ms, s, m, hour, d, w)

module _ (s : String) where
  read-digits :
      (total : ℕ) (num digits rest : String)
      → all_chars is_ascii_digit digits ≡ true
      → read s total num "" (digits ++ rest) ≡ read s total (num ++ digits) "" rest
  unfolding read all_chars
  read-digits total num [] rest h = rw (append.nil rest, append-nil num) refl
  read-digits total num (c ∷ digits) rest h =
      rw (append.cons c digits rest) (
        ground
          (arith, h, read-digits total (num ++ (c ∷ [])) digits rest, append-snoc num c digits))

  read-unit :
      (total : ℕ) (num suffix unit rest : String)
      → all_chars (λ c. not (is_ascii_digit c)) unit ≡ true
      → read s total num suffix (unit ++ rest) ≡ read s total num (suffix ++ unit) rest
  unfolding read all_chars
  read-unit total num suffix [] rest h = rw (append.nil rest, append-nil suffix) refl
  read-unit total num suffix (c ∷ unit) rest h = rw (append.cons c unit rest) (
      ground
        (arith, h, read-unit total num (suffix ++ (c ∷ [])) unit rest, append-snoc suffix c unit))

  -- A number and its unit are read to the end of the unit.
  read-part :
      (total : ℕ) (num digits unit rest : String) (factor : ℕ)
      → all_chars is_ascii_digit digits ≡ true
      → unit_ms unit ≡ some factor
      → read s total num "" (digits ++ (unit ++ rest)) ≡ read s total (num ++ digits) unit rest
  read-part total num digits unit rest factor h known =
      read-digits total num digits (unit ++ rest) h
      ∙ read-unit total (num ++ digits) "" unit rest (unit_ms-IsUnit unit factor known).1
      ∙ ap (λ u. read s total (num ++ digits) u rest) (append.nil unit)

  read_complete :
      (total n : ℕ) (num unit rest : String) (factor : ℕ)
      → num ≢ ""
      → all_chars is_ascii_digit num ≡ true
      → unit_ms unit ≡ some factor
      → Spells rest n
      → total + (value 0 num * factor + n) ≤ max_u64
      → read s total num unit rest ≡ ok (total + (value 0 num * factor + n))
  unfolding read finish all_chars
  read_complete total n num unit rest factor ne digits known nothing fits =
      ground (arith, eq_iff num "", apply_suffix_complete total factor num unit ne digits known)
  read_complete total n num unit rest factor ne digits known
        (part [] unit' rest' factor' n' ne' digits' known' spells) fits =
      absurd (ne' refl)
  read_complete total n num unit rest factor ne digits known
        (part (c ∷ ds) unit' rest' factor' n' ne' digits' known' spells) fits =
      let known_ne = (unit_ms-IsUnit unit factor known).0 in
      let total' = total + value 0 num * factor in
      let applied = apply_suffix_complete total factor num unit ne digits known (omega arith) in
      let after = read-part total' (c ∷ []) ds unit' rest' factor' (ground arith) known' in
      let rest_read =
        read_complete total' n' (c ∷ ds) unit' rest' factor' (cc) digits' known' spells
          (omega arith) in
      rw (append.cons c ds (unit' ++ rest')) (
        ground
          (arith, eq_iff unit "", applied, after, rest_read, append.cons c [] ds, append.nil ds))

  read-start_complete :
      (t : ℕ) (rest : String) → Spells rest t → t ≤ max_u64 → read s 0 "" "" rest ≡ ok t
  unfolding read finish all_chars
  read-start_complete t rest nothing fits = refl
  read-start_complete t rest (part digits unit rest' factor n ne ds known spells) fits =
      read-part 0 "" digits unit rest' factor ds known
      ∙ ap (λ d. read s 0 d unit rest') (append.nil digits)
      ∙ read_complete 0 n digits unit rest' factor ne ds known spells (omega arith)
      ∙ ap ok (omega arith)

not_empty : (s : String) (t : ℕ) → 0 < t → Spells s t → s ≢ ""
not_empty s t pos nothing e = absurd (omega arith)
not_empty s t pos (part [] unit rest factor n ne ds known spells) e = ne refl
not_empty s t pos (part (c ∷ digits) unit rest factor n ne ds known spells) e =
    cc (append.cons c digits (unit ++ rest), e)

positive-ok : (r : Result CarryCtxError ℕ) (t : ℕ) → positive r ≡ ok t → (r ≡ ok t) × (0 < t)
positive-ok (err e) t h = cc
positive-ok (ok n) t h = ground arith

exact : (s : String) (t : ℕ) → Reads s 0 t → Spells s t × (t ≤ max_u64)
exact s t (n, spells, sum, fits) = (subst (Spells s) (omega arith) spells, fits)

-- A duration is accepted, as `t` milliseconds, exactly when its trimmed text is numbers with their
-- units that are `t` in all, counted without a bound, and `t` is positive and fits 64 bits.
pub parse_duration_iff :
    (s : String) (t : ℕ) → (parse_duration s ≡ ok t) ↔ (Spells (trim s) t × (0 < t) × (t ≤ max_u64))
unfolding parse_duration parse_trimmed
parse_duration_iff s t = (
  λ h. elim (Bool-cases (trim s == "")) [
    | inl e ↦ ground (arith, e, h)
    | inr n ↦
        let (total, pos) = positive-ok (read (trim s) 0 "" "" (trim s)) t (ground (arith, n, h)) in
        let (spells, fits) =
          exact (trim s) t
            (read-start (trim s) t (trim s) (λ e. cc ((eq_iff (trim s) "").1 e, n)) total) in
        (spells, pos, fits)
  ],
  λ (spells, pos, fits). ground (
    arith,
    read-start_complete (trim s) t (trim s) spells fits,
    eq_iff (trim s) "",
    not_empty (trim s) t pos spells,
  ),
)
