-- ===== src/Merge/Renumber/Numbers.antt =====
-- What a rendered display id splits into.
use Prim.Native.String.{[], ◌∷◌}
use carryctx.Base.{
  ℕ, ◌≤◌, max, String, true, false, Option, none, some, ◌≡◌, inl, inr, refl, sym, ap, ◌∙◌, subst,
  arith, ◌==◌, ◌||◌, ◌&&◌, Bool-cases, Option-cases, trim,
}
use carryctx.Base.Text.{is_whitespace, is_ascii_digit, all_chars, trim_start, trim_end}
use carryctx.Base.Numbers.{pad_to, parse_uint, value}
use carryctx.Base.Numbers.Print.{all_digits-pad_to, parse_uint-pad_to, value-pad_to}
use carryctx.Duration.{max_u64}
use carryctx.Ids.{split_dash}
use carryctx.Ids.RoundTrip.{split_dash-append}
use carryctx.Merge.Renumber.{trimmed_parts, split_display_id, render_display_id, DisplayParts}

-- Trimming twice is trimming once.
trim_end_idem : (s : String) → trim_end (trim_end s) ≡ trim_end s
unfolding trim_end
trim_end_idem [] = refl
trim_end_idem (c ∷ s) = elim (Bool-cases (trim_end s == "" && is_whitespace c)) [
  | inl blank ↦ rw blank refl
  | inr solid ↦ rw solid (rw (trim_end_idem s, solid) refl)
]

-- A text that is empty or starts with no white space.
abbrev Starts : String → Type 0
Starts [] = Unit
Starts (c ∷ s) = is_whitespace c ≡ false

Starts-trim_start : (s : String) → Starts (trim_start s)
unfolding trim_start
Starts-trim_start [] = tt
Starts-trim_start (c ∷ s) = elim (Bool-cases (is_whitespace c)) [
  | inl blank ↦ rw blank (Starts-trim_start s)
  | inr solid ↦ rw solid solid
]

Starts-trim_end : (s : String) → Starts s → Starts (trim_end s)
unfolding trim_end
Starts-trim_end [] h = tt
Starts-trim_end (c ∷ s) h = elim (Bool-cases (trim_end s == "" && is_whitespace c)) [
  | inl blank ↦ rw blank tt
  | inr solid ↦ rw solid h
]

trim_start-Starts : (s : String) → Starts s → trim_start s ≡ s
unfolding trim_start
trim_start-Starts [] h = refl
trim_start-Starts (c ∷ s) h = rw h refl

pub trim_idem : (s : String) → trim (trim s) ≡ trim s
unfolding trim
trim_idem s =
    ap trim_end (
      trim_start-Starts (trim_end (trim_start s))
        (Starts-trim_end (trim_start s) (Starts-trim_start s)))
    ∙ trim_end_idem (trim_start s)

-- Digits have no white space to trim.
digits-trim_end : (s : String) → all_chars is_ascii_digit s ≡ true → trim_end s ≡ s
unfolding trim_end all_chars is_ascii_digit is_whitespace
digits-trim_end [] h = refl
digits-trim_end (c ∷ s) h = ground (arith, digits-trim_end s, h)

digits-trim : (s : String) → all_chars is_ascii_digit s ≡ true → trim s ≡ s
unfolding trim all_chars is_ascii_digit is_whitespace trim_start
digits-trim [] h = refl
digits-trim (c ∷ s) h = ground (arith, digits-trim_end (c ∷ s) h, h)

render_split :
    (prefix : String) (n width : ℕ)
    → split_dash (render_display_id prefix n width) ≡ some (prefix, pad_to (max width 1) n)
unfolding render_display_id
render_split prefix n width =
    split_dash-append prefix (pad_to (max width 1) n) (all_digits-pad_to (max width 1) n)

-- A rendered id is read back: its prefix as trimmed, and its number.
pub split-render :
    (prefix : String) (n width : ℕ) (parts : DisplayParts)
    → n ≤ max_u64
    → split_display_id (render_display_id prefix n width) ≡ some parts
    → (parts.prefix ≡ trim prefix) × (parts.number ≡ n)
unfolding split_display_id
split-render prefix n width parts fits h = ground (
  arith,
  h,
  render_split prefix n width,
  digits-trim (pad_to (max width 1) n) (all_digits-pad_to (max width 1) n),
  parse_uint-pad_to max_u64 (max width 1) n (omega arith) fits,
)

-- Equal rendered ids have equal prefixes and numbers.
pub render-inj :
    (p q : String) (n k v w : ℕ)
    → n ≤ max_u64
    → k ≤ max_u64
    → render_display_id p n v ≡ render_display_id q k w
    → (p ≡ q) × (n ≡ k)
render-inj p q n k v w fits fits' e =
    let same = sym (render_split p n v) ∙ ap split_dash e ∙ render_split q k w in
    let (prefixes, digits) = parts same in
    (
      prefixes,
      sym (value-pad_to (max v 1) n (omega arith))
          ∙ ap (value 0) digits
          ∙ value-pad_to (max w 1) k (omega arith),
    )
  where
    parts :
        {a b c d : String}
        → ◌≡◌ {A = Option (String × String)} (some (a, b)) (some (c, d))
        → (a ≡ c) × (b ≡ d)
    parts e = ground arith

trimmed_parts_prefix :
    (found : Option (String × String)) (parts : DisplayParts)
    → trimmed_parts found ≡ some parts
    → trim parts.prefix ≡ parts.prefix
trimmed_parts_prefix none parts h = cc
trimmed_parts_prefix (some (p, digits)) parts h =
    elim (Bool-cases (trim p == "" || trim digits == "")) [
      | inl empty ↦ cc (rw empty at h)
      | inr full ↦ elim (Option-cases (parse_uint max_u64 (trim digits))) [
        | inl no_number ↦ cc (rw (full, no_number) at h)
        | inr (n, is) ↦
            let prefix : trim p ≡ parts.prefix = ground (arith, full, is, h) in
            subst (λ x. trim x ≡ x) prefix (trim_idem p)
      ]
    ]

-- The prefix of the parts is trimmed.
pub split-trim :
    (d : String) (parts : DisplayParts)
    → split_display_id d ≡ some parts
    → trim parts.prefix ≡ parts.prefix
unfolding split_display_id
split-trim d parts h = trimmed_parts_prefix (split_dash d) parts h
