-- ===== src/Merge/Renumber/Counters.antt =====
-- The counters of the renumbering.
use carryctx.Base.{
  ℕ, ◌≤◌, ◌<◌, String, true, some, [], ◌∷◌, ◌≡◌, inl, inr, refl, sym, subst, arith, eq_iff,
  if◌then◌else◌, Bool-cases, Option-cases,
}
use carryctx.Duration.{max_u64}
use carryctx.Merge.Aliases.{pair_eq}
use carryctx.Merge.Renumber.{Counters, number_at, put_number, floor, next_number, or_number}

pub pair_eq_iff : (a b : String × String) → pair_eq a b ≡ true → a ≡ b
pair_eq_iff (p, n) (q, m) h = ground (arith, h, eq_iff p q, eq_iff n m)

pub number_at-put_number :
    (key other : String × String) (n : ℕ) (counters : Counters)
    → number_at key (put_number other n counters)
      ≡ (if pair_eq key other then some n else number_at key counters)
unfolding number_at put_number
number_at-put_number (a, b) (c, d) n [] = refl
number_at-put_number (a, b) (c, d) n (((e, f), k) ∷ counters) = ground (
  arith,
  number_at-put_number (a, b) (c, d) n counters,
  eq_iff a c,
  eq_iff a e,
  eq_iff c e,
  eq_iff b d,
  eq_iff b f,
  eq_iff d f,
)

module _ (sequences high_water : Counters) where
  -- No counter stands below its floor.
  abbrev pub Respects : Counters → Type 0
  Respects updates =
      (key : String × String) (n : ℕ)
      → number_at key updates ≡ some n
      → floor sequences high_water key ≤ n

  pub floor-le :
      (updates : Counters) (key : String × String)
      → Respects updates
      → floor sequences high_water key ≤ next_number sequences high_water updates key
  unfolding next_number
  floor-le updates key r = elim (Option-cases (number_at key updates)) [
    | inl fresh ↦ rw fresh (omega arith)
    | inr (n, found) ↦ rw found (r key n found)
  ]

  -- One more number is given out.
  pub next_number-put :
      (updates : Counters) (key other : String × String) (n : ℕ)
      → next_number sequences high_water (put_number other n updates) key
        ≡ (if pair_eq key other then n else next_number sequences high_water updates key)
  unfolding next_number
  next_number-put updates key other n = ground (arith, number_at-put_number key other n updates)

  pub put-Respects :
      (updates : Counters) (key : String × String) (n : ℕ)
      → floor sequences high_water key ≤ n
      → Respects updates
      → Respects (put_number key n updates)
  put-Respects updates key n h r other k found = elim (Bool-cases (pair_eq other key)) [
    | inl same ↦
        let is : n ≡ k = ground (arith, found, same, number_at-put_number other key n updates) in
        subst (λ x. floor sequences high_water x ≤ k) (sym (pair_eq_iff other key same))
          (omega (arith, is))
    | inr differ ↦
        r other k (ground (arith, found, differ, number_at-put_number other key n updates))
  ]

  -- A number that has been seen is below every number that is given out, unless a counter is at its end.
  pub seen-lt :
      (updates : Counters) (key : String × String)
      → Respects updates
      → next_number sequences high_water updates key < max_u64
      → or_number 0 (number_at key high_water) < next_number sequences high_water updates key
  unfolding floor
  seen-lt updates key r room = let h = floor-le updates key r in ground (arith, h, room)
