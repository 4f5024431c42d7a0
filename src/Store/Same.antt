-- ===== src/Store/Same.antt =====
-- Actions that leave the rows as they are.
use carryctx.Base.{◌≡◌, refl, sym, subst, ◌∙◌, ok}
use carryctx.Store.{Store, Op, ◌>>=◌}
use carryctx.Store.Steps.{>>=-eq-ok, IsOrder, Steps, steps_rules}

-- The rows are the same before and after.
pub record Same (s t : Store) : Type 0 where
  pub same : s ≡ t

pub Same-IsOrder : IsOrder Same
Same-IsOrder = record {
  refl_at = λ s. record { same = refl };
  trans_at = λ s t u a b. record { same = a.same ∙ b.same };
}

pub ruleset same_rules = (steps_rules, Same-IsOrder)

-- A first part that leaves the rows as they are.
pub skip :
    {A B : Type 0} (m : Op A) (f : A → Op B) (s : Store) (b : B) (t : Store)
    → Steps Same m
    → (m >>= f) s ≡ ok (b, t)
    → (a : A) × (m s ≡ ok (a, s)) × (f a s ≡ ok (b, t))
skip m f s b t k h =
    let (a, s', first, rest) = >>=-eq-ok m f s b t h in
    let e = sym (k.at s a s' first).same in
    (a, subst (λ x. m s ≡ ok (a, x)) e first, subst (λ x. f a x ≡ ok (b, t)) e rest)
