-- ===== src/Store/Steps.antt =====
-- Relations between the rows before and after a successful operation, one rule for each way to build
-- an operation.
use carryctx.Base.{
  Bool, true, false, Option, none, some, ◌≡◌, refl, subst, arith, Result, ok, err, if◌then◌else◌,
  Bool-cases, inl, inr,
}
use carryctx.Error.{CarryCtxError}
use carryctx.Store.{Store, Op, return, fail, require, lift, gets, ◌>>=◌}

-- Whenever `m` succeeds, `R` holds between the rows it started from and the rows it leaves.
pub record Steps {A : Type 0} (R : Store → Store → Type 0) (m : Op A) : Type 0 where
  pub at : (s : Store) (a : A) (t : Store) → m s ≡ ok (a, t) → R s t

-- A relation that composes.
pub record IsOrder (R : Store → Store → Type 0) : Type 0 where
  pub refl_at : (s : Store) → R s s
  pub trans_at : (s t u : Store) → R s t → R t u → R s u

continue-eq-ok :
    {A B : Type 0} (r : Result CarryCtxError (A × Store)) (f : A → Op B) (b : B) (t : Store)
    → (elim r [ ok x ↦ f x.0 x.1 | err e ↦ err e ]) ≡ ok (b, t)
    → (a : A) × (s' : Store) × (r ≡ ok (a, s')) × (f a s' ≡ ok (b, t))
continue-eq-ok (ok (a, s')) f b t h = (a, s', refl, h)
continue-eq-ok (err e) f b t h = cc

-- A chain that succeeded: its first part did, and the rest did from there.
pub >>=-eq-ok :
    {A B : Type 0} (m : Op A) (f : A → Op B) (s : Store) (b : B) (t : Store)
    → (m >>= f) s ≡ ok (b, t)
    → (a : A) × (s' : Store) × (m s ≡ ok (a, s')) × (f a s' ≡ ok (b, t))
unfolding ◌>>=◌
>>=-eq-ok m f s b t h = continue-eq-ok (m s) f b t h

pub require-eq-ok :
    (c : Bool) (e : CarryCtxError) (s : Store) (u : Unit {0}) (t : Store)
    → require c e s ≡ ok (u, t)
    → (c ≡ true) × (s ≡ t)
unfolding require
require-eq-ok true e s u t h = ground arith
require-eq-ok false e s u t h = cc

pub return-eq-ok : {A : Type 0} (a b : A) (s t : Store) → return a s ≡ ok (b, t) → (a ≡ b) × (s ≡ t)
unfolding return
return-eq-ok a b s t h = ground (arith, h)

pub gets-eq-ok : {A : Type 0} (f : Store → A) (a : A) (s t : Store) → gets f s ≡ ok (a, t) → f s ≡ a
unfolding gets
gets-eq-ok f a s t h = ground (arith, h)

module _ {R : Store → Store → Type 0} (o : IsOrder R) where
  Steps_same :
      {A : Type 0} (s t : Store) (a b : A)
      → ◌≡◌ {A = Result CarryCtxError (A × Store)} (ok (a, s)) (ok (b, t))
      → R s t
  Steps_same s t a b e = subst (R s) (cc) (o.refl_at s)

  pub Steps-return : {A : Type 0} (a : A) → Steps R (return a)
  unfolding return
  Steps-return a = record { at = λ s b t e. Steps_same s t a b e }

  pub Steps-fail : {A : Type 0} (e : CarryCtxError) → Steps R (fail {A = A} e)
  unfolding fail
  Steps-fail e = record { at = λ s b t h. cc }

  pub Steps-gets : {A : Type 0} (f : Store → A) → Steps R (gets f)
  unfolding gets
  Steps-gets f = record { at = λ s b t e. Steps_same s t (f s) b e }

  pub Steps-require : (c : Bool) (e : CarryCtxError) → Steps R (require c e)
  Steps-require c e = record {
    at = λ s b t h. subst (R s) ((require-eq-ok c e s b t h).1) (o.refl_at s);
  }

  pub Steps-lift : {A : Type 0} (r : Result CarryCtxError A) → Steps R (lift r)
  unfolding lift
  Steps-lift (ok a) = record { at = λ s b t e. Steps_same s t a b e }
  Steps-lift (err e) = record { at = λ s b t h. cc }

  pub Steps-bind :
      {A B : Type 0} (m : Op A) (f : A → Op B)
      → Steps R m
      → ((a : A) → Steps R (f a))
      → Steps R (m >>= f)
  Steps-bind m f km kf = record {
    at = λ s b t h.
        let (a, s', first, rest) = >>=-eq-ok m f s b t h in
        o.trans_at s s' t (km.at s a s' first) ((kf a).at s' b t rest);
  }

  pub Steps-if :
      {A : Type 0} (b : Bool) (m n : Op A) → Steps R m → Steps R n → Steps R (if b then m else n)
  Steps-if true m n km kn = km
  Steps-if false m n km kn = kn

  pub Steps-option :
      {A B : Type 0} (x : Option A) (m : Op B) (f : A → Op B)
      → Steps R m
      → ((a : A) → Steps R (f a))
      → Steps R (elim x [ none ↦ m | some a ↦ f a ])
  Steps-option none m f km kf = km
  Steps-option (some a) m f km kf = kf a

  -- A test on the rows themselves.
  pub Steps-when :
      {A : Type 0} (p : Store → Bool) (m n : Op A)
      → Steps R m
      → Steps R n
      → Steps R (λ s. if p s then m s else n s)
  Steps-when p m n km kn = record {
    at = λ s a t h. elim (Bool-cases (p s)) [
      | inl hit ↦ km.at s a t (rw hit at h)
      | inr miss ↦ kn.at s a t (rw miss at h)
    ];
  }

pub ruleset steps_rules = (
  Steps-return, Steps-fail, Steps-gets, Steps-require, Steps-lift, Steps-if, Steps-option,
  Steps-bind,
)
