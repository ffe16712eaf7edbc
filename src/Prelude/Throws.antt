-- ===== src/Prelude/Throws.antt =====
-- Functions that may throw, and methods that change a state and may throw: what was written before
-- a throw stays written.
use mathlib.Core.Path.{◌≡◌, refl}
use mathlib.Core.Logic.{◌⊎◌, inl, inr}
use mathlib.Core.Bool.{Bool, true, false}
use mathlib.Core.Option.{Option, none, some}

pub data Outcome {ℓ} (E A : Type ℓ) : Type ℓ where
  ok : A → Outcome E A
  err : E → Outcome E A

infixl 5 ◌>>=◌ ◌>>◌
abbrev pub ◌>>=◌ {ℓ} : {E A B : Type ℓ} → Outcome E A → (A → Outcome E B) → Outcome E B
ok a >>= f = f a
err e >>= f = err e

abbrev pub ◌>>◌ : {E B : Type 0} → Outcome E Unit → Outcome E B → Outcome E B
m >> k = m >>= λ _. k

-- `if (b) throw e`
abbrev pub throw_if : {E : Type 0} → Bool → E → Outcome E Unit
throw_if true e = err e
throw_if false e = ok tt

-- a call that throws, seen as `none`
abbrev pub or_throw : {E A : Type 0} → Option A → E → Outcome E A
or_throw none e = err e
or_throw (some a) e = ok a

pub Outcome-cases {ℓ} :
    {E A : Type ℓ} (r : Outcome E A) → ((a : A) × (r ≡ ok a)) ⊎ ((e : E) × (r ≡ err e))
Outcome-cases (ok a) = inl (a, refl)
Outcome-cases (err e) = inr (e, refl)

-- What holds of the value, if one is returned.
abbrev pub Returns : {E A : Type 0} → (A → Type 0) → Outcome E A → Type 0
Returns Q (ok a) = Q a
Returns Q (err e) = Unit

pub Returns-bind :
    {E A B : Type 0} (Q : B → Type 0) (r : Outcome E A) (f : A → Outcome E B)
    → ((a : A) → r ≡ ok a → Returns Q (f a))
    → Returns Q (r >>= f)
Returns-bind Q (ok a) f k = k a refl
Returns-bind Q (err e) f k = tt

pub Returns-self : {E A : Type 0} (r : Outcome E A) → Returns (λ a. r ≡ ok a) r
Returns-self (ok a) = refl
Returns-self (err e) = tt
