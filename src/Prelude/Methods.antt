-- ===== src/Prelude/Methods.antt =====
-- Methods of an object: they read and change its state and may throw. What was written before a
-- throw stays written, so the state comes back beside the outcome.
use mathlib.Core.Path.{◌≡◌, refl}
use sovereign_jedi.Prelude.Throws.{Outcome, ok, err}

abbrev pub Method : Type 0 → Type 0 → Type 0 → Type 0
Method S E A = S → Outcome E A × S

module _ {S E A B : Type 0} where
  abbrev pub and_then : Outcome E A × S → (A → Method S E B) → Outcome E B × S
  and_then (ok a, s) f = f a s
  and_then (err e, s) f = (err e, s)

  infixl 5 ◌>>=◌ ◌>>◌
  unfoldable pub ◌>>=◌ : Method S E A → (A → Method S E B) → Method S E B
  ◌>>=◌ m f s = and_then (m s) f

  unfoldable pub ◌>>◌ : Method S E A → Method S E B → Method S E B
  ◌>>◌ m k s = and_then (m s) (λ _. k)

module _ {S E A : Type 0} where
  -- the value of a call that leaves the object alone, or its exception
  abbrev pub call : Outcome E A → Method S E A
  call r s = (r, s)

  abbrev pub done : A → Method S E A
  done a s = (ok a, s)

  abbrev pub throw : E → Method S E A
  throw e s = (err e, s)

  abbrev pub reads : (S → A) → Method S E A
  reads f s = (ok (f s), s)

abbrev pub changes : {S E : Type 0} → (S → S) → Method S E Unit
changes f s = (ok tt, f s)

-- A call from a state ends well with `Q`, or throws with `R`.
module _ {S E : Type 0} where
  abbrev pub Ensures : {A : Type 0} → (A → S → Type 0) → (S → Type 0) → Outcome E A × S → Type 0
  Ensures Q R (ok a, s) = Q a s
  Ensures Q R (err e, s) = R s

  -- The rest of a block may use what its first call ensures.
  pub Ensures-bind :
      {A B : Type 0} (Q : A → S → Type 0) (T : B → S → Type 0) (R : S → Type 0)
      (r : Outcome E A × S) (f : A → Method S E B)
      → Ensures Q R r
      → ((a : A) (s : S) → Q a s → Ensures T R (f a s))
      → Ensures T R (and_then r f)
  Ensures-bind Q T R (ok a, s) f h k = k a s h
  Ensures-bind Q T R (err e, s) f h k = h

  -- The rest of a block may use that a call which leaves the state alone returned its value.
  pub Ensures-call :
      {A B : Type 0} (T : B → S → Type 0) (R : S → Type 0) (r : Outcome E A) (f : A → Method S E B)
      (s : S)
      → R s
      → ((a : A) → r ≡ ok a → Ensures T R (f a s))
      → Ensures T R (and_then (r, s) f)
  Ensures-call T R (ok a) f s h k = k a refl
  Ensures-call T R (err e) f s h k = h

  -- The same for a call that changes the state.
  pub Ensures-step :
      {A B : Type 0} (T : B → S → Type 0) (R : S → Type 0) (r : Outcome E A × S)
      (f : A → Method S E B)
      → ((e : E) (s : S) → r ≡ (err e, s) → R s)
      → ((a : A) (s : S) → r ≡ (ok a, s) → Ensures T R (f a s))
      → Ensures T R (and_then r f)
  Ensures-step T R (ok a, s) f h k = k a s refl
  Ensures-step T R (err e, s) f h k = h e s refl
