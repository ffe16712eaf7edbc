-- ===== src/Checks/Codec.antt =====
-- A small lossless encoding of JSON values as lists of numbers, for the sample surroundings.
use Prim.Native.Nat.{suc, zero, compare, Ordering}
use Prim.Native.Char.{Char, char, code, IsLt}
use sovereign_jedi.Prelude.{ℕ, String, Text, ◌≡◌, refl, Option, none, some, List, [], ◌∷◌}

abbrev pub Parser : Type 0 → Type 0
Parser A = List ℕ → Option (A × List ℕ)

abbrev pub then_parse : {A B : Type 0} → Option (A × List ℕ) → (A → Parser B) → Option (B × List ℕ)
then_parse none f = none
then_parse (some (a, r)) f = f a r

abbrev pub yields : {A : Type 0} → A → Parser A
yields a r = some (a, r)

unfoldable pub put_text : Text → List ℕ → List ℕ
put_text [] r = 0 ∷ r
put_text (c ∷ t) r = suc c ∷ put_text t r

unfoldable pub get_text : Parser Text
get_text [] = none
get_text (zero ∷ r) = some ([], r)
get_text (suc c ∷ r) = then_parse (get_text r) λ t. yields (c ∷ t)

pub get_text-put_text : (t : Text) (r : List ℕ) → get_text (put_text t r) ≡ some (t, r)
unfolding get_text put_text
get_text-put_text [] r = refl
get_text-put_text (c ∷ t) r = rw (get_text-put_text t r) refl

-- Whether a number is a character's. `IsScalar n` unfolds to `Scalar` of three comparisons.
abbrev BothLt : Ordering → Ordering → Type 0
BothLt Ordering.lt o = IsLt o
BothLt Ordering.eq _ = ⊥
BothLt Ordering.gt _ = ⊥

abbrev Scalar : Ordering → Ordering → Ordering → Type 0
Scalar Ordering.lt _ _ = Unit
Scalar Ordering.eq o p = BothLt o p
Scalar Ordering.gt o p = BothLt o p

abbrev lt_of : (o : Ordering) → Option (IsLt o)
lt_of Ordering.lt = some tt
lt_of Ordering.eq = none
lt_of Ordering.gt = none

abbrev both_lt_of : (o p : Ordering) → Option (BothLt o p)
both_lt_of Ordering.lt p = lt_of p
both_lt_of Ordering.eq p = none
both_lt_of Ordering.gt p = none

abbrev scalar_of : (o p q : Ordering) → Option (Scalar o p q)
scalar_of Ordering.lt p q = some tt
scalar_of Ordering.eq p q = both_lt_of p q
scalar_of Ordering.gt p q = both_lt_of p q

abbrev both_lt_of_lem : (o p : Ordering) (t : BothLt o p) → both_lt_of o p ≡ some t
both_lt_of_lem Ordering.lt Ordering.lt t = refl
both_lt_of_lem Ordering.lt Ordering.eq t = elim t [ ]
both_lt_of_lem Ordering.lt Ordering.gt t = elim t [ ]
both_lt_of_lem Ordering.eq p t = elim t [ ]
both_lt_of_lem Ordering.gt p t = elim t [ ]

abbrev scalar_of_lem : (o p q : Ordering) (t : Scalar o p q) → scalar_of o p q ≡ some t
scalar_of_lem Ordering.lt p q t = refl
scalar_of_lem Ordering.eq p q t = both_lt_of_lem p q t
scalar_of_lem Ordering.gt p q t = both_lt_of_lem p q t

unfoldable pub to_char : ℕ → Option Char
to_char n = elim (scalar_of (compare n 55296) (compare 57343 n) (compare n 1114112)) [
  | none ↦ none
  | some t ↦ some (char n t)
]

to_char-code : (c : Char) → to_char (code c) ≡ some c
unfolding to_char
to_char-code (char n t) =
    rw (to_char, scalar_of_lem (compare n 55296) (compare 57343 n) (compare n 1114112) t) refl

unfoldable pub put_key : String → List ℕ → List ℕ
put_key String.[] r = 0 ∷ r
put_key (String.◌∷◌ c s) r = suc (code c) ∷ put_key s r

abbrev key_char : Option Char → Option (String × List ℕ) → Option (String × List ℕ)
key_char none k = none
key_char (some c) none = none
key_char (some c) (some (s, r)) = some (String.◌∷◌ c s, r)

unfoldable pub get_key : Parser String
get_key [] = none
get_key (zero ∷ r) = some (String.[], r)
get_key (suc n ∷ r) = key_char (to_char n) (get_key r)

pub get_key-put_key : (k : String) (r : List ℕ) → get_key (put_key k r) ≡ some (k, r)
unfolding get_key put_key
get_key-put_key String.[] r = refl
get_key-put_key (String.◌∷◌ c s) r = rw (to_char-code c, get_key-put_key s r) refl
