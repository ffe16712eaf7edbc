-- ===== src/Checks/JsonCodec.antt =====
-- The encoding of JSON values: a tag for each constructor, and a count of them at the front.
use Prim.Native.Nat.{suc, zero, ◌+◌, ◌≤◌}
use sovereign_jedi.Prelude.{
  ℕ, Text, ◌≡◌, refl, true, false, Option, none, some, List, [], ◌∷◌, arith,
}
use sovereign_jedi.Json.{Json, Items, Fields, null, bool, num, str, arr, obj, nil, cons, end, field}
use sovereign_jedi.Checks.Codec.{
  Parser, then_parse, yields, put_text, get_text, get_text-put_text, put_key, get_key,
  get_key-put_key,
}

abbrev mutual
  size : Json → ℕ
  size (arr xs) = suc (size_items xs)
  size (obj fs) = suc (size_fields fs)
  size _ = 1

  size_items : Items → ℕ
  size_items nil = 1
  size_items (cons x xs) = suc (size x + size_items xs)

  size_fields : Fields → ℕ
  size_fields end = 1
  size_fields (field k v fs) = suc (size v + size_fields fs)

unfoldable mutual
  put : Json → List ℕ → List ℕ
  put null r = 0 ∷ r
  put (bool false) r = 1 ∷ r
  put (bool true) r = 2 ∷ r
  put (num n) r = 3 ∷ (n ∷ r)
  put (str t) r = 4 ∷ put_text t r
  put (arr xs) r = 5 ∷ put_items xs r
  put (obj fs) r = 6 ∷ put_fields fs r

  put_items : Items → List ℕ → List ℕ
  put_items nil r = 0 ∷ r
  put_items (cons x xs) r = 1 ∷ put x (put_items xs r)

  put_fields : Fields → List ℕ → List ℕ
  put_fields end r = 0 ∷ r
  put_fields (field k v fs) r = 1 ∷ put_key k (put v (put_fields fs r))

abbrev get_num : Parser Json
get_num [] = none
get_num (n ∷ r) = some (num n, r)

unfoldable mutual
  take_json : ℕ → Parser Json
  take_json zero r = none
  take_json (suc n) [] = none
  take_json (suc n) (zero ∷ r) = some (null, r)
  take_json (suc n) (suc zero ∷ r) = some (bool false, r)
  take_json (suc n) (suc (suc zero) ∷ r) = some (bool true, r)
  take_json (suc n) (suc (suc (suc zero)) ∷ r) = get_num r
  take_json (suc n) (suc (suc (suc (suc zero))) ∷ r) = then_parse (get_text r) λ t. yields (str t)
  take_json (suc n) (suc (suc (suc (suc (suc zero)))) ∷ r) =
      then_parse (take_items n r) λ xs. yields (arr xs)
  take_json (suc n) (suc (suc (suc (suc (suc (suc zero))))) ∷ r) =
      then_parse (take_fields n r) λ fs. yields (obj fs)
  take_json (suc n) (suc (suc (suc (suc (suc (suc (suc _)))))) ∷ r) = none

  take_items : ℕ → Parser Items
  take_items zero r = none
  take_items (suc n) [] = none
  take_items (suc n) (zero ∷ r) = some (nil, r)
  take_items (suc n) (suc _ ∷ r) =
      then_parse (take_json n r) λ x r1. then_parse (take_items n r1) λ xs. yields (cons x xs)

  take_fields : ℕ → Parser Fields
  take_fields zero r = none
  take_fields (suc n) [] = none
  take_fields (suc n) (zero ∷ r) = some (end, r)
  take_fields (suc n) (suc _ ∷ r) = then_parse (get_key r) λ k r1.
      then_parse (take_json n r1) λ v r2. then_parse (take_fields n r2) λ fs. yields (field k v fs)

mutual
  unfolding put take_json

  take-put : (n : ℕ) (v : Json) (r : List ℕ) → size v ≤ n → take_json n (put v r) ≡ some (v, r)
  take-put zero null r h = absurd (omega arith)
  take-put zero (bool b) r h = absurd (omega arith)
  take-put zero (num m) r h = absurd (omega arith)
  take-put zero (str t) r h = absurd (omega arith)
  take-put zero (arr xs) r h = absurd (omega arith)
  take-put zero (obj fs) r h = absurd (omega arith)
  take-put (suc n) null r h = refl
  take-put (suc n) (bool false) r h = refl
  take-put (suc n) (bool true) r h = refl
  take-put (suc n) (num m) r h = refl
  take-put (suc n) (str t) r h = rw (get_text-put_text t r) refl
  take-put (suc n) (arr xs) r h = rw (take-put_items n xs r (omega arith)) refl
  take-put (suc n) (obj fs) r h = rw (take-put_fields n fs r (omega arith)) refl

  take-put_items :
      (n : ℕ) (v : Items) (r : List ℕ)
      → size_items v ≤ n
      → take_items n (put_items v r) ≡ some (v, r)
  take-put_items zero nil r h = absurd (omega arith)
  take-put_items zero (cons x xs) r h = absurd (omega arith)
  take-put_items (suc n) nil r h = refl
  take-put_items (suc n) (cons x xs) r h =
      rw (take-put n x (put_items xs r) (omega arith), take-put_items n xs r (omega arith)) refl

  take-put_fields :
      (n : ℕ) (v : Fields) (r : List ℕ)
      → size_fields v ≤ n
      → take_fields n (put_fields v r) ≡ some (v, r)
  take-put_fields zero end r h = absurd (omega arith)
  take-put_fields zero (field k v fs) r h = absurd (omega arith)
  take-put_fields (suc n) end r h = refl
  take-put_fields (suc n) (field k v fs) r h =
      rw
        (
          get_key-put_key k (put v (put_fields fs r)),
          take-put n v (put_fields fs r) (omega arith),
          take-put_fields n fs r (omega arith),
        )
        refl

unfoldable pub stringify : Json → Text
unfolding put
stringify v = size v ∷ put v []

abbrev parsed : Option (Json × List ℕ) → Option Json
parsed none = none
parsed (some (v, r)) = some v

unfoldable pub parse : Text → Option Json
unfolding take_json
parse [] = none
parse (n ∷ r) = parsed (take_json n r)

pub parse-stringify : (v : Json) → parse (stringify v) ≡ some v
unfolding parse stringify
parse-stringify v = rw (take-put (size v) v [] (omega arith)) refl
