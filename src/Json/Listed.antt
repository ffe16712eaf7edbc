-- ===== src/Json/Listed.antt =====
-- The items of an array as a list, and the test of `Array.prototype.some` on them.
use sovereign_jedi.Prelude.{
  ◌≡◌, refl, ap, Bool, true, false, arith, Bool-cases, inl, inr, ◌||◌, List, [], ◌∷◌, ◌++◌, IsIn,
  All,
}
use sovereign_jedi.Json.{Json, Items, nil, cons, append, any_item}

pub any_item-append :
    (p : Json → Bool) (xs : Items) (x : Json) → any_item p (append xs x) ≡ (any_item p xs || p x)
unfolding any_item
any_item-append p nil x = ground arith
any_item-append p (cons y ys) x = ground (arith, any_item-append p ys x)

-- the items as a list
abbrev pub listed : Items → List Json
listed nil = []
listed (cons x xs) = x ∷ listed xs

pub listed-append : (xs : Items) (x : Json) → listed (append xs x) ≡ listed xs ++ (x ∷ [])
listed-append nil x = refl
listed-append (cons y ys) x = ap (λ (l : List Json). y ∷ l) (listed-append ys x)

pub any_item-IsIn :
    (p : Json → Bool) (xs : Items)
    → any_item p xs ≡ true
    → (x : Json) × IsIn x (listed xs) × (p x ≡ true)
unfolding any_item
any_item-IsIn p nil h = cc
any_item-IsIn p (cons y ys) h = elim (Bool-cases (p y)) [
  | inl q ↦ (y, inl refl, q)
  | inr q ↦ let (x, i, r) = any_item-IsIn p ys (ground (arith, q)) in (x, inr i, r)
]

pub any_item-All :
    (p : Json → Bool) (xs : Items) → any_item p xs ≡ false → All (λ x. p x ≡ false) (listed xs)
unfolding any_item
any_item-All p nil h = tt
any_item-All p (cons y ys) h = (ground arith, any_item-All p ys (ground arith))

pub All-map :
    (F G : Json → Type 0) → ((x : Json) → F x → G x) → (xs : List Json) → All F xs → All G xs
All-map F G f [] h = tt
All-map F G f (x ∷ xs) (h, hs) = (f x h, All-map F G f xs hs)
