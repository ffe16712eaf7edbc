-- ===== src/Json.antt =====
-- The values that `JSON.parse` returns and `JSON.stringify` takes, read the way the program reads
-- them. An absent property is `undefined`, here `none`. Numbers are natural: the program stores
-- versions, sizes and times in milliseconds.
pub mod Laws
pub mod Listed
use text.Mathlib.Text.{◌==◌ as str_eq}
use sovereign_jedi.Prelude.{
  ℕ, String, Text, Bool, true, false, Option, none, some, List, [], ◌∷◌, ◌==◌, text_eq,
  if◌then◌else◌, ◌||◌,
}

mutual
  pub data Json : Type 0 where
    null : Json
    bool : Bool → Json
    num : ℕ → Json
    str : Text → Json
    arr : Items → Json
    obj : Fields → Json

  pub data Items : Type 0 where
    nil : Items
    cons : Json → Items → Items

  pub data Fields : Type 0 where
    end : Fields
    field : String → Json → Fields → Fields

-- An own property; properties keep their order, as `JSON.stringify` does.
unfoldable pub find_field : String → Fields → Option Json
find_field k end = none
find_field k (field j v r) = if str_eq j k then some v else find_field k r

-- `v?.k`
unfoldable pub get : String → Json → Option Json
unfolding find_field
get k (obj fs) = find_field k fs
get k _ = none

-- `v?.k` for a value that may itself be undefined
unfoldable pub get_in : String → Option Json → Option Json
unfolding get
get_in k none = none
get_in k (some v) = get k v

unfoldable pub set_in : String → Json → Fields → Fields
set_in k v end = field k v end
set_in k v (field j w r) = if str_eq j k then field j v r else field j w (set_in k v r)

-- `v.k = x` on an object
unfoldable pub set_field : String → Json → Json → Json
unfolding set_in
set_field k x (obj fs) = obj (set_in k x fs)
set_field k x v = v

-- A property that is left out where the value is undefined.
abbrev pub optional : String → Option Json → Fields → Fields
optional k none r = r
optional k (some v) r = field k v r

-- `v === n`
unfoldable pub is_num : Option Json → ℕ → Bool
is_num (some (num m)) n = m == n
is_num _ n = false

-- `v === s`
unfoldable pub is_str : Option Json → Text → Bool
is_str (some (str t)) s = text_eq t s
is_str _ s = false

-- `typeof v === "string"`
abbrev pub as_text : Option Json → Option Text
as_text (some (str t)) = some t
as_text _ = none

-- `!!v`
unfoldable pub truthy : Option Json → Bool
truthy none = false
truthy (some null) = false
truthy (some (bool b)) = b
truthy (some (num n)) = if n == 0 then false else true
truthy (some (str [])) = false
truthy (some _) = true

abbrev pub append : Items → Json → Items
append nil x = cons x nil
append (cons y ys) x = cons y (append ys x)

unfoldable pub any_item : (Json → Bool) → Items → Bool
any_item p nil = false
any_item p (cons x xs) = p x || any_item p xs
