-- ===== src/Json/Laws.antt =====
-- Reading a property after writing one.
use text.Mathlib.Text.{◌==◌ as str_eq}
use text.Mathlib.TextEquality.{eq_iff}
use sovereign_jedi.Prelude.{
  String, Text, ◌≡◌, refl, ap, true, false, Option, none, some, arith, if◌then◌else◌, text_eq→eq, ℕ,
}
use sovereign_jedi.Json.{
  Json, Fields, null, bool, num, str, arr, obj, end, field, optional, find_field, get, set_in,
  set_field, is_num, is_str,
}

find-set :
    (k j : String) (v : Json) (fs : Fields)
    → find_field j (set_in k v fs) ≡ (if str_eq k j then some v else find_field j fs)
unfolding find_field set_in
find-set k j v end = ground arith
find-set k j v (field i w r) = ground (arith, eq_iff k j, eq_iff i k, eq_iff i j, find-set k j v r)

-- Reading back an assigned property gives the value assigned; any other property is untouched.
pub get-set :
    (k j : String) (v : Json) (fs : Fields)
    → get j (set_field k v (obj fs)) ≡ (if str_eq k j then some v else get j (obj fs))
unfolding get set_field
get-set k j v fs = find-set k j v fs

-- An optional property that the rest does not have is the value given for it, and one of another
-- name is passed over.
pub find-optional :
    (k : String) (v : Option Json) (r : Fields)
    → str_eq k k ≡ true
    → find_field k r ≡ none
    → find_field k (optional k v r) ≡ v
unfolding find_field
find-optional k none r same absent = absent
find-optional k (some v) r same absent = rw same refl

pub skip-optional :
    (k j : String) (v : Option Json) (r : Fields)
    → str_eq j k ≡ false
    → find_field k (optional j v r) ≡ find_field k r
unfolding find_field
skip-optional k j none r differ = refl
skip-optional k j (some v) r differ = rw differ refl

-- A test on a string property tells which string it is.
pub is_str-eq : (v : Option Json) (t : Text) → is_str v t ≡ true → v ≡ some (str t)
unfolding is_str
is_str-eq none t h = cc
is_str-eq (some null) t h = cc
is_str-eq (some (bool b)) t h = cc
is_str-eq (some (num n)) t h = cc
is_str-eq (some (str s)) t h = ap (λ (u : Text). some (str u)) (text_eq→eq s t h)
is_str-eq (some (arr xs)) t h = cc
is_str-eq (some (obj fs)) t h = cc

pub is_num-eq : (v : Option Json) (n : ℕ) → is_num v n ≡ true → v ≡ some (num n)
unfolding is_num
is_num-eq none n h = cc
is_num-eq (some null) n h = cc
is_num-eq (some (bool b)) n h = cc
is_num-eq (some (num m)) n h = ground arith
is_num-eq (some (str s)) n h = cc
is_num-eq (some (arr xs)) n h = cc
is_num-eq (some (obj fs)) n h = cc
