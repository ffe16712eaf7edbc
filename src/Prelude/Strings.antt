-- ===== src/Prelude/Strings.antt =====
-- JavaScript strings: lists of UTF-16 code units, with `===`, `trim`, and the test `/\s/`.
use Prim.Native.Nat.{ℕ}
use Prim.Native.Char.{code}
use Prim.Native.String.{String}
use mathlib.Core.Path.{◌≡◌, refl, ◌∙◌, sym, ap, subst}
use mathlib.Core.Logic.{◌↔◌, ◌≢◌, inl, inr}
use mathlib.Core.Bool.{Bool, true, false, ◌&&◌, ◌||◌}
use mathlib.Core.List.{List, [], ◌∷◌, ◌++◌, reverse, reverse-append, reverse-reverse}
use native.Mathlib.Omega.{arith}
use sovereign_jedi.Prelude.Tests.{◌==◌, leb, if◌then◌else◌, Bool-cases}
use sovereign_jedi.Prelude.Lists.{any}

abbrev pub Text : Type 0
Text = List ℕ

-- A literal; the program's literals are ASCII.
abbrev pub text : String → Text
text String.[] = []
text (String.◌∷◌ c s) = code c ∷ text s

-- `a === b`
unfoldable pub text_eq : Text → Text → Bool
text_eq [] [] = true
text_eq (a ∷ s) (b ∷ t) = a == b && text_eq s t
text_eq _ _ = false

pub text_eq→eq : (s t : Text) → text_eq s t ≡ true → s ≡ t
unfolding text_eq
text_eq→eq [] [] h = refl
text_eq→eq [] (b ∷ t) h = cc
text_eq→eq (a ∷ s) [] h = cc
text_eq→eq (a ∷ s) (b ∷ t) h = ground (arith, text_eq→eq s t)

pub text_eq_refl : (s : Text) → text_eq s s ≡ true
unfolding text_eq
text_eq_refl [] = refl
text_eq_refl (a ∷ s) = ground (arith, text_eq_refl s)

pub text_eq_iff : (s t : Text) → (text_eq s t ≡ true) ↔ (s ≡ t)
text_eq_iff s t = (text_eq→eq s t, λ e. ap (text_eq s) (sym e) ∙ text_eq_refl s)

-- `!s` for a string: only the empty one is falsy.
abbrev pub is_empty : Text → Bool
is_empty [] = true
is_empty (c ∷ s) = false

-- ECMAScript WhiteSpace and LineTerminator, which `trim` removes and `\s` matches.
unfoldable pub is_space : ℕ → Bool
is_space c =
    leb 9 c && leb c 13
    || c == 32
    || c == 160
    || c == 5760
    || leb 8192 c && leb c 8202
    || c == 8232
    || c == 8233
    || c == 8239
    || c == 8287
    || c == 12288
    || c == 65279

unfoldable pub trim_start : Text → Text
trim_start [] = []
trim_start (c ∷ s) = if is_space c then trim_start s else c ∷ s

unfoldable pub trim : Text → Text
unfolding trim_start
trim s = reverse (trim_start (reverse (trim_start s)))

-- `/\s/.test(s)`
unfoldable pub has_space : Text → Bool
has_space s = any is_space s

-- Trimming what is trimmed changes nothing.
HeadOk : Text → Type 0
HeadOk [] = Unit
HeadOk (c ∷ s) = is_space c ≡ false

HeadOk-trim_start : (s : Text) → HeadOk (trim_start s)
unfolding trim_start HeadOk
HeadOk-trim_start [] = tt
HeadOk-trim_start (c ∷ s) = elim (Bool-cases (is_space c)) [
  | inl e ↦ rw e (HeadOk-trim_start s)
  | inr e ↦ rw e e
]

trim_start-HeadOk : (s : Text) → HeadOk s → trim_start s ≡ s
unfolding trim_start HeadOk
trim_start-HeadOk [] h = refl
trim_start-HeadOk (c ∷ s) h = rw h refl

-- What `trim_start` leaves is the end of the text.
trim_start-suffix : (s : Text) → (p : Text) × (s ≡ p ++ trim_start s)
unfolding trim_start
trim_start-suffix [] = ([], refl)
trim_start-suffix (c ∷ s) = elim (Bool-cases (is_space c)) [
  | inl e ↦ let (p, q) = trim_start-suffix s in (c ∷ p, rw e (ap (λ (t : Text). c ∷ t) q))
  | inr e ↦ ([], rw e refl)
]

HeadOk-prefix : (b p : Text) → HeadOk (b ++ p) → HeadOk b
unfolding HeadOk
HeadOk-prefix [] p h = tt
HeadOk-prefix (c ∷ b) p h = h

trim-HeadOk : (s : Text) → HeadOk (trim s)
unfolding trim
trim-HeadOk s =
    let a = trim_start s in
    let (p, q) = trim_start-suffix (reverse a) in
    let e : a ≡ reverse (trim_start (reverse a)) ++ reverse p =
      sym (reverse-reverse a) ∙ ap reverse q ∙ reverse-append p (trim_start (reverse a)) in
    HeadOk-prefix _ (reverse p) (subst HeadOk e (HeadOk-trim_start s))

pub trim-trim : (s : Text) → trim (trim s) ≡ trim s
unfolding trim
trim-trim s =
    let a = trim_start s in
    let once = trim_start (reverse a) in
    ap (λ (t : Text). reverse (trim_start (reverse t)))
      (trim_start-HeadOk (reverse once) (trim-HeadOk s))
    ∙ ap (λ (t : Text). reverse (trim_start t)) (reverse-reverse once)
    ∙ ap reverse (trim_start-HeadOk once (HeadOk-trim_start (reverse a)))

pub append_cancel_left : (p s t : Text) → p ++ s ≡ p ++ t → s ≡ t
append_cancel_left [] s t e = e
append_cancel_left (c ∷ p) s t e = append_cancel_left p s t (cc e)

pub text_eq_ne : (s t : Text) → s ≢ t → text_eq s t ≡ false
text_eq_ne s t h = elim (Bool-cases (text_eq s t)) [
  | inl e ↦ absurd (h (text_eq→eq s t e))
  | inr e ↦ e
]
