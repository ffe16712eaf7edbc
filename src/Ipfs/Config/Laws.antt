-- ===== src/Ipfs/Config/Laws.antt =====
-- What the configuration gives: a base URL with no slash at its end, and addresses that are trimmed,
-- not empty and without commas.
use sovereign_jedi.Prelude.{
  ◌≡◌, ◌≢◌, sym, ap, ◌∙◌, inl, inr, false, List, [], ◌∷◌, ◌++◌, map, reverse, Text, trim, trim-trim,
  is_empty, All, ◌==◌, arith, Bool-cases,
}
use mathlib.Core.List.{reverse-append, reverse-reverse}
use sovereign_jedi.Platform.{Platform}
use sovereign_jedi.Ipfs.{Addresses, csv, listed}
use sovereign_jedi.Ipfs.Config.{
  Sources, split_at, non_empty, parse_csv, skip_slashes, strip_slashes, configured_kubo_url,
  get_kubo_api_url, normalize_bootstrap_multiaddrs,
}

skip_slashes-head : (s t : Text) → skip_slashes s ≡ 47 ∷ t → ⊥
unfolding skip_slashes
skip_slashes-head [] t h = absurd (cc h)
skip_slashes-head (c ∷ s) t h = elim (Bool-cases (c == 47)) [
  | inl e ↦ skip_slashes-head s t (ground arith)
  | inr e ↦ absurd (ground arith)
]

strip_slashes-end : (s p : Text) → strip_slashes s ≢ p ++ (47 ∷ [])
unfolding strip_slashes
strip_slashes-end s p h =
    skip_slashes-head (reverse s) (reverse p)
      (sym (reverse-reverse (skip_slashes (reverse s))) ∙ ap reverse h ∙ reverse-append p (47 ∷ []))

-- The base URL of Kubo does not end in a slash.
pub get_kubo_api_url-end :
    (P : Platform) (s : Sources) (p : Text) → get_kubo_api_url P s ≢ p ++ (47 ∷ [])
unfolding get_kubo_api_url
get_kubo_api_url-end P s p = strip_slashes-end (configured_kubo_url P s) p

-- no text of the list is empty or has blanks at its ends
abbrev pub Clean : Text → Type 0
Clean s = (is_empty s ≡ false) × (trim s ≡ s)

non_empty-Clean : (ss : List Text) → All (λ s. trim s ≡ s) ss → All Clean (non_empty ss)
unfolding non_empty
non_empty-Clean [] h = tt
non_empty-Clean (s ∷ ss) h = elim (Bool-cases (is_empty s)) [
  | inl e ↦ rw e (non_empty-Clean ss h.1)
  | inr e ↦ rw e ((e, h.0), non_empty-Clean ss h.1)
]

map-trim : (ss : List Text) → All (λ s. trim s ≡ s) (map trim ss)
map-trim [] = tt
map-trim (s ∷ ss) = (trim-trim s, map-trim ss)

pub parse_csv-Clean : (s : Text) → All Clean (parse_csv s)
unfolding parse_csv
parse_csv-Clean s = non_empty-Clean (map trim (split_at 44 s)) (map-trim (split_at 44 s))

pub normalize-Clean : (a : Addresses) → All Clean (normalize_bootstrap_multiaddrs a)
unfolding normalize_bootstrap_multiaddrs
normalize-Clean (csv s) = parse_csv-Clean s
normalize-Clean (listed ss) = non_empty-Clean (map trim ss) (map-trim ss)
