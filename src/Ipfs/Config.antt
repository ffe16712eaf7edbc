-- ===== src/Ipfs/Config.antt =====
-- How the client reads its configuration: `parseCsv`, `getKuboApiUrl`,
-- `getBootstrapMultiaddrsFromRuntimeOrThrow` and `normalizeBootstrapMultiaddrs`.
pub mod Laws
use sovereign_jedi.Prelude.{
  ℕ, String, Bool, true, false, Option, none, some, List, [], ◌∷◌, ◌++◌, map, reverse, Text, text,
  trim, is_empty, or_default, ◌==◌, if◌then◌else◌, Outcome, ok, err, ◌>>=◌, ◌>>◌, throw_if,
}
use sovereign_jedi.Json.{Json, get, get_in, as_text}
use sovereign_jedi.Platform.{Platform}
use sovereign_jedi.Ipfs.{IpfsError, bootstrap_missing, bootstrap_empty, Addresses, csv, listed}

-- The attributes of <html>: data-sj-config-json, data-sj-ipfs-kubo, data-sj-ipfs-bootstrap.
pub record Html : Type 0 where
  pub config_json : Option Text
  pub kubo : Option Text
  pub bootstrap : Option Text

-- window.__SJ_CONFIG__, the document if there is one, and NEXT_PUBLIC_IPFS_KUBO_API
pub record Sources : Type 0 where
  pub global : Option Json
  pub html : Option Html
  pub kubo_env : Option Text

-- `s.split(separator)` for a separator of one character
abbrev put_first : ℕ → List Text → List Text
put_first c [] = (c ∷ []) ∷ []
put_first c (w ∷ ws) = (c ∷ w) ∷ ws

unfoldable pub split_at : ℕ → Text → List Text
split_at sep [] = [] ∷ []
split_at sep (c ∷ s) = let rest = split_at sep s in if c == sep then [] ∷ rest else put_first c rest

-- `.filter(Boolean)`
unfoldable pub non_empty : List Text → List Text
non_empty [] = []
non_empty (s ∷ ss) = if is_empty s then non_empty ss else s ∷ non_empty ss

unfoldable pub parse_csv : Text → List Text
unfolding split_at non_empty
parse_csv s = non_empty (map trim (split_at 44 s))

-- `.replace(/\/+$/, '')`
unfoldable pub skip_slashes : Text → Text
skip_slashes [] = []
skip_slashes (c ∷ s) = if c == 47 then skip_slashes s else c ∷ s

unfoldable pub strip_slashes : Text → Text
unfolding skip_slashes
strip_slashes s = reverse (skip_slashes (reverse s))

-- `v?.ipfs?.k` where that is a string
unfoldable pub ipfs_setting : String → Option Json → Option Text
unfolding get_in
ipfs_setting k v = as_text (get_in k (get_in "ipfs" v))

-- the attribute's JSON, if it is not empty and parses
unfoldable pub config_of : Platform → Option Text → Option Json
config_of P none = none
config_of P (some raw) = if is_empty raw then none else P.parse raw

abbrev first_of {ℓ} : {A : Type ℓ} → Option A → Option A → Option A
first_of none b = b
first_of (some a) b = some a

unfoldable pub document_kubo : Platform → Option Html → Option Text
unfolding config_of ipfs_setting
document_kubo P none = none
document_kubo P (some h) =
    first_of (ipfs_setting "kuboApiBaseUrl" (config_of P h.config_json)) h.kubo

abbrev pub default_kubo_api : Text
default_kubo_api = text "http://127.0.0.1:5001"

-- the first source that has a text, even an empty one, trimmed
unfoldable pub configured_kubo_url : Platform → Sources → Text
unfolding document_kubo
configured_kubo_url P s = trim (
    or_default (first_of (ipfs_setting "kuboApiBaseUrl" s.global) (document_kubo P s.html))
      (or_default s.kubo_env default_kubo_api))

unfoldable pub get_kubo_api_url : Platform → Sources → Text
unfolding configured_kubo_url strip_slashes
get_kubo_api_url P s = strip_slashes (configured_kubo_url P s)

-- `!raw`: an empty text falls through to the next source.
abbrev filled : Option Text → Option Text
filled none = none
filled (some t) = if is_empty t then none else some t

unfoldable pub document_bootstrap : Platform → Option Html → Option Text
unfolding config_of ipfs_setting
document_bootstrap P none = none
document_bootstrap P (some h) =
    first_of (filled (ipfs_setting "bootstrapMultiaddrsCsv" (config_of P h.config_json)))
      (filled h.bootstrap)

unfoldable pub runtime_bootstrap : Platform → Sources → Text
unfolding document_bootstrap
runtime_bootstrap P s = trim (
    or_default
      (first_of (filled (ipfs_setting "bootstrapMultiaddrsCsv" s.global))
        (document_bootstrap P s.html))
      [])

abbrev no_items : {A : Type 0} → List A → Bool
no_items [] = true
no_items (a ∷ rest) = false

unfoldable pub get_bootstrap_multiaddrs : Platform → Sources → Outcome IpfsError (List Text)
unfolding runtime_bootstrap parse_csv
get_bootstrap_multiaddrs P s = do
  let raw = runtime_bootstrap P s
  throw_if (is_empty raw) bootstrap_missing
  throw_if (no_items (parse_csv raw)) bootstrap_empty
  ok (parse_csv raw)

unfoldable pub normalize_bootstrap_multiaddrs : Addresses → List Text
unfolding parse_csv non_empty
normalize_bootstrap_multiaddrs (csv s) = parse_csv s
normalize_bootstrap_multiaddrs (listed ss) = non_empty (map trim ss)
