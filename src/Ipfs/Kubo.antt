-- ===== src/Ipfs/Kubo.antt =====
-- The Kubo back end: `addBytesViaKubo` and `catBytesViaKubo`.
use sovereign_jedi.Prelude.{
  ℕ, true, false, Option, none, some, List, [], ◌∷◌, Text, trim, is_empty, length, or_default, not,
  if◌then◌else◌, Outcome, ok, err, ◌>>=◌, ◌>>◌, throw_if, or_throw,
}
use sovereign_jedi.Json.{Json, null, str, get, get_in, truthy}
use sovereign_jedi.Platform.{Platform, Bytes}
use sovereign_jedi.Ipfs.{
  IpfsError, request_failed, add_refused, add_unparsed, add_without_cid, cat_refused, cat_empty,
  failed, answered, Node,
}
use sovereign_jedi.Ipfs.Config.{split_at, non_empty}

pub record AddBytesResult : Type 0 where
  pub cid : Text
  pub size : ℕ

abbrev last_of : List Text → Text
last_of [] = []
last_of (l ∷ []) = l
last_of (l ∷ (k ∷ ls)) = last_of (k ∷ ls)

-- the last line of Kubo's NDJSON
unfoldable pub last_line : Text → Text
unfolding split_at non_empty
last_line body = last_of (non_empty (split_at 10 (trim body)))

-- `a ?? b`
abbrev otherwise : Option Json → Option Json → Option Json
otherwise none b = b
otherwise (some null) b = b
otherwise (some v) b = some v

unfoldable pub cid_property : Json → Option Json
unfolding get get_in
cid_property v = otherwise (get "Hash" v) (otherwise (get_in "/" (get "Cid" v)) (get "cid" v))

abbrev text_of : Node → Option Json → Text
text_of n none = []
text_of n (some (str t)) = t
text_of n (some v) = n.string_of v

unfoldable pub read_add_answer : Platform → Node → Text → Outcome IpfsError Text
unfolding last_line cid_property truthy
read_add_answer P n body = do
  parsed ← or_throw (P.parse (last_line body)) add_unparsed
  throw_if (not (truthy (cid_property parsed))) add_without_cid
  ok (text_of n (cid_property parsed))

-- milliseconds allowed to either request
abbrev pub default_timeout_ms : ℕ
default_timeout_ms = 30000

unfoldable pub add_bytes_via_kubo :
    Platform → Node → Text → Option ℕ → Bytes → Outcome IpfsError AddBytesResult
unfolding read_add_answer
add_bytes_via_kubo P n base timeout_ms bytes =
    elim (n.kubo_add base (or_default timeout_ms default_timeout_ms) bytes) [
      | failed ↦ err request_failed
      | answered true body ↦ do
        cid ← read_add_answer P n body
        ok (record { cid = cid; size = length bytes })
      | answered false body ↦ err add_refused
    ]

unfoldable pub cat_bytes_via_kubo : Node → Text → Option ℕ → Text → Outcome IpfsError Bytes
cat_bytes_via_kubo n base timeout_ms cid =
    elim (n.kubo_cat base (or_default timeout_ms default_timeout_ms) cid) [
      | failed ↦ err request_failed
      | answered true bytes ↦ if is_empty bytes then err cat_empty else ok bytes
      | answered false bytes ↦ err cat_refused
    ]
