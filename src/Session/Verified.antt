-- ===== src/Session/Verified.antt =====
-- The persisted `Verified` signal of SessionManager.ts: `loadVerified`, `saveVerified` and
-- `clearVerified` over the one localStorage entry that they use. An entry is a text; the signal is
-- the value that `JSON.parse` gives for it, as the code only casts it.
use sovereign_jedi.Prelude.{ℕ, ◌*◌, Bool, Option, none, some, Text, [], ◌∷◌, ltb, if◌then◌else◌}
use sovereign_jedi.Json.{Json, num, str, obj, end, field, get, truthy, optional}
use sovereign_jedi.Platform.{Platform}

-- `available`: `safeLocalStorage()` finds a storage. `writable`: `setItem` does not throw.
pub record LocalStorage : Type 0 where
  pub available : Bool
  pub writable : Bool
  pub item : Option Text

-- 24 * 60 * 60 * 1000
abbrev pub default_verified_ttl_ms : ℕ
default_verified_ttl_ms = 24 * 60 * 60 * 1000

pub record VerifiedState : Type 0 where
  pub wallet_pub_key : Option Text
  pub verified_at : ℕ
  pub expires_at : ℕ
  pub wallet_provider : Option Text
  pub nonce : Option Json
  pub issued_at : Option Json

abbrev text_json : Option Text → Option Json
text_json none = none
text_json (some t) = some (str t)

abbrev pub null_or : Option Text → Json
null_or none = Json.null
null_or (some t) = str t

unfoldable pub verified_json : VerifiedState → Json
verified_json v = obj (
    field "walletPubKey" (null_or v.wallet_pub_key) (
      field "verifiedAt" (num v.verified_at) (
        field "expiresAt" (num v.expires_at) (
          optional "walletProvider" (text_json v.wallet_provider)
            (optional "nonce" v.nonce (optional "issuedAt" v.issued_at end))))))

-- `typeof parsed.expiresAt === "number"`
unfoldable pub expiry_of : Json → Option ℕ
expiry_of v = elim (get "expiresAt" v) [
  | none ↦ none
  | some x ↦ elim x [ num n ↦ some n | _ ↦ none ]
]

unfoldable pub remove_item : LocalStorage → LocalStorage
remove_item ls = record ls { item = none }

-- after JSON.parse
unfoldable pub check_expiry : ℕ → LocalStorage → Json → Option Json × LocalStorage
unfolding remove_item
check_expiry now ls parsed =
    if truthy (some parsed)
    then elim (expiry_of parsed) [
      | none ↦ (none, remove_item ls)
      | some expires_at ↦ if ltb now expires_at then (some parsed, ls) else (none, remove_item ls)
    ]
    else (none, remove_item ls)

unfoldable pub load_raw : Platform → ℕ → LocalStorage → Option Text → Option Json × LocalStorage
load_raw P now ls none = (none, ls)
load_raw P now ls (some []) = (none, ls)
load_raw P now ls (some (c ∷ raw)) = elim (P.parse (c ∷ raw)) [
  | none ↦ (none, ls)
  | some parsed ↦ check_expiry now ls parsed
]

unfoldable pub load_verified : Platform → ℕ → LocalStorage → Option Json × LocalStorage
load_verified P now ls = if ls.available then load_raw P now ls ls.item else (none, ls)

-- an exception of `setItem` is caught
unfoldable pub save_verified : Platform → Json → LocalStorage → LocalStorage
save_verified P v ls =
    if ls.available
    then (if ls.writable then record ls { item = some (P.stringify v) } else ls)
    else ls

unfoldable pub clear_verified : LocalStorage → LocalStorage
unfolding remove_item
clear_verified ls = if ls.available then remove_item ls else ls
