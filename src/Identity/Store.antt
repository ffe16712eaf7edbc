-- ===== src/Identity/Store.antt =====
-- The helpers of types.ts on localStorage: the identity under one key, the last wallet under another.
pub mod Laws
use sovereign_jedi.Prelude.{
  String, Bool, true, false, Option, none, some, List, [], ◌∷◌, Text, text, text_eq, is_empty,
  if◌then◌else◌,
}
use sovereign_jedi.Json.{Json, str, obj, end, field, get, as_text}
use sovereign_jedi.Platform.{Platform}
use sovereign_jedi.Identity.{Identity}

-- The browser's storage, and the writes it refuses because its quota is used up.
pub record BrowserStorage : Type 0 where
  pub items : Text → Option Text
  pub refuses : Text → Text → Bool

abbrev pub identity_key : Text
identity_key = text "sj_identity"

abbrev pub last_provider_key : Text
last_provider_key = text "sj_lastWalletProvider"

-- Outside a browser there is no storage; a read finds nothing and a write does nothing.
unfoldable pub get_item : Text → Option BrowserStorage → Option Text
get_item key none = none
get_item key (some s) = s.items key

-- under `try … catch { }`
unfoldable pub set_item : Text → Text → Option BrowserStorage → Option BrowserStorage
set_item key value none = none
set_item key value (some s) =
    if s.refuses key value
    then some s
    else some (record s { items = λ j. if text_eq key j then some value else s.items j })

unfoldable pub remove_item : Text → Option BrowserStorage → Option BrowserStorage
remove_item key none = none
remove_item key (some s) =
    some (record s { items = λ j. if text_eq key j then none else s.items j })

unfoldable pub identity_json : Identity → Json
identity_json i = obj (
    field "publicKey" (str i.public_key) (
      field "message" (str i.message) (
        field "signature" (str i.signature) (
          field "issuedAt" (str i.issued_at) (
            field "verifiedAt" (str i.verified_at) (
              field "expiresAt" (str i.expires_at) (
                field "nonce" (str i.nonce)
                  (field "cluster" (str i.cluster) (field "domain" (str i.domain) end)))))))))

abbrev and_some : {A B : Type 0} → Option A → (A → Option B) → Option B
and_some none f = none
and_some (some a) f = f a

-- `typeof parsed.k === 'string'`, with the string
abbrev text_property : String → Json → Option Text
text_property k v = as_text (get k v)

-- The nine properties of a stored value that are kept; the code returns the parsed object itself.
unfoldable pub identity_of : Json → Option Identity
identity_of v = and_some (text_property "publicKey" v) λ public_key.
    and_some (text_property "message" v) λ message.
      and_some (text_property "signature" v) λ signature.
        and_some (text_property "issuedAt" v) λ issued_at.
          and_some (text_property "verifiedAt" v) λ verified_at.
            and_some (text_property "expiresAt" v) λ expires_at.
              and_some (text_property "nonce" v) λ nonce.
                and_some (text_property "cluster" v) λ cluster.
                  and_some (text_property "domain" v) λ domain. some (record {
                    public_key = public_key;
                    message = message;
                    signature = signature;
                    issued_at = issued_at;
                    verified_at = verified_at;
                    expires_at = expires_at;
                    nonce = nonce;
                    cluster = cluster;
                    domain = domain;
                  })

-- `safeJsonParse`: nothing for an empty text or one that is not JSON
unfoldable pub safe_json_parse : Platform → Option Text → Option Json
safe_json_parse P none = none
safe_json_parse P (some raw) = if is_empty raw then none else P.parse raw

unfoldable pub load_identity : Platform → Option BrowserStorage → Option Identity
unfolding safe_json_parse identity_of get_item
load_identity P s = and_some (safe_json_parse P (get_item identity_key s)) identity_of

unfoldable pub save_identity : Platform → Identity → Option BrowserStorage → Option BrowserStorage
unfolding set_item identity_json
save_identity P i s = set_item identity_key (P.stringify (identity_json i)) s

unfoldable pub clear_identity : Option BrowserStorage → Option BrowserStorage
unfolding remove_item
clear_identity s = remove_item identity_key s

unfoldable pub get_last_wallet_provider : Option BrowserStorage → Option Text
unfolding get_item
get_last_wallet_provider s = get_item last_provider_key s

unfoldable pub set_last_wallet_provider : Text → Option BrowserStorage → Option BrowserStorage
unfolding set_item
set_last_wallet_provider provider s = set_item last_provider_key provider s

unfoldable pub clear_last_wallet_provider : Option BrowserStorage → Option BrowserStorage
unfolding remove_item
clear_last_wallet_provider s = remove_item last_provider_key s
