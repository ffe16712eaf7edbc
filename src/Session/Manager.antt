-- ===== src/Session/Manager.antt =====
-- The class `SessionManager`: its fields, the constructor, and the methods that run without waiting.
use sovereign_jedi.Prelude.{
  ℕ, ◌+◌, Bool, true, false, Option, none, some, Text, [], ◌∷◌, text_eq, is_some, is_empty,
  if◌then◌else◌, not, ◌&&◌,
}
use sovereign_jedi.Json.{Json, null, str, get}
use sovereign_jedi.Platform.{Platform, Bytes}
use sovereign_jedi.Crypto.Unlock.{BuildUnlockResult}
use sovereign_jedi.Crypto.VaultRoot.{BuildVaultRootResult}
use sovereign_jedi.Session.Verified.{LocalStorage, load_verified, clear_verified}

-- `storage` is the browser's localStorage; `window` says that there is a window to dispatch the
-- event "sj-session-changed" on, and `events` counts them.
pub record SessionManager : Type 0 where
  pub wallet_pub_key : Option Text
  pub wallet_provider : Option Text
  pub vault_unlocked : Bool
  pub verified : Option Json
  pub last_unlock : Option BuildUnlockResult
  pub last_unlock_signature_bytes : Option Bytes
  pub last_vault_root : Option BuildVaultRootResult
  pub last_vault_root_signature_bytes : Option Bytes
  pub storage : LocalStorage
  pub window : Bool
  pub events : ℕ

-- the constructor
unfoldable pub new_session_manager : Platform → ℕ → Bool → LocalStorage → SessionManager
new_session_manager P now window ls =
    let (verified, storage) = load_verified P now ls in
    record {
      wallet_pub_key = none;
      wallet_provider = none;
      vault_unlocked = false;
      verified = verified;
      last_unlock = none;
      last_unlock_signature_bytes = none;
      last_vault_root = none;
      last_vault_root_signature_bytes = none;
      storage = storage;
      window = window;
      events = 0;
    }

-- The argument of `connectWallet`. In `public_key` and `other`, `none` is a conversion that throws;
-- `public_key` has the result of `toBase58()` and that of `String(…)`.
pub data PubKeyInput : Type 0 where
  missing : PubKeyInput
  string : Text → PubKeyInput
  public_key : Option Text → Option Text → PubKeyInput
  other : Option Text → PubKeyInput
  opaque : PubKeyInput

unfoldable pub normalize_pub_key : PubKeyInput → Option Text
normalize_pub_key missing = none
normalize_pub_key (string []) = none
normalize_pub_key (string (c ∷ s)) = some (c ∷ s)
normalize_pub_key (public_key (some key) fallback) = some key
normalize_pub_key (public_key none fallback) = fallback
normalize_pub_key (other t) = t
normalize_pub_key opaque = none

-- `a === b` for a string or null
unfoldable pub same_key : Option Text → Option Text → Bool
same_key none none = true
same_key (some a) (some b) = text_eq a b
same_key _ _ = false

-- `verified.walletPubKey === key`
unfoldable pub belongs_to : Option Text → Json → Bool
belongs_to key v = elim (get "walletPubKey" v) [
  | none ↦ false
  | some x ↦ elim x [ str t ↦ same_key (some t) key | null ↦ same_key none key | _ ↦ false ]
]

-- `!!key`
unfoldable pub is_key : Option Text → Bool
is_key none = false
is_key (some t) = not (is_empty t)

unfoldable pub notify : SessionManager → SessionManager
notify m = if m.window then record m { events = m.events + 1 } else m

unfoldable pub clear_material : SessionManager → SessionManager
clear_material m = record m {
  last_unlock = none;
  last_unlock_signature_bytes = none;
  last_vault_root = none;
  last_vault_root_signature_bytes = none;
}

unfoldable pub drop_foreign_verified : Option Text → SessionManager → SessionManager
drop_foreign_verified key m = elim m.verified [
  | none ↦ m
  | some v ↦
      if belongs_to key v
      then m
      else record m { verified = none; storage = clear_verified m.storage }
]

-- `if (!this.verified) { const loaded = loadVerified(); … }`
unfoldable pub adopt_verified : Platform → ℕ → Option Text → SessionManager → SessionManager
adopt_verified P now key m =
    if is_some m.verified
    then m
    else let (loaded, storage) = load_verified P now m.storage in
      elim loaded [
        | none ↦ record m { storage = storage }
        | some v ↦
            if belongs_to key v
            then record m { verified = some v; storage = storage }
            else record m { storage = storage }
      ]

unfoldable pub clear_on_switch : Option Text → Option Text → SessionManager → SessionManager
unfolding clear_material
clear_on_switch prev key m =
    if is_key prev && not (same_key prev key)
    then clear_material (record m { vault_unlocked = false })
    else m

-- `provider || null`
abbrev pub or_null : Option Text → Option Text
or_null none = none
or_null (some []) = none
or_null (some (c ∷ s)) = some (c ∷ s)

unfoldable pub connect_wallet :
    Platform → ℕ → PubKeyInput → Option Text → SessionManager → SessionManager
connect_wallet P now pub_key provider m =
    let key = normalize_pub_key pub_key in
    let m1 : SessionManager = record m {
      wallet_pub_key = key;
      wallet_provider = or_null provider;
      vault_unlocked = false;
    } in
    notify (
      clear_on_switch m.wallet_pub_key key
        (adopt_verified P now key (drop_foreign_verified key m1)))

unfoldable pub lock_vault : SessionManager → SessionManager
unfolding clear_material notify
lock_vault m = notify (clear_material (record m { vault_unlocked = false }))

unfoldable pub get_verified : Platform → ℕ → SessionManager → Option Json × SessionManager
get_verified P now m =
    let (loaded, storage) = load_verified P now m.storage in
    (loaded, record m { verified = loaded; storage = storage })

unfoldable pub disconnect_wallet : SessionManager → SessionManager
unfolding clear_material notify
disconnect_wallet m =
    let m1 : SessionManager =
      clear_material
        (record m { wallet_pub_key = none; wallet_provider = none; vault_unlocked = false }) in
    notify (record m1 { verified = none; storage = clear_verified m1.storage })

unfoldable pub is_wallet_connected : SessionManager → Bool
is_wallet_connected m = is_key m.wallet_pub_key

unfoldable pub is_vault_unlocked : SessionManager → Bool
is_vault_unlocked m = m.vault_unlocked
