-- ===== src/Session/Unlocking.antt =====
-- `SessionManager.unlockVault`, cut at the places where it waits. Between two waits nothing else
-- runs; across one, any other method may. `unlock_vault` is the run with nothing in between.
pub mod Coherent
pub mod Effects
pub mod Returns
use sovereign_jedi.Prelude.{
  ℕ, ◌+◌, ◌*◌, Bool, true, false, Option, none, some, Text, text, if◌then◌else◌, Outcome, ok, err,
  is_empty,
}
use sovereign_jedi.Prelude.Methods.{Method, ◌>>=◌, ◌>>◌, call, done, throw, reads, changes}
use sovereign_jedi.Json.{Json, get_in}
use sovereign_jedi.Platform.{Platform, Bytes}
use sovereign_jedi.Crypto.Errors.{CryptoError}
use sovereign_jedi.Crypto.Unlock.{
  BuildUnlockResult, UnlockParams, Surroundings, build_unlock_message_v1,
  derive_kek_from_unlock_signature,
}
use sovereign_jedi.Crypto.VaultRoot.{BuildVaultRootResult, build_vault_root_message_v1}
use sovereign_jedi.Session.Verified.{
  VerifiedState, verified_json, save_verified, default_verified_ttl_ms,
}
use sovereign_jedi.Session.Manager.{SessionManager, is_key, notify, or_null}
use sovereign_jedi.Session.Signing.{
  SessionError, wallet_not_connected, no_signature, no_vault_root_signature, crypto, Signers,
  request_signature,
}

abbrev pub from_crypto : {A : Type 0} → Outcome CryptoError A → Outcome SessionError A
from_crypto (ok a) = ok a
from_crypto (err e) = err (crypto e)

abbrev pub vault_id : Text
vault_id = text "local-default"

unfoldable pub unlock_params : Platform → Surroundings → Text → UnlockParams
unlock_params P s wallet = record {
  origin = some s.page_origin;
  wallet = wallet;
  vault_id = some vault_id;
  nonce_bytes = none;
  issued_at = some (P.to_iso_string s.now_ms);
  expires_at = some (P.to_iso_string (s.now_ms + 10 * 60 * 1000));
}

-- `if (!this.walletPubKey) throw …`
unfoldable pub connected_key : Option Text → Outcome SessionError Text
connected_key none = err wallet_not_connected
connected_key (some key) = if is_empty key then err wallet_not_connected else ok key

-- 1. From the call to the request for the first signature.
unfoldable pub begin_unlock :
    Platform → Surroundings → Method SessionManager SessionError BuildUnlockResult
unfolding connected_key
begin_unlock P s = do
  key ← (λ m. (connected_key m.wallet_pub_key, m))
  call (from_crypto (build_unlock_message_v1 P s (unlock_params P s key)))

abbrev or_fail : SessionError → Option Bytes → Method SessionManager SessionError Bytes
or_fail e none = throw e
or_fail e (some b) = done b

-- 2. With the first signature: it is kept, then refused if the message has expired.
unfoldable pub store_unlock :
    Platform
    → ℕ
    → Bytes
    → BuildUnlockResult
    → Option Bytes
    → Method SessionManager SessionError Bytes
store_unlock P now salt unlock reply = do
  signature ← or_fail no_signature reply
  changes
      (λ m. record m { last_unlock = some unlock; last_unlock_signature_bytes = some signature })
  call (from_crypto (derive_kek_from_unlock_signature P signature (some salt) unlock now))

-- 3. To the request for the second signature. The wallet is read from the object again.
unfoldable pub begin_root : Platform → Method SessionManager SessionError BuildVaultRootResult
begin_root P m = (from_crypto (build_vault_root_message_v1 P m.wallet_pub_key (some vault_id)), m)

unfoldable pub new_verified : ℕ → SessionManager → Json
new_verified now m = verified_json (record {
  wallet_pub_key = m.wallet_pub_key;
  verified_at = now;
  expires_at = now + default_verified_ttl_ms;
  wallet_provider = or_null m.wallet_provider;
  nonce = get_in "nonce" m.verified;
  issued_at = get_in "issuedAt" m.verified;
})

unfoldable pub mark_unlocked :
    Platform → ℕ → BuildVaultRootResult → Bytes → SessionManager → SessionManager
mark_unlocked P now root signature m =
    let v = new_verified now m in
    notify (record m {
      last_vault_root = some root;
      last_vault_root_signature_bytes = some signature;
      storage = save_verified P v m.storage;
      verified = some v;
      vault_unlocked = true;
    })

-- 4. With the second signature, to the end.
unfoldable pub store_root :
    Platform → ℕ → BuildVaultRootResult → Option Bytes → Method SessionManager SessionError Unit
store_root P now root reply = do
  signature ← or_fail no_vault_root_signature reply
  changes (mark_unlocked P now root signature)

-- `finished` is the clock at the end of the call, when the Verified signal is written.
unfoldable pub unlock_vault :
    Platform → Signers → Surroundings → Bytes → ℕ → Method SessionManager SessionError Unit
unlock_vault P signers s salt finished = do
  unlock ← begin_unlock P s
  reply ← call (request_signature signers (P.utf8_encode unlock.message_to_sign))
  store_unlock P s.now_ms salt unlock reply
  root ← begin_root P
  root_reply ← call (request_signature signers (P.utf8_encode root.message_to_sign))
  store_root P finished root root_reply
