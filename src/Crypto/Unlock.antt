-- ===== src/Crypto/Unlock.antt =====
-- SJ_UNLOCK_V1, the message of a session unlock: `buildUnlockMessageV1` and `prepareUnlock` of
-- v0_local_encryption/localEncryption.ts, `assertUnlockNotExpired` and
-- `deriveKekFromUnlockSignature` of index.ts.
pub mod Expiry
use sovereign_jedi.Prelude.{
  ℕ, ◌+◌, ◌*◌, Bool, true, false, Option, none, some, List, [], ◌∷◌, ◌++◌, Text, text, length,
  is_empty, or_default, ◌==◌, leb, not, ◌||◌, if◌then◌else◌, Outcome, ok, err, ◌>>=◌, ◌>>◌,
  throw_if, or_throw,
}
use sovereign_jedi.Json.{Json, Fields, str, obj, end, field}
use sovereign_jedi.Platform.{Platform, Bytes}
use sovereign_jedi.Crypto.Errors.{
  CryptoError, nonce_size, invalid_date, salt_size, canonicalization_failed, unlock_expired,
}
use sovereign_jedi.Crypto.Kek.{derive_kek_from_signature}

-- The fields of `UnlockMessageV1` that vary; `sj`, `ver` and `type` are constants.
pub record UnlockMessageV1 : Type 0 where
  pub origin : Text
  pub wallet : Text
  pub nonce : Text
  pub issued_at : Text
  pub expires_at : Text
  pub vault_id : Text

pub record BuildUnlockResult : Type 0 where
  pub canonical_object : UnlockMessageV1
  pub message_to_sign : Text

unfoldable pub unlock_message_json : UnlockMessageV1 → Json
unlock_message_json m = obj (
    field "sj" (str (text "SovereignJedi")) (
      field "ver" (str (text "1")) (
        field "type" (str (text "UNLOCK")) (
          field "origin" (str m.origin) (
            field "wallet" (str m.wallet) (
              field "nonce" (str m.nonce) (
                field "issuedAt" (str m.issued_at) (
                  field "expiresAt" (str m.expires_at)
                    (field "vaultId" (str m.vault_id) end)))))))))

unfoldable pub canonicalize_json : Platform → Json → Outcome CryptoError Text
canonicalize_json P v = or_throw (P.canonicalize v) canonicalization_failed

pub record UnlockParams : Type 0 where
  pub origin : Option Text
  pub wallet : Text
  pub vault_id : Option Text
  pub nonce_bytes : Option Bytes
  pub issued_at : Option Text
  pub expires_at : Option Text

-- What the call reads from its surroundings: the page's origin (or http://localhost), the clock,
-- and 16 random bytes.
pub record Surroundings : Type 0 where
  pub page_origin : Text
  pub now_ms : ℕ
  pub random_nonce : Bytes

-- expiresAt ?? new Date(Date.parse(issuedAt) + 10 * 60 * 1000).toISOString(), which throws on NaN
unfoldable pub default_expiry : Platform → Text → Option Text → Outcome CryptoError Text
default_expiry P issued_at (some t) = ok t
default_expiry P issued_at none = do
  ms ← or_throw (P.date_parse issued_at) invalid_date
  ok (P.to_iso_string (ms + 10 * 60 * 1000))

unfoldable pub build_unlock_message_v1 :
    Platform → Surroundings → UnlockParams → Outcome CryptoError BuildUnlockResult
unfolding default_expiry canonicalize_json
build_unlock_message_v1 P s p = do
  let issued_at = or_default p.issued_at (P.to_iso_string s.now_ms)
  expires_at ← default_expiry P issued_at p.expires_at
  let nonce_bytes = or_default p.nonce_bytes s.random_nonce
  throw_if (not (length nonce_bytes == 16)) nonce_size
  let message : UnlockMessageV1 = record {
    origin = or_default p.origin s.page_origin;
    wallet = p.wallet;
    nonce = P.to_base64 nonce_bytes;
    issued_at = issued_at;
    expires_at = expires_at;
    vault_id = or_default p.vault_id (text "local-default");
  }
  jcs ← canonicalize_json P (unlock_message_json message)
  ok (record { canonical_object = message; message_to_sign = text "SJ_UNLOCK_V1\n" ++ jcs })

unfoldable pub prepare_unlock :
    Platform
    → Surroundings
    → UnlockParams
    → Option Bytes
    → Bytes
    → Outcome CryptoError (Bytes × BuildUnlockResult)
prepare_unlock P s p salt_bytes random_salt = do
  let salt = or_default salt_bytes random_salt
  throw_if (not (length salt == 16 || length salt == 32)) salt_size
  unlock ←
      build_unlock_message_v1 P s
        (record p { nonce_bytes = none; issued_at = none; expires_at = none })
  ok (salt, unlock)

-- `!expiresAt || Number.isNaN(ts) || ts <= nowMs`
unfoldable pub is_expired : Platform → BuildUnlockResult → ℕ → Bool
is_expired P unlock now_ms =
    is_empty unlock.canonical_object.expires_at
    || elim (P.date_parse unlock.canonical_object.expires_at) [
      | none ↦ true
      | some ts ↦ leb ts now_ms
    ]

unfoldable pub assert_unlock_not_expired :
    Platform → BuildUnlockResult → ℕ → Outcome CryptoError Unit
unfolding is_expired
assert_unlock_not_expired P unlock now_ms = throw_if (is_expired P unlock now_ms) unlock_expired

unfoldable pub derive_kek_from_unlock_signature :
    Platform → Bytes → Option Bytes → BuildUnlockResult → ℕ → Outcome CryptoError Bytes
unfolding assert_unlock_not_expired
derive_kek_from_unlock_signature P signature_bytes salt_bytes unlock now_ms = do
  assert_unlock_not_expired P unlock now_ms
  derive_kek_from_signature P signature_bytes salt_bytes
