-- ===== src/Manifest/Wrap.antt =====
-- packages/manifest/src/service.ts: the envelope that wraps the manifest key under the key of the
-- vault-root signature.
pub mod Opens
use sovereign_jedi.Prelude.{
  ℕ, Bool, true, false, Option, none, some, List, [], ◌∷◌, Text, text, length, is_empty, text_eq,
  or_default, ◌==◌, not, ◌||◌, ◌&&◌, if◌then◌else◌, Outcome, ok, err, ◌>>=◌, ◌>>◌, throw_if,
  or_throw,
}
use sovereign_jedi.Json.{
  Json, null, num, str, obj, end, field, get, get_in, is_num, is_str, truthy, as_text,
}
use sovereign_jedi.Platform.{Platform, Bytes, encode_json}
use sovereign_jedi.Crypto.Kek.{derive_vault_root_kek_from_signature}
use sovereign_jedi.Manifest.Errors.{
  ManifestError, blank_wallet, invalid_kek, key_size, invalid_salt, missing_envelope,
  envelope_wallet_mismatch, legacy_format, unsupported_template, missing_wrap, invalid_object,
  unwrap_failed, from_crypto,
}
use sovereign_jedi.Manifest.Cipher.{is_blank}

abbrev pub vault_root_template : Text
vault_root_template = text "SJ_VAULT_ROOT_V1"

abbrev pub wrap_context : Text
wrap_context = text "manifest-wrap-aad-v1"

-- `wrapAadObj`, with the properties that come from a stored envelope
unfoldable pub wrap_aad_json : Json → Json → Text → Json → Json
wrap_aad_json aad_version context wallet_pub_key template_id = obj (
    field "v" aad_version (
      field "context" context
        (field "walletPubKey" (str wallet_pub_key) (field "messageTemplateId" template_id end))))

unfoldable pub kek_derivation_json : Platform → Bytes → Json
kek_derivation_json P salt_bytes = obj (
    field "method" (str (text "wallet-signature")) (
      field "messageTemplateId" (str vault_root_template)
        (field "salt" (str (P.to_base64 salt_bytes)) (field "info" (str (text "SJ-KEK-v1")) end))))

unfoldable pub wrap_json : Platform → Bytes → Bytes → Json
wrap_json P wrap_nonce wrapped = obj (
    field "cipher" (str (text "XChaCha20-Poly1305")) (
      field "nonce" (str (P.to_base64 wrap_nonce)) (
        field "ciphertext" (str (P.to_base64 wrapped))
          (field "context" (str wrap_context) (field "aadVersion" (num 1) end)))))

unfoldable pub envelope_json : Text → Json → Json → Json
envelope_json wallet_pub_key kek_derivation wrap = obj (
    field "version" (num 1) (
      field "walletPubKey" (str wallet_pub_key)
        (field "kekDerivation" kek_derivation (field "wrap" wrap end))))

-- `wrap_nonce` is the 24 random bytes that the call draws.
unfoldable pub build_manifest_wrap_envelope :
    Platform → Text → Bytes → Bytes → Bytes → Bytes → Outcome ManifestError Json
build_manifest_wrap_envelope P wallet_pub_key kek manifest_key salt_bytes wrap_nonce = do
  throw_if (is_blank wallet_pub_key) blank_wallet
  throw_if (length kek == 0) invalid_kek
  throw_if (not (length manifest_key == 32)) key_size
  throw_if (length salt_bytes == 0) invalid_salt
  let aad =
      encode_json P
        (wrap_aad_json (num 1) (str wrap_context) wallet_pub_key (str vault_root_template))
  ok (
      envelope_json wallet_pub_key (kek_derivation_json P salt_bytes)
        (wrap_json P wrap_nonce (P.aead_encrypt manifest_key aad wrap_nonce kek)))

-- `messageTemplateId ?? ''`: SJ_UNLOCK_V1 is refused as legacy, and all but SJ_VAULT_ROOT_V1.
unfoldable pub check_template : Option Json → Outcome ManifestError Unit
check_template template_id = do
  throw_if (is_str template_id (text "SJ_UNLOCK_V1")) legacy_format
  throw_if (not (is_str template_id vault_root_template)) unsupported_template

-- `v ?? d`, for a property that null counts as missing
abbrev pub null_default : Option Json → Json → Json
null_default none d = d
null_default (some null) d = d
null_default (some v) d = v

unfoldable pub check_envelope : Json → Text → Outcome ManifestError Unit
check_envelope env wallet_pub_key = do
  throw_if (not (is_num (get "version" env) 1)) missing_envelope
  throw_if (not (is_str (get "walletPubKey" env) wallet_pub_key)) envelope_wallet_mismatch
  check_template (get_in "messageTemplateId" (get "kekDerivation" env))

-- `fromBase64(salt ?? '')` must not be empty; a salt that is no string throws too.
unfoldable pub check_salt : Platform → Json → Outcome ManifestError Unit
check_salt P env = do
  salt ← or_throw (as_text (get_in "salt" (get "kekDerivation" env))) invalid_salt
  throw_if (length (P.from_base64 salt) == 0) invalid_salt

unfoldable pub unwrap_aad : Platform → Json → Text → Bytes
unwrap_aad P env wallet_pub_key = encode_json P (
    wrap_aad_json (null_default (get_in "aadVersion" (get "wrap" env)) (num 1))
      (null_default (get_in "context" (get "wrap" env)) (str wrap_context)) wallet_pub_key
      (null_default (get_in "messageTemplateId" (get "kekDerivation" env))
        (str vault_root_template)))

unfoldable pub unwrap_manifest_key : Platform → Json → Text → Bytes → Outcome ManifestError Bytes
unwrap_manifest_key P encrypted wallet_pub_key signature_bytes = do
  env ← or_throw (get "envelope" encrypted) missing_envelope
  check_envelope env wallet_pub_key
  check_salt P env
  kek ← from_crypto (derive_vault_root_kek_from_signature P signature_bytes)
  throw_if (not (truthy (get "wrap" env))) missing_wrap
  wrap_nonce ← or_throw (as_text (get_in "nonce" (get "wrap" env))) invalid_object
  wrapped ← or_throw (as_text (get_in "ciphertext" (get "wrap" env))) invalid_object
  manifest_key ←
      or_throw
        (P.aead_decrypt (P.from_base64 wrapped) (unwrap_aad P env wallet_pub_key)
          (P.from_base64 wrap_nonce) kek)
        unwrap_failed
  throw_if (not (length manifest_key == 32)) key_size
  ok manifest_key
