-- ===== src/Manifest/Cipher.antt =====
-- packages/manifest/src/crypto.ts: the manifest key, and encryption with an integrity hash.
pub mod Opens
pub mod Accepts
use sovereign_jedi.Prelude.{
  ℕ, String, Bool, true, false, Option, none, some, List, [], ◌∷◌, Text, text, length, is_empty,
  trim, text_eq, or_default, ◌==◌, not, ◌||◌, ◌&&◌, if◌then◌else◌, Outcome, ok, err, ◌>>=◌, ◌>>◌,
  throw_if, or_throw,
}
use sovereign_jedi.Json.{
  Json, Fields, null, num, str, obj, end, field, get, get_in, is_num, is_str, truthy, as_text,
  optional,
}
use sovereign_jedi.Platform.{Platform, Bytes, encode_json, decode_json}
use sovereign_jedi.Crypto.Hkdf.{derive_key_hkdf}
use sovereign_jedi.Manifest.Errors.{
  ManifestError, empty_kek, blank_wallet, key_size, not_manifest_v1, wallet_mismatch,
  missing_envelope, envelope_wallet_mismatch, canonicalization_failed, invalid_object, aad_mismatch,
  integrity_failed, decrypt_failed, invalid_payload, from_crypto,
}

abbrev pub manifest_key_length : ℕ
manifest_key_length = 32

unfoldable pub derive_manifest_key : Platform → Bytes → Outcome ManifestError Bytes
derive_manifest_key P kek = do
  throw_if (length kek == 0) empty_kek
  from_crypto (
      derive_key_hkdf P kek none (some (P.utf8_encode (text "SJ-MANIFEST-v1"))) manifest_key_length)

-- `!s || String(s).trim().length === 0`
unfoldable pub is_blank : Text → Bool
is_blank s = is_empty s || is_empty (trim s)

unfoldable pub aad_json : Text → Json
aad_json wallet_pub_key = obj (
    field "walletPubKey" (str wallet_pub_key)
      (field "manifestVersion" (num 1) (field "context" (str (text "manifest")) end)))

-- utf8Encode(canonicalizeJSON(aad))
unfoldable pub aad_bytes : Platform → Json → Outcome ManifestError Bytes
aad_bytes P aad = do
  jcs ← or_throw (P.canonicalize aad) canonicalization_failed
  ok (P.utf8_encode jcs)

-- The object without `integrity`; an undefined property is left out by `JSON.stringify`.
unfoldable pub hash_basis :
    Option Json → Option Json → Option Json → Option Json → Option Json → Fields → Json
hash_basis version kind header payload envelope rest = obj (
    optional "version" version (
      optional "kind" kind (
        optional "header" header (optional "payload" payload (optional "envelope" envelope rest)))))

-- toBase64(sha256(JSON.stringify(basis)))
unfoldable pub compute_integrity : Platform → Json → Text
compute_integrity P basis = P.to_base64 (P.sha256 (encode_json P basis))

unfoldable pub header_json : Platform → Bytes → Text → Json
unfolding aad_json
header_json P nonce wallet_pub_key = obj (
    field "cipher" (str (text "XChaCha20-Poly1305"))
      (field "nonce" (str (P.to_base64 nonce)) (field "aad" (aad_json wallet_pub_key) end)))

unfoldable pub payload_json : Platform → Bytes → Json
payload_json P cipher_bytes = obj (field "ciphertextB64" (str (P.to_base64 cipher_bytes)) end)

-- EncryptedManifestObjectV1; with no integrity, its hash basis.
unfoldable pub encrypted_manifest : Json → Json → Json → Fields → Json
unfolding hash_basis
encrypted_manifest header payload envelope rest =
    hash_basis (some (num 1)) (some (str (text "SJ_MANIFEST"))) (some header) (some payload)
      (some envelope) rest

unfoldable pub integrity_field : Text → Fields
integrity_field sha256_b64 = field "integrity" (obj (field "sha256B64" (str sha256_b64) end)) end

-- the checks of `encryptManifestV1`, in order
unfoldable pub check_manifest_arguments : Json → Bytes → Text → Json → Outcome ManifestError Unit
unfolding is_blank
check_manifest_arguments manifest manifest_key wallet_pub_key envelope = do
  throw_if (is_blank wallet_pub_key) blank_wallet
  throw_if (not (length manifest_key == manifest_key_length)) key_size
  throw_if (not (is_num (get "version" manifest) 1)) not_manifest_v1
  throw_if (not (is_str (get "walletPubKey" manifest) wallet_pub_key)) wallet_mismatch
  throw_if (not (is_num (get "version" envelope) 1)) missing_envelope
  throw_if (not (is_str (get "walletPubKey" envelope) wallet_pub_key)) envelope_wallet_mismatch

-- `nonce` is the 24 random bytes that the call draws.
unfoldable pub encrypt_manifest_v1 :
    Platform → Json → Bytes → Text → Json → Bytes → Outcome ManifestError Json
encrypt_manifest_v1 P manifest manifest_key wallet_pub_key envelope nonce = do
  check_manifest_arguments manifest manifest_key wallet_pub_key envelope
  aad ← aad_bytes P (aad_json wallet_pub_key)
  let cipher_bytes = P.aead_encrypt (encode_json P manifest) aad nonce manifest_key
  let header = header_json P nonce wallet_pub_key
  let payload = payload_json P cipher_bytes
  let sha256_b64 = compute_integrity P (encrypted_manifest header payload envelope end)
  ok (encrypted_manifest header payload envelope (integrity_field sha256_b64))

unfoldable pub aad_matches : Option Json → Text → Bool
aad_matches aad wallet_pub_key =
    is_str (get_in "context" aad) (text "manifest")
    && is_num (get_in "manifestVersion" aad) 1
    && is_str (get_in "walletPubKey" aad) wallet_pub_key

-- the basis of an object that was read, without its `integrity`
unfoldable pub basis_of : Json → Json
basis_of encrypted =
    hash_basis (get "version" encrypted) (get "kind" encrypted) (get "header" encrypted)
      (get "payload" encrypted) (get "envelope" encrypted) end

-- `String(v) === String(t)` for a string t
abbrev prints : Platform → Option Json → Text → Bool
prints P none t = false
prints P (some v) t = text_eq (P.string_of v) t

-- `got` is truthy and prints as `expected`
unfoldable pub integrity_holds : Platform → Json → Bool
integrity_holds P encrypted =
    let got = get_in "sha256B64" (get "integrity" encrypted) in
    truthy got && prints P got (compute_integrity P (basis_of encrypted))

-- the checks of `decryptManifestV1` before it decrypts, in order
unfoldable pub check_encrypted : Platform → Json → Bytes → Text → Outcome ManifestError Unit
unfolding is_blank
check_encrypted P encrypted manifest_key wallet_pub_key = do
  throw_if
      (not (is_num (get "version" encrypted) 1)
        || not (is_str (get "kind" encrypted) (text "SJ_MANIFEST")))
      invalid_object
  throw_if (is_blank wallet_pub_key) blank_wallet
  throw_if (not (length manifest_key == manifest_key_length)) key_size
  throw_if (not (aad_matches (get_in "aad" (get "header" encrypted)) wallet_pub_key)) aad_mismatch
  throw_if (not (integrity_holds P encrypted)) integrity_failed

-- the checks after it, on the decrypted value
unfoldable pub check_decrypted : Text → Json → Outcome ManifestError Json
check_decrypted wallet_pub_key parsed = do
  throw_if (not (is_num (get "version" parsed) 1)) invalid_payload
  throw_if (not (is_str (get "walletPubKey" parsed) wallet_pub_key)) wallet_mismatch
  ok parsed

-- `fromBase64` of a property that is no string throws as the object is invalid.
unfoldable pub base64_property : Platform → String → Option Json → Outcome ManifestError Bytes
base64_property P key v = do
  b64 ← or_throw (as_text (get_in key v)) invalid_object
  ok (P.from_base64 b64)

unfoldable pub decrypt_manifest_v1 : Platform → Json → Bytes → Text → Outcome ManifestError Json
unfolding base64_property
decrypt_manifest_v1 P encrypted manifest_key wallet_pub_key = do
  check_encrypted P encrypted manifest_key wallet_pub_key
  nonce ← base64_property P "nonce" (get "header" encrypted)
  ciphertext ← base64_property P "ciphertextB64" (get "payload" encrypted)
  aad_value ← or_throw (get_in "aad" (get "header" encrypted)) aad_mismatch
  aad ← aad_bytes P aad_value
  plaintext ← or_throw (P.aead_decrypt ciphertext aad nonce manifest_key) decrypt_failed
  parsed ← or_throw (decode_json P plaintext) invalid_payload
  check_decrypted wallet_pub_key parsed
