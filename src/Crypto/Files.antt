-- ===== src/Crypto/Files.antt =====
-- `encryptFile` and `decryptFile` of packages/crypto/src/v0_local_encryption/localEncryption.ts. The
-- file key is wrapped under additional data that bind salt, wallet, file id and a hash of the header.
pub mod Opens
use sovereign_jedi.Prelude.{
  ℕ, String, Bool, true, false, Option, none, some, Text, text, List, [], ◌∷◌, is_empty, trim,
  length, or_default, not, ◌||◌, ◌==◌, if◌then◌else◌, Outcome, ok, err, ◌>>=◌, ◌>>◌, throw_if,
  or_throw,
}
use sovereign_jedi.Json.{Json, null, num, str, obj, end, field, get, get_in, as_text}
use sovereign_jedi.Platform.{Platform, Bytes}
use sovereign_jedi.Crypto.Errors.{
  CryptoError, file_key_size, wallet_required, salt_size, file_id_required, salt_required,
  missing_bytes, unwrap_failed, decrypt_failed,
}
use sovereign_jedi.Crypto.Unlock.{canonicalize_json}

pub record EncryptOptions : Type 0 where
  pub file_key : Option Bytes
  pub kek : Bytes
  pub salt : Bytes
  pub wallet_pub_key : Text
  pub file_id : Option Text
  pub filename : Option Text
  pub mime_type : Option Text

-- the random bytes of one call
pub record FileDraws : Type 0 where
  pub key : Bytes
  pub id : Bytes
  pub nonce : Bytes
  pub wrap_nonce : Bytes

-- the immutable header: originalFileName, mimeType, fileSize, fileId
pub record Header : Type 0 where
  pub name : Json
  pub mime : Json
  pub size : Json
  pub id : Json

-- utf8Encode(canonicalizeJSON(v))
unfoldable pub canonical_bytes : Platform → Json → Outcome CryptoError Bytes
canonical_bytes P v = do jcs ← canonicalize_json P v; ok (P.utf8_encode jcs)

unfoldable pub header_subset_json : Header → Json
header_subset_json h = obj (
    field "originalFileName" h.name
      (field "mimeType" h.mime (field "fileSize" h.size (field "fileId" h.id end))))

unfoldable pub file_aad_json : Header → Json → Json → Json
file_aad_json h filename size = obj (
    field "originalFileName" h.name (
      field "mimeType" h.mime (
        field "fileSize" h.size
          (field "fileId" h.id (field "filename" filename (field "size" size end))))))

-- the additional data of the wrap, version 3
unfoldable pub wrap_aad_v3 : Platform → Text → Text → Header → Outcome CryptoError Bytes
unfolding canonical_bytes
wrap_aad_v3 P salt_b64 wallet_pub_key h = do
  header ← canonical_bytes P (header_subset_json h)
  canonical_bytes P (
      obj (
        field "v" (num 3) (
          field "salt" (str salt_b64) (
            field "walletPubKey" (str wallet_pub_key) (
              field "fileId" h.id
                (field "headerHash" (str (P.to_base64 (P.sha256 header))) end))))))

unfoldable pub encrypted_file_json : Header → Text → Text → Json
encrypted_file_json h nonce ciphertext = obj (
    field "version" (num 1) (
      field "cipher" (str (text "XChaCha20-Poly1305")) (
        field "nonce" (str nonce) (
          field "ciphertext" (str ciphertext) (
            field "fileId" h.id (
              field "originalFileName" h.name (
                field "mimeType" h.mime
                  (field "fileSize" h.size (field "aad" (file_aad_json h h.name h.size) end)))))))))

unfoldable pub file_envelope_json : Text → Text → Text → Text → Json
file_envelope_json wallet_pub_key salt_b64 wrap_nonce wrapped = obj (
    field "version" (num 1) (
      field "walletPubKey" (str wallet_pub_key) (
        field "kekDerivation"
          (obj (
            field "method" (str (text "wallet-signature")) (
              field "messageTemplateId" (str (text "SJ_UNLOCK_V1"))
                (field "salt" (str salt_b64) (field "info" (str (text "SJ-KEK-v1")) end)))))
          (field "wrap"
            (obj (
              field "cipher" (str (text "XChaCha20-Poly1305")) (
                field "nonce" (str wrap_nonce) (
                  field "ciphertext" (str wrapped) (
                    field "context" (str (text "wrap-aad-v3")) (field "aadVersion" (num 3) end))))))
            end))))

unfoldable pub header_of : EncryptOptions → Text → ℕ → Header
header_of o file_id file_size = record {
  name = str (or_default o.filename []);
  mime = str (or_default o.mime_type []);
  size = num file_size;
  id = str file_id;
}

-- The file key is in the result for tests only, and is left out here.
unfoldable pub encrypt_file :
    Platform → Bytes → EncryptOptions → FileDraws → Outcome CryptoError (Json × Json)
encrypt_file P plaintext o d = do
  let file_key = or_default o.file_key d.key
  throw_if (not (length file_key == 32)) file_key_size
  throw_if (is_empty o.wallet_pub_key || is_empty (trim o.wallet_pub_key)) wallet_required
  let file_id = or_default o.file_id (P.to_base64 d.id)
  let h = header_of o file_id (length plaintext)
  aad ← canonical_bytes P (file_aad_json h h.name h.size)
  throw_if (not (length o.salt == 16 || length o.salt == 32)) salt_size
  wrap_aad ← wrap_aad_v3 P (P.to_base64 o.salt) o.wallet_pub_key h
  ok (
    encrypted_file_json h (P.to_base64 d.nonce)
        (P.to_base64 (P.aead_encrypt plaintext aad d.nonce file_key)),
    file_envelope_json o.wallet_pub_key (P.to_base64 o.salt) (P.to_base64 d.wrap_nonce)
        (P.to_base64 (P.aead_encrypt file_key wrap_aad d.wrap_nonce o.kek)),
  )

-- `a ?? b` and `a ?? null`
abbrev pub or_else : Option Json → Option Json → Option Json
or_else none b = b
or_else (some null) b = b
or_else (some v) b = some v

abbrev pub or_null : Option Json → Json
or_null none = null
or_null (some v) = v

-- a string that is there and is not empty
abbrev pub full_text : Option Json → CryptoError → Outcome CryptoError Text
full_text v e = elim (as_text v) [ none ↦ err e | some t ↦ if is_empty t then err e else ok t ]

abbrev pub bytes_of : Platform → Option Json → Outcome CryptoError Bytes
bytes_of P v = elim (as_text v) [ none ↦ err missing_bytes | some t ↦ ok (P.from_base64 t) ]

-- `encryptedFile.k ?? encryptedFile.aad.k`
unfoldable pub file_property : String → Json → Option Json
file_property k file = or_else (get k file) (get_in k (get "aad" file))

-- What binds the wrap falls back to `aad.filename` and `aad.size`; what binds the payload does not.
unfoldable pub wrap_header : Json → Text → Header
unfolding file_property
wrap_header file file_id = record {
  name =
      or_null
        (or_else (file_property "originalFileName" file) (get_in "filename" (get "aad" file)));
  mime = or_null (file_property "mimeType" file);
  size = or_null (or_else (file_property "fileSize" file) (get_in "size" (get "aad" file)));
  id = str file_id;
}

unfoldable pub payload_aad_json : Json → Json
unfolding file_property
payload_aad_json file =
    file_aad_json
      (record {
        name = or_null (file_property "originalFileName" file);
        mime = or_null (file_property "mimeType" file);
        size = or_null (file_property "fileSize" file);
        id = or_null (file_property "fileId" file);
      })
      (or_null (or_else (get_in "filename" (get "aad" file)) (get "originalFileName" file)))
      (or_null (or_else (get_in "size" (get "aad" file)) (get "fileSize" file)))

unfoldable pub decrypt_file : Platform → Json → Json → Bytes → Outcome CryptoError Bytes
decrypt_file P file envelope kek = do
  wrap_nonce ← bytes_of P (get_in "nonce" (get "wrap" envelope))
  wrapped ← bytes_of P (get_in "ciphertext" (get "wrap" envelope))
  salt_b64 ← full_text (get_in "salt" (get "kekDerivation" envelope)) salt_required
  wallet_pub_key ← full_text (get "walletPubKey" envelope) wallet_required
  throw_if (is_empty (trim wallet_pub_key)) wallet_required
  file_id ← full_text (file_property "fileId" file) file_id_required
  wrap_aad ← wrap_aad_v3 P salt_b64 wallet_pub_key (wrap_header file file_id)
  file_key ← or_throw (P.aead_decrypt wrapped wrap_aad wrap_nonce kek) unwrap_failed
  nonce ← bytes_of P (get "nonce" file)
  ciphertext ← bytes_of P (get "ciphertext" file)
  aad ← canonical_bytes P (payload_aad_json file)
  or_throw (P.aead_decrypt ciphertext aad nonce file_key) decrypt_failed
