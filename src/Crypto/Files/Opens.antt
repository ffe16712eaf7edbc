-- ===== src/Crypto/Files/Opens.antt =====
-- Opening an encrypted file.
use sovereign_jedi.Prelude.{
  ◌≡◌, refl, true, false, some, Text, [], ◌∷◌, is_empty, trim, length, or_default, ok, err, arith,
  ◌||◌, ◌==◌, Outcome-cases, inl, inr,
}
use sovereign_jedi.Json.{Json, str, find_field, get, get_in}
use sovereign_jedi.Platform.{Platform, Lawful, Bytes}
use sovereign_jedi.Crypto.Errors.{file_id_required}
use sovereign_jedi.Crypto.Files.{
  EncryptOptions, FileDraws, Header, canonical_bytes, file_aad_json, wrap_aad_v3,
  encrypted_file_json, file_envelope_json, header_of, encrypt_file, file_property, wrap_header,
  payload_aad_json, decrypt_file,
}

salt_full : (salt : Bytes) → (length salt == 16 || length salt == 32) ≡ true → is_empty salt ≡ false
salt_full [] h = cc
salt_full (b ∷ salt) h = refl

module _ (P : Platform) (plaintext : Bytes) (o : EncryptOptions) (d : FileDraws) where
  file_key : Bytes
  file_key = or_default o.file_key d.key

  file_id : Text
  file_id = or_default o.file_id (P.to_base64 d.id)

  header : Header
  header = header_of o file_id (length plaintext)

  file_with : Bytes → Json
  file_with aad =
      encrypted_file_json header (P.to_base64 d.nonce)
        (P.to_base64 (P.aead_encrypt plaintext aad d.nonce file_key))

  envelope_with : Bytes → Json
  envelope_with wrap_aad =
      file_envelope_json o.wallet_pub_key (P.to_base64 o.salt) (P.to_base64 d.wrap_nonce)
        (P.to_base64 (P.aead_encrypt file_key wrap_aad d.wrap_nonce o.kek))

  -- what a successful encryption has computed
  encrypt_file-ok :
      (file envelope : Json)
      → encrypt_file P plaintext o d ≡ ok (file, envelope)
      → (aad : Bytes) × (wrap_aad : Bytes) × (canonical_bytes P
            (file_aad_json header header.name header.size)
          ≡ ok aad)
        × (wrap_aad_v3 P (P.to_base64 o.salt) o.wallet_pub_key header ≡ ok wrap_aad)
        × (file ≡ file_with aad)
        × (envelope ≡ envelope_with wrap_aad)
        × (is_empty o.wallet_pub_key ≡ false)
        × (is_empty (trim o.wallet_pub_key) ≡ false)
        × (is_empty o.salt ≡ false)
  unfolding encrypt_file file_with envelope_with header file_id file_key
  encrypt_file-ok file envelope h =
      elim (Outcome-cases (canonical_bytes P (file_aad_json header header.name header.size))) [
        | inr (e, q) ↦ absurd (ground (arith, q))
        | inl (aad, q) ↦
            elim (Outcome-cases (wrap_aad_v3 P (P.to_base64 o.salt) o.wallet_pub_key header)) [
              | inr (e, q') ↦ absurd (ground (arith, q, q'))
              | inl (wrap_aad, q') ↦ (
                aad,
                wrap_aad,
                q,
                q',
                ground (arith, q, q'),
                ground (arith, q, q'),
                ground arith,
                ground arith,
                salt_full o.salt (ground arith),
              )
            ]
      ]

  wrap_header-made : (aad : Bytes) → wrap_header (file_with aad) file_id ≡ header
  unfolding wrap_header file_property file_with encrypted_file_json file_aad_json header header_of
      get find_field
  wrap_header-made aad = refl

  payload_aad-made :
      (aad : Bytes)
      → payload_aad_json (file_with aad) ≡ file_aad_json header header.name header.size
  unfolding payload_aad_json file_property file_with encrypted_file_json file_aad_json header
      header_of get find_field get_in
  payload_aad-made aad = refl

  properties :
      (aad wrap_aad : Bytes)
      → (get_in "nonce" (get "wrap" (envelope_with wrap_aad))
          ≡ some (str (P.to_base64 d.wrap_nonce)))
        × (get_in "ciphertext" (get "wrap" (envelope_with wrap_aad))
            ≡ some (str (P.to_base64 (P.aead_encrypt file_key wrap_aad d.wrap_nonce o.kek))))
        × (get_in "salt" (get "kekDerivation" (envelope_with wrap_aad))
            ≡ some (str (P.to_base64 o.salt)))
        × (get "walletPubKey" (envelope_with wrap_aad) ≡ some (str o.wallet_pub_key))
        × (file_property "fileId" (file_with aad) ≡ some (str file_id))
        × (get "nonce" (file_with aad) ≡ some (str (P.to_base64 d.nonce)))
        × (get "ciphertext" (file_with aad)
            ≡ some (str (P.to_base64 (P.aead_encrypt plaintext aad d.nonce file_key))))
  unfolding file_property file_with envelope_with encrypted_file_json file_envelope_json get get_in
      find_field header header_of
  properties aad wrap_aad = (refl, refl, refl, refl, refl, refl, refl)

  module _ (l : Lawful P) where
    opens :
        (aad wrap_aad : Bytes)
        → canonical_bytes P (file_aad_json header header.name header.size) ≡ ok aad
        → wrap_aad_v3 P (P.to_base64 o.salt) o.wallet_pub_key header ≡ ok wrap_aad
        → is_empty o.wallet_pub_key ≡ false
        → is_empty (trim o.wallet_pub_key) ≡ false
        → is_empty (P.to_base64 o.salt) ≡ false
        → is_empty file_id ≡ false
        → decrypt_file P (file_with aad) (envelope_with wrap_aad) o.kek ≡ ok plaintext
    unfolding decrypt_file get_in envelope_with file_envelope_json file_property file_with
        encrypted_file_json header header_of
    opens aad wrap_aad q q' wallet_full trimmed salt_there id_full =
        rw
          (
            properties aad wrap_aad,
            salt_there,
            wallet_full,
            trimmed,
            id_full,
            wrap_header-made aad,
            q',
            l.base64_opens (P.aead_encrypt file_key wrap_aad d.wrap_nonce o.kek),
            l.base64_opens d.wrap_nonce,
            l.aead_opens file_key wrap_aad d.wrap_nonce o.kek,
            payload_aad-made aad,
            q,
            l.base64_opens d.nonce,
            l.base64_opens (P.aead_encrypt plaintext aad d.nonce file_key),
            l.aead_opens plaintext aad d.nonce file_key,
          )
          refl

    -- On a lawful platform, what encryptFile returns is opened by decryptFile, with the same key
    -- encryption key, to the plaintext, unless the file id is empty.
    pub decrypt_file-encrypt_file :
        (file envelope : Json)
        → encrypt_file P plaintext o d ≡ ok (file, envelope)
        → is_empty (or_default o.file_id (P.to_base64 d.id)) ≡ false
        → decrypt_file P file envelope o.kek ≡ ok plaintext
    unfolding decrypt_file file_id
    decrypt_file-encrypt_file file envelope h id_full =
        let (aad, wrap_aad, q, q', is_file, is_envelope, wallet_full, trimmed, full) =
          encrypt_file-ok file envelope h in
        rw (is_file, is_envelope)
          (opens aad wrap_aad q q' wallet_full trimmed (l.base64_non_empty o.salt full) id_full)

    refuses :
        (aad wrap_aad : Bytes)
        → is_empty o.wallet_pub_key ≡ false
        → is_empty (trim o.wallet_pub_key) ≡ false
        → is_empty (P.to_base64 o.salt) ≡ false
        → is_empty file_id ≡ true
        → decrypt_file P (file_with aad) (envelope_with wrap_aad) o.kek ≡ err file_id_required
    unfolding decrypt_file get_in envelope_with file_envelope_json file_property file_with
        encrypted_file_json header header_of
    refuses aad wrap_aad wallet_full trimmed salt_there no_id =
        rw (salt_there, wallet_full, trimmed, no_id) refl

    -- A file encrypted under an empty file id, which encryptFile accepts, is refused by
    -- decryptFile, on a lawful platform, with the key encryption key it was made with.
    pub decrypt_file-empty_id :
        (file envelope : Json)
        → encrypt_file P plaintext o d ≡ ok (file, envelope)
        → is_empty (or_default o.file_id (P.to_base64 d.id)) ≡ true
        → decrypt_file P file envelope o.kek ≡ err file_id_required
    unfolding decrypt_file file_id
    decrypt_file-empty_id file envelope h no_id =
        let (aad, wrap_aad, q, q', is_file, is_envelope, wallet_full, trimmed, full) =
          encrypt_file-ok file envelope h in
        rw (is_file, is_envelope)
          (refuses aad wrap_aad wallet_full trimmed (l.base64_non_empty o.salt full) no_id)
