-- ===== src/Manifest/Cipher/Opens.antt =====
-- `decryptManifestV1` on what `encryptManifestV1` makes.
use sovereign_jedi.Prelude.{
  ◌≡◌, refl, ap, true, false, some, Text, text, ok, arith, text_eq_refl, length, is_empty, text_eq,
  Outcome-cases, inl, inr, [], ◌∷◌,
}
use sovereign_jedi.Json.{Json, str, end, get, get_in, is_num, is_str, truthy}
use sovereign_jedi.Platform.{Platform, Lawful, Bytes, encode_json, decode_json, decode-encode}
use sovereign_jedi.Manifest.Cipher.{
  aad_json, aad_bytes, hash_basis, compute_integrity, header_json, payload_json, encrypted_manifest,
  integrity_field, check_manifest_arguments, encrypt_manifest_v1, aad_matches, basis_of,
  integrity_holds, check_encrypted, check_decrypted, base64_property, decrypt_manifest_v1, is_blank,
  manifest_key_length,
}

is_str_refl : (t : Text) → is_str (some (str t)) t ≡ true
unfolding is_str
is_str_refl t = text_eq_refl t

-- The arguments that `encryptManifestV1` accepts.
pub record Accepted (manifest : Json) (manifest_key : Bytes) (wallet : Text) (envelope : Json)
    : Type 0 where
  pub wallet_not_blank : is_blank wallet ≡ false
  pub key_length : length manifest_key ≡ manifest_key_length
  pub manifest_version : is_num (get "version" manifest) 1 ≡ true
  pub manifest_wallet : is_str (get "walletPubKey" manifest) wallet ≡ true
  pub envelope_version : is_num (get "version" envelope) 1 ≡ true
  pub envelope_wallet : is_str (get "walletPubKey" envelope) wallet ≡ true

check-Accepted :
    (manifest : Json) (manifest_key : Bytes) (wallet : Text) (envelope : Json)
    → check_manifest_arguments manifest manifest_key wallet envelope ≡ ok tt
    → Accepted manifest manifest_key wallet envelope
unfolding check_manifest_arguments
check-Accepted manifest manifest_key wallet envelope h = ground arith

truthy-str : (t : Text) → is_empty t ≡ false → truthy (some (str t)) ≡ true
unfolding truthy
truthy-str [] h = cc
truthy-str (c ∷ t) h = refl

module _ (P : Platform) where
  encrypted_with : Bytes → Bytes → Text → Json → Bytes → Bytes → Json
  encrypted_with plain key wallet envelope nonce aad =
      let header = header_json P nonce wallet in
      let payload = payload_json P (P.aead_encrypt plain aad nonce key) in
      encrypted_manifest header payload envelope
        (integrity_field (compute_integrity P (encrypted_manifest header payload envelope end)))

  encrypt-ok :
      (manifest : Json) (key : Bytes) (wallet : Text) (envelope : Json) (nonce : Bytes)
      (encrypted : Json)
      → encrypt_manifest_v1 P manifest key wallet envelope nonce ≡ ok encrypted
      → (aad : Bytes) × (aad_bytes P (aad_json wallet) ≡ ok aad)
        × (check_manifest_arguments manifest key wallet envelope ≡ ok tt)
        × (encrypted ≡ encrypted_with (encode_json P manifest) key wallet envelope nonce aad)
  unfolding encrypt_manifest_v1 encrypted_with
  encrypt-ok manifest key wallet envelope nonce encrypted h =
      elim (Outcome-cases (aad_bytes P (aad_json wallet))) [
        | inl (aad, e) ↦ (aad, e, ground arith, ground arith)
        | inr (x, e) ↦ absurd (ground arith)
      ]

module _ (P : Platform) (l : Lawful P) where
  integrity-truthy : (basis : Json) → truthy (some (str (compute_integrity P basis))) ≡ true
  unfolding compute_integrity
  integrity-truthy basis =
      truthy-str _ (l.base64_non_empty _ (l.sha256_non_empty (encode_json P basis)))

  integrity-encrypted :
      (header payload envelope : Json)
      → integrity_holds P (
          encrypted_manifest header payload envelope (
            integrity_field (compute_integrity P (encrypted_manifest header payload envelope end))))
        ≡ true
  unfolding integrity_holds encrypted_manifest integrity_field basis_of hash_basis get get_in
  integrity-encrypted header payload envelope =
      rw
        (
          integrity-truthy (encrypted_manifest header payload envelope end),
          l.string_of_text (compute_integrity P (encrypted_manifest header payload envelope end)),
        )
        (text_eq_refl _)

  module _ (plain key : Bytes) (wallet : Text) (envelope : Json) (nonce aad : Bytes) where
    abbrev made : Json
    made = encrypted_with P plain key wallet envelope nonce aad

    kind-made :
        (is_num (get "version" made) 1 ≡ true)
        × (is_str (get "kind" made) (text "SJ_MANIFEST") ≡ true)
    unfolding encrypted_with encrypted_manifest get is_num is_str text_eq
    kind-made = (refl, refl)

    aad-made : get_in "aad" (get "header" made) ≡ some (aad_json wallet)
    unfolding encrypted_with encrypted_manifest header_json get_in
    aad-made = refl

    aad_matches-made : aad_matches (some (aad_json wallet)) wallet ≡ true
    unfolding aad_matches aad_json get_in is_num is_str text_eq
    aad_matches-made = text_eq_refl wallet

    integrity-made : integrity_holds P made ≡ true
    unfolding encrypted_with
    integrity-made =
        integrity-encrypted (header_json P nonce wallet)
          (payload_json P (P.aead_encrypt plain aad nonce key)) envelope

    nonce-made : base64_property P "nonce" (get "header" made) ≡ ok nonce
    unfolding encrypted_with encrypted_manifest header_json get_in base64_property
    nonce-made = ap ok (l.base64_opens nonce)

    ciphertext-made :
        base64_property P "ciphertextB64" (get "payload" made)
        ≡ ok (P.aead_encrypt plain aad nonce key)
    unfolding encrypted_with encrypted_manifest payload_json get_in base64_property
    ciphertext-made = ap ok (l.base64_opens _)

    check_encrypted-made :
        is_blank wallet ≡ false
        → length key ≡ manifest_key_length
        → check_encrypted P made key wallet ≡ ok tt
    unfolding check_encrypted
    check_encrypted-made blank size =
        ground (arith, kind-made, aad-made, aad_matches-made, integrity-made)

    decrypt-made :
        (v : Json)
        → is_blank wallet ≡ false
        → length key ≡ manifest_key_length
        → aad_bytes P (aad_json wallet) ≡ ok aad
        → decode_json P plain ≡ some v
        → decrypt_manifest_v1 P made key wallet ≡ check_decrypted wallet v
    unfolding decrypt_manifest_v1
    decrypt-made v blank size bound plain_opens = ground (
      arith,
      check_encrypted-made blank size,
      nonce-made,
      ciphertext-made,
      aad-made,
      l.aead_opens plain aad nonce key,
    )

  -- On a lawful platform, what encryptManifestV1 returns is decrypted by decryptManifestV1, with
  -- the same key and wallet, to the manifest that was encrypted.
  pub decrypt-encrypt :
      (manifest : Json) (key : Bytes) (wallet : Text) (envelope : Json) (nonce : Bytes)
      (encrypted : Json)
      → encrypt_manifest_v1 P manifest key wallet envelope nonce ≡ ok encrypted
      → decrypt_manifest_v1 P encrypted key wallet ≡ ok manifest
  unfolding check_decrypted
  decrypt-encrypt manifest key wallet envelope nonce encrypted h =
      let (aad, bound, checked, same) =
        encrypt-ok P manifest key wallet envelope nonce encrypted h in
      let a = check-Accepted manifest key wallet envelope checked in
      rw
        (
          same,
          decrypt-made (encode_json P manifest) key wallet envelope nonce aad manifest
              a.wallet_not_blank a.key_length bound (decode-encode P l manifest),
        )
        (ground arith)

  -- The envelope is stored as it was given.
  pub envelope-encrypt :
      (manifest : Json) (key : Bytes) (wallet : Text) (envelope : Json) (nonce : Bytes)
      (encrypted : Json)
      → encrypt_manifest_v1 P manifest key wallet envelope nonce ≡ ok encrypted
      → get "envelope" encrypted ≡ some envelope
  unfolding encrypted_with encrypted_manifest get
  envelope-encrypt manifest key wallet envelope nonce encrypted h =
      let (aad, bound, checked, same) =
        encrypt-ok P manifest key wallet envelope nonce encrypted h in
      rw same refl
