-- ===== src/Upload/Result.antt =====
-- What a successful upload has made.
use sovereign_jedi.Prelude.{
  ◌≤◌, ◌≡◌, refl, sym, ap, ◌∙◌, true, false, Option, some, Text, is_empty, trim, length, ok, arith,
  Outcome-cases, Option-cases, inl, inr, none, subst,
}
use sovereign_jedi.Prelude.Methods.{◌>>=◌}
use sovereign_jedi.Json.{Json, str, get, get_in, find_field}
use sovereign_jedi.Platform.{Lawful, Bytes, encode_json}
use sovereign_jedi.Crypto.Kek.{derive_kek_from_signature}
use sovereign_jedi.Crypto.Unlock.{derive_kek_from_unlock_signature}
use sovereign_jedi.Crypto.Files.{encrypt_file, decrypt_file}
use sovereign_jedi.Crypto.Files.Opens.{decrypt_file-encrypt_file}
use sovereign_jedi.Identity.{Identity, is_verified}
use sovereign_jedi.Identity.Store.{load_identity}
use sovereign_jedi.Identity.Signature.{string, decode_signature}
use sovereign_jedi.Guards.{can_perform_vault_actions, has_identity_verified}
use sovereign_jedi.Session.Manager.{is_vault_unlocked}
use sovereign_jedi.Ipfs.Context.{Context}
use sovereign_jedi.Upload.{
  UploadSetting, UploadFile, UploadResult, max_mvp_file_bytes, signature_text, package_json,
  hash_basis, build_encrypted_ipfs_object_v1, integrity_of, upload_options, check_upload,
  upload_kek, upload_as, upload_encrypted_to_ipfs_or_throw,
}

module _ (s : UploadSetting) (file : UploadFile) (wallet : Text) where
  check_upload-ok :
      (i : Option Identity) (signature : Text)
      → check_upload s i file wallet ≡ ok signature
      → (is_empty (trim wallet) ≡ false)
        × (can_perform_vault_actions s.platform s.now_ms s.storage s.session i ≡ true)
        × (length file.content ≤ max_mvp_file_bytes)
        × (signature_text i ≡ some signature)
  unfolding check_upload
  check_upload-ok i signature h = ground arith

  -- the values of a successful upload, step by step
  abbrev Made : Option Identity → UploadResult → Type 0
  Made i r =
      (signature : Text) × (signature_bytes : Bytes) × (kek : Bytes) × (header : Json)
      × (envelope : Json) × (check_upload s i file wallet ≡ ok signature)
      × (decode_signature s.decoders (string signature) ≡ ok signature_bytes)
      × (upload_kek s i wallet signature_bytes ≡ ok kek)
      × (encrypt_file s.platform file.content (upload_options s file wallet kek) s.draws
          ≡ ok (header, envelope))
      × (r.object ≡ build_encrypted_ipfs_object_v1 header envelope r.integrity_sha256_b64)
      × (r.integrity_sha256_b64 ≡ integrity_of s.platform header envelope)

  upload_as-Made :
      (i : Option Identity) (c c' : Context) (r : UploadResult)
      → upload_as s i file wallet c ≡ (ok r, c')
      → Made i r
  unfolding upload_as ◌>>=◌
  upload_as-Made i c c' r h = elim (Outcome-cases (check_upload s i file wallet)) [
    | inr (e, q) ↦ absurd (ground (arith, q))
    | inl (signature, q) ↦ elim (Outcome-cases (decode_signature s.decoders (string signature))) [
      | inr (e, t) ↦ absurd (ground (arith, q, t))
      | inl (signature_bytes, t) ↦ elim (Outcome-cases (upload_kek s i wallet signature_bytes)) [
        | inr (e, u) ↦ absurd (ground (arith, q, t, u))
        | inl (kek, u) ↦
            elim (Outcome-cases
              (encrypt_file s.platform file.content (upload_options s file wallet kek) s.draws)) [
                | inr (e, v) ↦ absurd (ground (arith, q, t, u, v))
                | inl ((header, envelope), v) ↦ (
                  signature,
                  signature_bytes,
                  kek,
                  header,
                  envelope,
                  q,
                  t,
                  u,
                  v,
                  ground (arith, q, t, u, v),
                  ground (arith, q, t, u, v),
                )
              ]
      ]
    ]
  ]

  upload_kek-derive :
      (i : Option Identity) (signature_bytes kek : Bytes)
      → upload_kek s i wallet signature_bytes ≡ ok kek
      → derive_kek_from_signature s.platform signature_bytes (some s.salt) ≡ ok kek
  unfolding upload_kek derive_kek_from_unlock_signature
  upload_kek-derive i signature_bytes kek h = ground arith

  -- The integrity string of an object is in it, and is base64 of the SHA-256 of the JSON of the
  -- object without it.
  abbrev pub Hashed : Json → Text → Type 0
  Hashed object hash =
      (basis : Json) × (get "version" basis ≡ get "version" object)
      × (get "header" basis ≡ get "header" object)
      × (get "envelope" basis ≡ get "envelope" object)
      × (get "payload" basis ≡ get "payload" object)
      × (get "integrity" basis ≡ none)
      × (get_in "sha256B64" (get "integrity" object) ≡ some (str hash))
      × (hash
          ≡ s.platform.to_base64
              (s.platform.sha256 (s.platform.utf8_encode (s.platform.stringify basis))))

  -- The object's parts open, with the key of the identity's signature, to the file.
  abbrev pub Opens : Option Identity → UploadResult → Type 0
  Opens i r =
      (signature : Text) × (signature_bytes : Bytes) × (kek : Bytes) × (header : Json)
      × (envelope : Json) × (signature_text i ≡ some signature)
      × (decode_signature s.decoders (string signature) ≡ ok signature_bytes)
      × (derive_kek_from_signature s.platform signature_bytes (some s.salt) ≡ ok kek)
      × (get "header" r.object ≡ some header)
      × (get "envelope" r.object ≡ some envelope)
      × (decrypt_file s.platform header envelope kek ≡ ok file.content)
      × Hashed r.object r.integrity_sha256_b64

  object-Hashed :
      (header envelope : Json) (hash : Text)
      → hash ≡ integrity_of s.platform header envelope
      → Hashed (build_encrypted_ipfs_object_v1 header envelope hash) hash
  unfolding build_encrypted_ipfs_object_v1 integrity_of encode_json hash_basis package_json get
      find_field get_in
  object-Hashed header envelope hash same =
      (hash_basis header envelope, refl, refl, refl, refl, refl, refl, same)

  object-parts :
      (header envelope : Json) (hash : Text)
      → (get "header" (build_encrypted_ipfs_object_v1 header envelope hash) ≡ some header)
        × (get "envelope" (build_encrypted_ipfs_object_v1 header envelope hash) ≡ some envelope)
  unfolding build_encrypted_ipfs_object_v1 package_json get find_field
  object-parts header envelope hash = (refl, refl)

  -- On a lawful platform with random bytes for the file id, the header and the envelope of an
  -- uploaded object are opened by decryptFile to the file, with the key that the signature of the
  -- stored identity and the salt give; the integrity string is in the object, and it is base64 of
  -- the SHA-256 of the JSON of an object with the same version, header, envelope and payload and
  -- no integrity.
  pub upload-Opens :
      (c c' : Context) (r : UploadResult)
      → Lawful s.platform
      → is_empty s.draws.id ≡ false
      → upload_encrypted_to_ipfs_or_throw s file wallet c ≡ (ok r, c')
      → Opens (load_identity s.platform s.storage) r
  unfolding upload_encrypted_to_ipfs_or_throw upload_options
  upload-Opens c c' r l drawn h =
      let i = load_identity s.platform s.storage in
      let (signature, signature_bytes, kek, header, envelope, q, t, u, v, is_object, hash) =
        upload_as-Made i c c' r h in
      let parts = object-parts header envelope r.integrity_sha256_b64 in
      (
        signature,
        signature_bytes,
        kek,
        header,
        envelope,
        (check_upload-ok i signature q).3,
        t,
        upload_kek-derive i signature_bytes kek u,
        ap (get "header") is_object ∙ parts.0,
        ap (get "envelope") is_object ∙ parts.1,
        decrypt_file-encrypt_file s.platform file.content (upload_options s file wallet kek) s.draws
            l header envelope v (l.base64_non_empty s.draws.id drawn),
        subst (λ (o : Json). Hashed o r.integrity_sha256_b64) (sym is_object)
            (object-Hashed header envelope r.integrity_sha256_b64 hash),
      )

  -- what must hold for an upload
  abbrev pub Allowed : Type 0
  Allowed =
      (is_empty (trim wallet) ≡ false)
      × (is_verified s.platform (load_identity s.platform s.storage) s.now_ms ≡ true)
      × (is_vault_unlocked s.session ≡ true)
      × (length file.content ≤ max_mvp_file_bytes)

  can_perform-parts :
      (i : Option Identity)
      → can_perform_vault_actions s.platform s.now_ms s.storage s.session i ≡ true
      → (has_identity_verified s.platform s.now_ms s.storage s.session i ≡ true)
        × (is_vault_unlocked s.session ≡ true)
  unfolding can_perform_vault_actions
  can_perform-parts i h = ground arith

  loaded_again :
      has_identity_verified s.platform s.now_ms s.storage s.session
        (load_identity s.platform s.storage)
      ≡ is_verified s.platform (load_identity s.platform s.storage) s.now_ms
  unfolding has_identity_verified
  loaded_again = elim (Option-cases (load_identity s.platform s.storage)) [
    | inl q ↦ rw q (ap (λ i. is_verified s.platform i s.now_ms) q)
    | inr (i, q) ↦ rw q refl
  ]

  -- An upload that returns was made with a wallet that is not blank, a stored identity that is
  -- verified at the time, an unlocked vault, and a file of at most 100 MiB.
  pub upload-Allowed :
      (c c' : Context) (r : UploadResult)
      → upload_encrypted_to_ipfs_or_throw s file wallet c ≡ (ok r, c')
      → Allowed
  unfolding upload_encrypted_to_ipfs_or_throw
  upload-Allowed c c' r h =
      let i = load_identity s.platform s.storage in
      let (signature, _, _, _, _, q, _, _, _, _, _) = upload_as-Made i c c' r h in
      let (trimmed, can, small, _) = check_upload-ok i signature q in
      let (verified, unlocked) = can_perform-parts i can in
      (trimmed, sym loaded_again ∙ verified, unlocked, small)
