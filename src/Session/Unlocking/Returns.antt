-- ===== src/Session/Unlocking/Returns.antt =====
-- When `unlockVault` returns.
use sovereign_jedi.Prelude.{
  ℕ, ◌+◌, ◌≡◌, refl, true, false, Option, some, is_some, is_empty, or_default, length, arith, text,
  ok, Text, Option-cases, inl, inr, ◌++◌,
}
use sovereign_jedi.Prelude.Methods.{◌>>=◌, ◌>>◌}
use sovereign_jedi.Json.{Json}
use sovereign_jedi.Platform.{Platform, Lawful, Bytes}
use sovereign_jedi.Crypto.Hkdf.{hkdf_extract, derive_key_hkdf}
use sovereign_jedi.Crypto.Hkdf.Rfc.{hkdf_expand-rfc}
use sovereign_jedi.Crypto.Kek.{non_empty_salt, derive_kek_from_signature, kek_info}
use sovereign_jedi.Crypto.Unlock.{
  BuildUnlockResult, UnlockMessageV1, Surroundings, unlock_message_json, canonicalize_json,
  build_unlock_message_v1, derive_kek_from_unlock_signature, is_expired, assert_unlock_not_expired,
}
use sovereign_jedi.Crypto.VaultRoot.{
  BuildVaultRootResult, VaultRootMessageV1, vault_root_message_json, build_vault_root_message_v1,
}
use sovereign_jedi.Session.Manager.{SessionManager}
use sovereign_jedi.Session.Signing.{Signers, request_signature}
use sovereign_jedi.Session.Unlocking.{
  unlock_params, vault_id, connected_key, begin_unlock, store_unlock, begin_root, store_root,
  unlock_vault,
}

module _ (P : Platform) (l : Lawful P) where
  derive_kek-returns :
      (signature : Bytes) (salt : Option Bytes)
      → (kek : Bytes) × (derive_kek_from_signature P signature salt ≡ ok kek)
  unfolding derive_kek_from_signature derive_key_hkdf
  derive_kek-returns signature salt =
      let prk = hkdf_extract P (non_empty_salt salt) (P.sha256 signature) in
      let (same, size) =
        hkdf_expand-rfc P l prk (some (kek_info P)) 32 (omega arith) (omega arith) in
      (_, same)

  derive-returns :
      (s : Surroundings) (u : BuildUnlockResult) (signature : Bytes) (salt : Option Bytes)
      → u.canonical_object.expires_at ≡ P.to_iso_string (s.now_ms + 600000)
      → (kek : Bytes) × (derive_kek_from_unlock_signature P signature salt u s.now_ms ≡ ok kek)
  unfolding derive_kek_from_unlock_signature assert_unlock_not_expired is_expired
  derive-returns s u signature salt expires =
      let at = s.now_ms + 600000 in
      let (kek, derived) = derive_kek-returns signature salt in
      (kek, ground (arith, expires, l.iso_non_empty at, l.date_opens at, derived))

  module _ (canonical : (v : Json) → is_some (P.canonicalize v) ≡ true) where
    message : Surroundings → Text → UnlockMessageV1
    message s key = record {
      origin = s.page_origin;
      wallet = key;
      nonce = P.to_base64 s.random_nonce;
      issued_at = P.to_iso_string s.now_ms;
      expires_at = P.to_iso_string (s.now_ms + 600000);
      vault_id = text "local-default";
    }

    canonicalized : (v : Json) → (t : Text) × (canonicalize_json P v ≡ ok t)
    unfolding canonicalize_json
    canonicalized v = elim (Option-cases (P.canonicalize v)) [
      | inl missing ↦ let found = canonical v in absurd (ground arith)
      | inr (t, found) ↦ (t, rw found refl)
    ]

    build-returns :
        (s : Surroundings) (key : Text)
        → length s.random_nonce ≡ 16
        → (u : BuildUnlockResult) × (build_unlock_message_v1 P s (unlock_params P s key) ≡ ok u)
          × (u.canonical_object.expires_at ≡ P.to_iso_string (s.now_ms + 600000))
    unfolding build_unlock_message_v1 unlock_params message
    build-returns s key size =
        let (t, found) = canonicalized (unlock_message_json (message s key)) in
        (
          record { canonical_object = message s key; message_to_sign = text "SJ_UNLOCK_V1\n" ++ t },
          rw (size, found) refl,
          refl,
        )

    root-returns :
        (key : Option Text) (id : Option Text)
        → (r : BuildVaultRootResult) × (build_vault_root_message_v1 P key id ≡ ok r)
    unfolding build_vault_root_message_v1
    root-returns key id =
        let root : VaultRootMessageV1 = record {
          wallet = key;
          vault_id = or_default id (text "local-default");
        } in
        let (t, found) = canonicalized (vault_root_message_json root) in
        (
          record { canonical_object = root; message_to_sign = text "SJ_VAULT_ROOT_V1\n" ++ t },
          rw found refl,
        )

    -- unlockVault returns if a non-empty key is connected, the wallet signs every message, the
    -- nonce has 16 bytes, canonicalize returns a string, and the platform is lawful.
    pub unlock_vault-returns :
        (signers : Signers) (sign : Bytes → Bytes) (s : Surroundings) (salt : Bytes) (finished : ℕ)
        (m : SessionManager) (key : Text)
        → ((message : Bytes) → request_signature signers message ≡ ok (some (sign message)))
        → m.wallet_pub_key ≡ some key
        → is_empty key ≡ false
        → length s.random_nonce ≡ 16
        → (unlock_vault P signers s salt finished m).0 ≡ ok tt
    unfolding unlock_vault begin_unlock store_unlock begin_root store_root connected_key ◌>>=◌ ◌>>◌
    unlock_vault-returns signers sign s salt finished m key signs connected full size =
        let (u, built, expires) = build-returns s key size in
        let (kek, derived) =
          derive-returns s u (sign (P.utf8_encode u.message_to_sign)) (some salt) expires in
        let (r, rooted) = root-returns (some key) (some vault_id) in
        rw
          (
            connected,
            full,
            built,
            signs (P.utf8_encode u.message_to_sign),
            derived,
            rooted,
            signs (P.utf8_encode r.message_to_sign),
          )
          refl
