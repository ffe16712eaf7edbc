-- ===== src/Manifest/Wrap/Opens.antt =====
-- Unwrapping the manifest key.
use sovereign_jedi.Prelude.{
  ◌≡◌, ◌≢◌, refl, ap, ◌∙◌, true, some, Text, ok, arith, text_eq, text_eq_refl, length,
}
use sovereign_jedi.Json.{Json, num, str, get, get_in, is_num, is_str, truthy, as_text}
use sovereign_jedi.Platform.{Platform, Lawful, Bytes, encode_json}
use sovereign_jedi.Crypto.Kek.{derive_vault_root_kek_from_signature}
use sovereign_jedi.Manifest.Errors.{from_crypto}
use sovereign_jedi.Manifest.Wrap.{
  vault_root_template, wrap_context, wrap_aad_json, kek_derivation_json, wrap_json, envelope_json,
  build_manifest_wrap_envelope, check_template, check_envelope, check_salt, unwrap_aad,
  unwrap_manifest_key,
}

module _ (P : Platform) (wallet : Text) (kek manifest_key salt wrap_nonce : Bytes) where
  wrap_aad : Bytes
  wrap_aad =
      encode_json P (wrap_aad_json (num 1) (str wrap_context) wallet (str vault_root_template))

  wrapped_envelope : Json
  wrapped_envelope =
      envelope_json wallet (kek_derivation_json P salt)
        (wrap_json P wrap_nonce (P.aead_encrypt manifest_key wrap_aad wrap_nonce kek))

  build-ok :
      (env : Json)
      → build_manifest_wrap_envelope P wallet kek manifest_key salt wrap_nonce ≡ ok env
      → (env ≡ wrapped_envelope) × (length manifest_key ≡ 32) × (length salt ≢ 0)
  unfolding build_manifest_wrap_envelope wrapped_envelope wrap_aad
  build-ok env h = (ground arith, ground arith, λ e. ground arith)

  check_envelope-wrapped : check_envelope wrapped_envelope wallet ≡ ok tt
  unfolding check_envelope check_template wrapped_envelope envelope_json kek_derivation_json get_in
      is_num is_str text_eq
  check_envelope-wrapped = ground (arith, text_eq_refl wallet)

  unwrap_aad-wrapped : unwrap_aad P wrapped_envelope wallet ≡ wrap_aad
  unfolding unwrap_aad wrapped_envelope wrap_aad envelope_json kek_derivation_json wrap_json get_in
  unwrap_aad-wrapped = refl

  fields-wrapped :
      (as_text (get_in "nonce" (get "wrap" wrapped_envelope)) ≡ some (P.to_base64 wrap_nonce))
      × (as_text (get_in "ciphertext" (get "wrap" wrapped_envelope))
          ≡ some (P.to_base64 (P.aead_encrypt manifest_key wrap_aad wrap_nonce kek)))
      × (as_text (get_in "salt" (get "kekDerivation" wrapped_envelope)) ≡ some (P.to_base64 salt))
      × (truthy (get "wrap" wrapped_envelope) ≡ true)
  unfolding wrapped_envelope envelope_json kek_derivation_json wrap_json get_in truthy
  fields-wrapped = (refl, refl, refl, refl)

  module _ (l : Lawful P) where
    check_salt-wrapped : length salt ≢ 0 → check_salt P wrapped_envelope ≡ ok tt
    unfolding check_salt
    check_salt-wrapped h = ground (arith, fields-wrapped, l.base64_opens salt)

    -- On a lawful platform, an envelope that buildManifestWrapEnvelope returns for the key of a
    -- vault-root signature is opened by unwrapManifestKey, with the same wallet and signature, to
    -- the manifest key.
    pub unwrap-build :
        (env encrypted : Json) (signature : Bytes)
        → from_crypto (derive_vault_root_kek_from_signature P signature) ≡ ok kek
        → build_manifest_wrap_envelope P wallet kek manifest_key salt wrap_nonce ≡ ok env
        → get "envelope" encrypted ≡ some env
        → unwrap_manifest_key P encrypted wallet signature ≡ ok manifest_key
    unfolding unwrap_manifest_key
    unwrap-build env encrypted signature derived built stored =
        let (same, size, salted) = build-ok env built in
        ground (
          arith,
          stored ∙ ap some same,
          check_envelope-wrapped,
          check_salt-wrapped salted,
          unwrap_aad-wrapped,
          fields-wrapped,
          l.base64_opens wrap_nonce,
          l.base64_opens (P.aead_encrypt manifest_key wrap_aad wrap_nonce kek),
          l.aead_opens manifest_key wrap_aad wrap_nonce kek,
        )
