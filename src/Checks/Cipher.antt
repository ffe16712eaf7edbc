-- ===== src/Checks/Cipher.antt =====
-- The manifest's encryption, the wrapped key and the pointer on samples.
use sovereign_jedi.Json.{
  find_field, get, get_in, set_in, set_field, is_num, is_str, truthy, any_item, Json, nil, arr, str,
  num, obj, field, end,
}
use sovereign_jedi.Platform.{encode_json, decode_json, Bytes}
use sovereign_jedi.Prelude.{text_eq, is_space, trim_start, trim, has_space}
use sovereign_jedi.Crypto.Hkdf.{
  normalize_salt, hkdf_extract, set_at, block_input, expand_parts, write_parts, hkdf_expand,
  derive_key_hkdf,
}
use sovereign_jedi.Crypto.Kek.{
  non_empty_salt, derive_kek_from_signature, derive_vault_root_kek_from_signature,
}
use sovereign_jedi.Manifest.Cipher.{
  derive_manifest_key, is_blank, aad_json, aad_bytes, hash_basis, compute_integrity, header_json,
  payload_json, encrypted_manifest, integrity_field, check_manifest_arguments, encrypt_manifest_v1,
  aad_matches, basis_of, integrity_holds, check_encrypted, check_decrypted, base64_property,
  decrypt_manifest_v1,
}
use sovereign_jedi.Manifest.Wrap.{
  wrap_aad_json, kek_derivation_json, wrap_json, envelope_json, build_manifest_wrap_envelope,
  check_template, check_envelope, check_salt, unwrap_aad, unwrap_manifest_key,
}
use sovereign_jedi.Manifest.Pointer.{
  set_item, remove_item, canonicalize_wallet_pub_key, cluster_name, scoped_key, legacy_key,
  build_manifest_storage_key, cid_found, migrate, read_pointer, get_manifest_cid, set_manifest_cid,
  remove_manifest_cid, ManifestStorage,
}
use sovereign_jedi.Manifest.Service.{
  check_unlock, check_params, put_block, add_bytes, cat_bytes, read_cid, write_cid, open_manifest,
  store_manifest, empty_manifest, init_manifest, load_current, load_or_init_at,
  load_manifest_or_init,
}
use sovereign_jedi.Manifest.Service.Entry.{
  entry_id_of, added_at_of, entry_json, check_entry, same_entry, entries_of, merged_entries,
  with_entry, merge_entry,
}
use sovereign_jedi.Manifest.Service.Append.{
  ensure_manifest, append_to_current, append_entry_and_persist,
}
use sovereign_jedi.Checks.Codec.{put_text, get_text, to_char, put_key, get_key}
use sovereign_jedi.Checks.JsonCodec.{stringify, parse}
use sovereign_jedi.Checks.Samples.{unseal, platform, platform-Lawful}
use sovereign_jedi.Prelude.{
  ◌≡◌, ◌≢◌, refl, Bool, true, false, none, some, Text, text, [], ◌∷◌, Outcome, ok, err, replicate,
  ◌⊎◌, text_eq, text_eq_refl, subst, is_empty, if◌then◌else◌, ◌++◌,
}
use sovereign_jedi.Manifest.Errors.{ManifestError, from_crypto}
use sovereign_jedi.Manifest.Cipher.Opens.{decrypt-encrypt}
use sovereign_jedi.Manifest.Cipher.Accepts.{SameHashed, Collision, decrypt_tampered}
use sovereign_jedi.Manifest.Wrap.Opens.{unwrap-build}
use sovereign_jedi.Manifest.Pointer.Laws.{get-set_other, get-remove_legacy}

abbrev wallet : Text
wallet = text "WALLET"

abbrev key : Bytes
key = replicate 32 5

abbrev manifest : Json
manifest = obj (
    field "version" (num 1) (
      field "walletPubKey" (str wallet) (
        field "createdAt" (str (text "d"))
          (field "updatedAt" (str (text "d")) (field "entries" (arr nil) end)))))

abbrev signature : Bytes
signature = 1 ∷ (2 ∷ (3 ∷ []))

abbrev salt : Bytes
salt = replicate 16 7

abbrev nonce : Bytes
nonce = replicate 24 9

abbrev value_of : {A : Type 0} → A → Outcome ManifestError A → A
value_of d (ok a) = a
value_of d (err e) = d

abbrev is_ok : {A : Type 0} → Outcome ManifestError A → Bool
is_ok (ok a) = true
is_ok (err e) = false

is_ok-eq :
    {A : Type 0} (d : A) (r : Outcome ManifestError A) → is_ok r ≡ true → r ≡ ok (value_of d r)
is_ok-eq d (ok a) h = refl
is_ok-eq d (err e) h = cc

abbrev derived : Outcome ManifestError Bytes
derived = from_crypto (derive_vault_root_kek_from_signature platform signature)

abbrev kek : Bytes
kek = value_of [] derived

derived_run : is_ok derived ≡ true
unfolding find_field get get_in set_in set_field is_num is_str truthy any_item encode_json
    decode_json text_eq is_space trim_start trim has_space normalize_salt hkdf_extract set_at
    block_input expand_parts write_parts hkdf_expand derive_key_hkdf non_empty_salt
    derive_kek_from_signature derive_vault_root_kek_from_signature derive_manifest_key is_blank
    aad_json aad_bytes hash_basis compute_integrity header_json payload_json encrypted_manifest
    integrity_field check_manifest_arguments encrypt_manifest_v1 aad_matches basis_of
    integrity_holds check_encrypted check_decrypted base64_property decrypt_manifest_v1
    wrap_aad_json kek_derivation_json wrap_json envelope_json build_manifest_wrap_envelope
    check_template check_envelope check_salt unwrap_aad unwrap_manifest_key set_item remove_item
    canonicalize_wallet_pub_key cluster_name scoped_key legacy_key build_manifest_storage_key
    cid_found migrate read_pointer get_manifest_cid set_manifest_cid remove_manifest_cid
    check_unlock check_params put_block add_bytes cat_bytes read_cid write_cid open_manifest
    store_manifest empty_manifest init_manifest load_current load_or_init_at load_manifest_or_init
    entry_id_of added_at_of entry_json check_entry same_entry entries_of merged_entries with_entry
    merge_entry ensure_manifest append_to_current append_entry_and_persist put_text get_text to_char
    put_key get_key stringify parse unseal
derived_run = refl

abbrev built : Outcome ManifestError Json
built = build_manifest_wrap_envelope platform wallet kek key salt nonce

abbrev envelope : Json
envelope = value_of (num 0) built

built_run : is_ok built ≡ true
unfolding find_field get get_in set_in set_field is_num is_str truthy any_item encode_json
    decode_json text_eq is_space trim_start trim has_space normalize_salt hkdf_extract set_at
    block_input expand_parts write_parts hkdf_expand derive_key_hkdf non_empty_salt
    derive_kek_from_signature derive_vault_root_kek_from_signature derive_manifest_key is_blank
    aad_json aad_bytes hash_basis compute_integrity header_json payload_json encrypted_manifest
    integrity_field check_manifest_arguments encrypt_manifest_v1 aad_matches basis_of
    integrity_holds check_encrypted check_decrypted base64_property decrypt_manifest_v1
    wrap_aad_json kek_derivation_json wrap_json envelope_json build_manifest_wrap_envelope
    check_template check_envelope check_salt unwrap_aad unwrap_manifest_key set_item remove_item
    canonicalize_wallet_pub_key cluster_name scoped_key legacy_key build_manifest_storage_key
    cid_found migrate read_pointer get_manifest_cid set_manifest_cid remove_manifest_cid
    check_unlock check_params put_block add_bytes cat_bytes read_cid write_cid open_manifest
    store_manifest empty_manifest init_manifest load_current load_or_init_at load_manifest_or_init
    entry_id_of added_at_of entry_json check_entry same_entry entries_of merged_entries with_entry
    merge_entry ensure_manifest append_to_current append_entry_and_persist put_text get_text to_char
    put_key get_key stringify parse unseal
built_run = refl

abbrev made : Outcome ManifestError Json
made = encrypt_manifest_v1 platform manifest key wallet envelope nonce

abbrev encrypted : Json
encrypted = value_of (num 0) made

made_run : is_ok made ≡ true
unfolding find_field get get_in set_in set_field is_num is_str truthy any_item encode_json
    decode_json text_eq is_space trim_start trim has_space normalize_salt hkdf_extract set_at
    block_input expand_parts write_parts hkdf_expand derive_key_hkdf non_empty_salt
    derive_kek_from_signature derive_vault_root_kek_from_signature derive_manifest_key is_blank
    aad_json aad_bytes hash_basis compute_integrity header_json payload_json encrypted_manifest
    integrity_field check_manifest_arguments encrypt_manifest_v1 aad_matches basis_of
    integrity_holds check_encrypted check_decrypted base64_property decrypt_manifest_v1
    wrap_aad_json kek_derivation_json wrap_json envelope_json build_manifest_wrap_envelope
    check_template check_envelope check_salt unwrap_aad unwrap_manifest_key set_item remove_item
    canonicalize_wallet_pub_key cluster_name scoped_key legacy_key build_manifest_storage_key
    cid_found migrate read_pointer get_manifest_cid set_manifest_cid remove_manifest_cid
    check_unlock check_params put_block add_bytes cat_bytes read_cid write_cid open_manifest
    store_manifest empty_manifest init_manifest load_current load_or_init_at load_manifest_or_init
    entry_id_of added_at_of entry_json check_entry same_entry entries_of merged_entries with_entry
    merge_entry ensure_manifest append_to_current append_entry_and_persist put_text get_text to_char
    put_key get_key stringify parse unseal
made_run = refl

decrypt-encrypt_example : decrypt_manifest_v1 platform encrypted key wallet ≡ ok manifest
decrypt-encrypt_example =
    decrypt-encrypt platform platform-Lawful manifest key wallet envelope nonce encrypted
      (is_ok-eq (num 0) made made_run)

has_envelope : get "envelope" encrypted ≡ some envelope
unfolding find_field get get_in set_in set_field is_num is_str truthy any_item encode_json
    decode_json text_eq is_space trim_start trim has_space normalize_salt hkdf_extract set_at
    block_input expand_parts write_parts hkdf_expand derive_key_hkdf non_empty_salt
    derive_kek_from_signature derive_vault_root_kek_from_signature derive_manifest_key is_blank
    aad_json aad_bytes hash_basis compute_integrity header_json payload_json encrypted_manifest
    integrity_field check_manifest_arguments encrypt_manifest_v1 aad_matches basis_of
    integrity_holds check_encrypted check_decrypted base64_property decrypt_manifest_v1
    wrap_aad_json kek_derivation_json wrap_json envelope_json build_manifest_wrap_envelope
    check_template check_envelope check_salt unwrap_aad unwrap_manifest_key set_item remove_item
    canonicalize_wallet_pub_key cluster_name scoped_key legacy_key build_manifest_storage_key
    cid_found migrate read_pointer get_manifest_cid set_manifest_cid remove_manifest_cid
    check_unlock check_params put_block add_bytes cat_bytes read_cid write_cid open_manifest
    store_manifest empty_manifest init_manifest load_current load_or_init_at load_manifest_or_init
    entry_id_of added_at_of entry_json check_entry same_entry entries_of merged_entries with_entry
    merge_entry ensure_manifest append_to_current append_entry_and_persist put_text get_text to_char
    put_key get_key stringify parse unseal
has_envelope = refl

unwrap-build_example : unwrap_manifest_key platform encrypted wallet signature ≡ ok key
unwrap-build_example =
    unwrap-build platform wallet kek key salt nonce platform-Lawful envelope encrypted signature
      (is_ok-eq [] derived derived_run) (is_ok-eq (num 0) built built_run) has_envelope

opened_run : decrypt_manifest_v1 platform encrypted key wallet ≡ ok manifest
unfolding find_field get get_in set_in set_field is_num is_str truthy any_item encode_json
    decode_json text_eq is_space trim_start trim has_space normalize_salt hkdf_extract set_at
    block_input expand_parts write_parts hkdf_expand derive_key_hkdf non_empty_salt
    derive_kek_from_signature derive_vault_root_kek_from_signature derive_manifest_key is_blank
    aad_json aad_bytes hash_basis compute_integrity header_json payload_json encrypted_manifest
    integrity_field check_manifest_arguments encrypt_manifest_v1 aad_matches basis_of
    integrity_holds check_encrypted check_decrypted base64_property decrypt_manifest_v1
    wrap_aad_json kek_derivation_json wrap_json envelope_json build_manifest_wrap_envelope
    check_template check_envelope check_salt unwrap_aad unwrap_manifest_key set_item remove_item
    canonicalize_wallet_pub_key cluster_name scoped_key legacy_key build_manifest_storage_key
    cid_found migrate read_pointer get_manifest_cid set_manifest_cid remove_manifest_cid
    check_unlock check_params put_block add_bytes cat_bytes read_cid write_cid open_manifest
    store_manifest empty_manifest init_manifest load_current load_or_init_at load_manifest_or_init
    entry_id_of added_at_of entry_json check_entry same_entry entries_of merged_entries with_entry
    merge_entry ensure_manifest append_to_current append_entry_and_persist put_text get_text to_char
    put_key get_key stringify parse unseal
opened_run = refl

-- the same object with a property that the integrity string does not cover
abbrev annotated : Json
annotated = set_field "note" (num 2) encrypted

same_string :
    get_in "sha256B64" (get "integrity" annotated) ≡ get_in "sha256B64" (get "integrity" encrypted)
unfolding find_field get get_in set_in set_field is_num is_str truthy any_item encode_json
    decode_json text_eq is_space trim_start trim has_space normalize_salt hkdf_extract set_at
    block_input expand_parts write_parts hkdf_expand derive_key_hkdf non_empty_salt
    derive_kek_from_signature derive_vault_root_kek_from_signature derive_manifest_key is_blank
    aad_json aad_bytes hash_basis compute_integrity header_json payload_json encrypted_manifest
    integrity_field check_manifest_arguments encrypt_manifest_v1 aad_matches basis_of
    integrity_holds check_encrypted check_decrypted base64_property decrypt_manifest_v1
    wrap_aad_json kek_derivation_json wrap_json envelope_json build_manifest_wrap_envelope
    check_template check_envelope check_salt unwrap_aad unwrap_manifest_key set_item remove_item
    canonicalize_wallet_pub_key cluster_name scoped_key legacy_key build_manifest_storage_key
    cid_found migrate read_pointer get_manifest_cid set_manifest_cid remove_manifest_cid
    check_unlock check_params put_block add_bytes cat_bytes read_cid write_cid open_manifest
    store_manifest empty_manifest init_manifest load_current load_or_init_at load_manifest_or_init
    entry_id_of added_at_of entry_json check_entry same_entry entries_of merged_entries with_entry
    merge_entry ensure_manifest append_to_current append_entry_and_persist put_text get_text to_char
    put_key get_key stringify parse unseal
same_string = refl

annotated_run : decrypt_manifest_v1 platform annotated key wallet ≡ ok manifest
unfolding find_field get get_in set_in set_field is_num is_str truthy any_item encode_json
    decode_json text_eq is_space trim_start trim has_space normalize_salt hkdf_extract set_at
    block_input expand_parts write_parts hkdf_expand derive_key_hkdf non_empty_salt
    derive_kek_from_signature derive_vault_root_kek_from_signature derive_manifest_key is_blank
    aad_json aad_bytes hash_basis compute_integrity header_json payload_json encrypted_manifest
    integrity_field check_manifest_arguments encrypt_manifest_v1 aad_matches basis_of
    integrity_holds check_encrypted check_decrypted base64_property decrypt_manifest_v1
    wrap_aad_json kek_derivation_json wrap_json envelope_json build_manifest_wrap_envelope
    check_template check_envelope check_salt unwrap_aad unwrap_manifest_key set_item remove_item
    canonicalize_wallet_pub_key cluster_name scoped_key legacy_key build_manifest_storage_key
    cid_found migrate read_pointer get_manifest_cid set_manifest_cid remove_manifest_cid
    check_unlock check_params put_block add_bytes cat_bytes read_cid write_cid open_manifest
    store_manifest empty_manifest init_manifest load_current load_or_init_at load_manifest_or_init
    entry_id_of added_at_of entry_json check_entry same_entry entries_of merged_entries with_entry
    merge_entry ensure_manifest append_to_current append_entry_and_persist put_text get_text to_char
    put_key get_key stringify parse unseal
annotated_run = refl

differ : (s t : Text) → text_eq s t ≡ false → s ≢ t
differ s t h e =
    let same : text_eq s t ≡ true = subst (λ (u : Text). text_eq s u ≡ true) e (text_eq_refl s) in
    cc

decrypt_tampered_example : SameHashed annotated encrypted ⊎ Collision platform
decrypt_tampered_example =
    decrypt_tampered platform platform-Lawful encrypted annotated key key wallet wallet manifest
      manifest opened_run annotated_run same_string

-- a local storage with a legacy pointer
abbrev storage : ManifestStorage
storage = record {
  items = λ k. if text_eq (text "sj:manifestCid:WALLET") k then some (text " old ") else none;
  can_remove = true;
}

abbrev after_set : ManifestStorage
after_set = (set_manifest_cid none wallet (text " new ") storage).1

set_run : set_manifest_cid none wallet (text " new ") storage ≡ (ok tt, after_set)
unfolding find_field get get_in set_in set_field is_num is_str truthy any_item encode_json
    decode_json text_eq is_space trim_start trim has_space normalize_salt hkdf_extract set_at
    block_input expand_parts write_parts hkdf_expand derive_key_hkdf non_empty_salt
    derive_kek_from_signature derive_vault_root_kek_from_signature derive_manifest_key is_blank
    aad_json aad_bytes hash_basis compute_integrity header_json payload_json encrypted_manifest
    integrity_field check_manifest_arguments encrypt_manifest_v1 aad_matches basis_of
    integrity_holds check_encrypted check_decrypted base64_property decrypt_manifest_v1
    wrap_aad_json kek_derivation_json wrap_json envelope_json build_manifest_wrap_envelope
    check_template check_envelope check_salt unwrap_aad unwrap_manifest_key set_item remove_item
    canonicalize_wallet_pub_key cluster_name scoped_key legacy_key build_manifest_storage_key
    cid_found migrate read_pointer get_manifest_cid set_manifest_cid remove_manifest_cid
    check_unlock check_params put_block add_bytes cat_bytes read_cid write_cid open_manifest
    store_manifest empty_manifest init_manifest load_current load_or_init_at load_manifest_or_init
    entry_id_of added_at_of entry_json check_entry same_entry entries_of merged_entries with_entry
    merge_entry ensure_manifest append_to_current append_entry_and_persist put_text get_text to_char
    put_key get_key stringify parse unseal
set_run = refl

abbrev other : Text
other = text "OTHER"

canonical : canonicalize_wallet_pub_key wallet ≡ ok wallet
unfolding find_field get get_in set_in set_field is_num is_str truthy any_item encode_json
    decode_json text_eq is_space trim_start trim has_space normalize_salt hkdf_extract set_at
    block_input expand_parts write_parts hkdf_expand derive_key_hkdf non_empty_salt
    derive_kek_from_signature derive_vault_root_kek_from_signature derive_manifest_key is_blank
    aad_json aad_bytes hash_basis compute_integrity header_json payload_json encrypted_manifest
    integrity_field check_manifest_arguments encrypt_manifest_v1 aad_matches basis_of
    integrity_holds check_encrypted check_decrypted base64_property decrypt_manifest_v1
    wrap_aad_json kek_derivation_json wrap_json envelope_json build_manifest_wrap_envelope
    check_template check_envelope check_salt unwrap_aad unwrap_manifest_key set_item remove_item
    canonicalize_wallet_pub_key cluster_name scoped_key legacy_key build_manifest_storage_key
    cid_found migrate read_pointer get_manifest_cid set_manifest_cid remove_manifest_cid
    check_unlock check_params put_block add_bytes cat_bytes read_cid write_cid open_manifest
    store_manifest empty_manifest init_manifest load_current load_or_init_at load_manifest_or_init
    entry_id_of added_at_of entry_json check_entry same_entry entries_of merged_entries with_entry
    merge_entry ensure_manifest append_to_current append_entry_and_persist put_text get_text to_char
    put_key get_key stringify parse unseal
canonical = refl

canonical_other : canonicalize_wallet_pub_key other ≡ ok other
unfolding find_field get get_in set_in set_field is_num is_str truthy any_item encode_json
    decode_json text_eq is_space trim_start trim has_space normalize_salt hkdf_extract set_at
    block_input expand_parts write_parts hkdf_expand derive_key_hkdf non_empty_salt
    derive_kek_from_signature derive_vault_root_kek_from_signature derive_manifest_key is_blank
    aad_json aad_bytes hash_basis compute_integrity header_json payload_json encrypted_manifest
    integrity_field check_manifest_arguments encrypt_manifest_v1 aad_matches basis_of
    integrity_holds check_encrypted check_decrypted base64_property decrypt_manifest_v1
    wrap_aad_json kek_derivation_json wrap_json envelope_json build_manifest_wrap_envelope
    check_template check_envelope check_salt unwrap_aad unwrap_manifest_key set_item remove_item
    canonicalize_wallet_pub_key cluster_name scoped_key legacy_key build_manifest_storage_key
    cid_found migrate read_pointer get_manifest_cid set_manifest_cid remove_manifest_cid
    check_unlock check_params put_block add_bytes cat_bytes read_cid write_cid open_manifest
    store_manifest empty_manifest init_manifest load_current load_or_init_at load_manifest_or_init
    entry_id_of added_at_of entry_json check_entry same_entry entries_of merged_entries with_entry
    merge_entry ensure_manifest append_to_current append_entry_and_persist put_text get_text to_char
    put_key get_key stringify parse unseal
canonical_other = refl

other_differs : text_eq other wallet ≡ false
unfolding find_field get get_in set_in set_field is_num is_str truthy any_item encode_json
    decode_json text_eq is_space trim_start trim has_space normalize_salt hkdf_extract set_at
    block_input expand_parts write_parts hkdf_expand derive_key_hkdf non_empty_salt
    derive_kek_from_signature derive_vault_root_kek_from_signature derive_manifest_key is_blank
    aad_json aad_bytes hash_basis compute_integrity header_json payload_json encrypted_manifest
    integrity_field check_manifest_arguments encrypt_manifest_v1 aad_matches basis_of
    integrity_holds check_encrypted check_decrypted base64_property decrypt_manifest_v1
    wrap_aad_json kek_derivation_json wrap_json envelope_json build_manifest_wrap_envelope
    check_template check_envelope check_salt unwrap_aad unwrap_manifest_key set_item remove_item
    canonicalize_wallet_pub_key cluster_name scoped_key legacy_key build_manifest_storage_key
    cid_found migrate read_pointer get_manifest_cid set_manifest_cid remove_manifest_cid
    check_unlock check_params put_block add_bytes cat_bytes read_cid write_cid open_manifest
    store_manifest empty_manifest init_manifest load_current load_or_init_at load_manifest_or_init
    entry_id_of added_at_of entry_json check_entry same_entry entries_of merged_entries with_entry
    merge_entry ensure_manifest append_to_current append_entry_and_persist put_text get_text to_char
    put_key get_key stringify parse unseal
other_differs = refl

no_clash : text_eq other (cluster_name none ++ (text ":" ++ wallet)) ≡ false
unfolding find_field get get_in set_in set_field is_num is_str truthy any_item encode_json
    decode_json text_eq is_space trim_start trim has_space normalize_salt hkdf_extract set_at
    block_input expand_parts write_parts hkdf_expand derive_key_hkdf non_empty_salt
    derive_kek_from_signature derive_vault_root_kek_from_signature derive_manifest_key is_blank
    aad_json aad_bytes hash_basis compute_integrity header_json payload_json encrypted_manifest
    integrity_field check_manifest_arguments encrypt_manifest_v1 aad_matches basis_of
    integrity_holds check_encrypted check_decrypted base64_property decrypt_manifest_v1
    wrap_aad_json kek_derivation_json wrap_json envelope_json build_manifest_wrap_envelope
    check_template check_envelope check_salt unwrap_aad unwrap_manifest_key set_item remove_item
    canonicalize_wallet_pub_key cluster_name scoped_key legacy_key build_manifest_storage_key
    cid_found migrate read_pointer get_manifest_cid set_manifest_cid remove_manifest_cid
    check_unlock check_params put_block add_bytes cat_bytes read_cid write_cid open_manifest
    store_manifest empty_manifest init_manifest load_current load_or_init_at load_manifest_or_init
    entry_id_of added_at_of entry_json check_entry same_entry entries_of merged_entries with_entry
    merge_entry ensure_manifest append_to_current append_entry_and_persist put_text get_text to_char
    put_key get_key stringify parse unseal
no_clash = refl

get-set_other_example :
    (get_manifest_cid none other after_set).0 ≡ (get_manifest_cid none other storage).0
get-set_other_example =
    get-set_other none wallet storage other (text " new ") wallet other after_set canonical
      canonical_other (differ _ _ other_differs) (differ _ _ no_clash) set_run

not_scoped : storage.items (scoped_key none wallet) ≡ none
unfolding find_field get get_in set_in set_field is_num is_str truthy any_item encode_json
    decode_json text_eq is_space trim_start trim has_space normalize_salt hkdf_extract set_at
    block_input expand_parts write_parts hkdf_expand derive_key_hkdf non_empty_salt
    derive_kek_from_signature derive_vault_root_kek_from_signature derive_manifest_key is_blank
    aad_json aad_bytes hash_basis compute_integrity header_json payload_json encrypted_manifest
    integrity_field check_manifest_arguments encrypt_manifest_v1 aad_matches basis_of
    integrity_holds check_encrypted check_decrypted base64_property decrypt_manifest_v1
    wrap_aad_json kek_derivation_json wrap_json envelope_json build_manifest_wrap_envelope
    check_template check_envelope check_salt unwrap_aad unwrap_manifest_key set_item remove_item
    canonicalize_wallet_pub_key cluster_name scoped_key legacy_key build_manifest_storage_key
    cid_found migrate read_pointer get_manifest_cid set_manifest_cid remove_manifest_cid
    check_unlock check_params put_block add_bytes cat_bytes read_cid write_cid open_manifest
    store_manifest empty_manifest init_manifest load_current load_or_init_at load_manifest_or_init
    entry_id_of added_at_of entry_json check_entry same_entry entries_of merged_entries with_entry
    merge_entry ensure_manifest append_to_current append_entry_and_persist put_text get_text to_char
    put_key get_key stringify parse unseal
not_scoped = refl

legacy_found : storage.items (legacy_key wallet) ≡ some (text " old ")
unfolding find_field get get_in set_in set_field is_num is_str truthy any_item encode_json
    decode_json text_eq is_space trim_start trim has_space normalize_salt hkdf_extract set_at
    block_input expand_parts write_parts hkdf_expand derive_key_hkdf non_empty_salt
    derive_kek_from_signature derive_vault_root_kek_from_signature derive_manifest_key is_blank
    aad_json aad_bytes hash_basis compute_integrity header_json payload_json encrypted_manifest
    integrity_field check_manifest_arguments encrypt_manifest_v1 aad_matches basis_of
    integrity_holds check_encrypted check_decrypted base64_property decrypt_manifest_v1
    wrap_aad_json kek_derivation_json wrap_json envelope_json build_manifest_wrap_envelope
    check_template check_envelope check_salt unwrap_aad unwrap_manifest_key set_item remove_item
    canonicalize_wallet_pub_key cluster_name scoped_key legacy_key build_manifest_storage_key
    cid_found migrate read_pointer get_manifest_cid set_manifest_cid remove_manifest_cid
    check_unlock check_params put_block add_bytes cat_bytes read_cid write_cid open_manifest
    store_manifest empty_manifest init_manifest load_current load_or_init_at load_manifest_or_init
    entry_id_of added_at_of entry_json check_entry same_entry entries_of merged_entries with_entry
    merge_entry ensure_manifest append_to_current append_entry_and_persist put_text get_text to_char
    put_key get_key stringify parse unseal
legacy_found = refl

not_blank : is_empty (trim (text " old ")) ≡ false
unfolding find_field get get_in set_in set_field is_num is_str truthy any_item encode_json
    decode_json text_eq is_space trim_start trim has_space normalize_salt hkdf_extract set_at
    block_input expand_parts write_parts hkdf_expand derive_key_hkdf non_empty_salt
    derive_kek_from_signature derive_vault_root_kek_from_signature derive_manifest_key is_blank
    aad_json aad_bytes hash_basis compute_integrity header_json payload_json encrypted_manifest
    integrity_field check_manifest_arguments encrypt_manifest_v1 aad_matches basis_of
    integrity_holds check_encrypted check_decrypted base64_property decrypt_manifest_v1
    wrap_aad_json kek_derivation_json wrap_json envelope_json build_manifest_wrap_envelope
    check_template check_envelope check_salt unwrap_aad unwrap_manifest_key set_item remove_item
    canonicalize_wallet_pub_key cluster_name scoped_key legacy_key build_manifest_storage_key
    cid_found migrate read_pointer get_manifest_cid set_manifest_cid remove_manifest_cid
    check_unlock check_params put_block add_bytes cat_bytes read_cid write_cid open_manifest
    store_manifest empty_manifest init_manifest load_current load_or_init_at load_manifest_or_init
    entry_id_of added_at_of entry_json check_entry same_entry entries_of merged_entries with_entry
    merge_entry ensure_manifest append_to_current append_entry_and_persist put_text get_text to_char
    put_key get_key stringify parse unseal
not_blank = refl

keys_differ : text_eq (scoped_key none wallet) (legacy_key wallet) ≡ false
unfolding find_field get get_in set_in set_field is_num is_str truthy any_item encode_json
    decode_json text_eq is_space trim_start trim has_space normalize_salt hkdf_extract set_at
    block_input expand_parts write_parts hkdf_expand derive_key_hkdf non_empty_salt
    derive_kek_from_signature derive_vault_root_kek_from_signature derive_manifest_key is_blank
    aad_json aad_bytes hash_basis compute_integrity header_json payload_json encrypted_manifest
    integrity_field check_manifest_arguments encrypt_manifest_v1 aad_matches basis_of
    integrity_holds check_encrypted check_decrypted base64_property decrypt_manifest_v1
    wrap_aad_json kek_derivation_json wrap_json envelope_json build_manifest_wrap_envelope
    check_template check_envelope check_salt unwrap_aad unwrap_manifest_key set_item remove_item
    canonicalize_wallet_pub_key cluster_name scoped_key legacy_key build_manifest_storage_key
    cid_found migrate read_pointer get_manifest_cid set_manifest_cid remove_manifest_cid
    check_unlock check_params put_block add_bytes cat_bytes read_cid write_cid open_manifest
    store_manifest empty_manifest init_manifest load_current load_or_init_at load_manifest_or_init
    entry_id_of added_at_of entry_json check_entry same_entry entries_of merged_entries with_entry
    merge_entry ensure_manifest append_to_current append_entry_and_persist put_text get_text to_char
    put_key get_key stringify parse unseal
keys_differ = refl

get-remove_legacy_example :
    ((remove_manifest_cid none wallet storage).1.items (scoped_key none wallet) ≡ none)
    × ((remove_manifest_cid none wallet storage).1.items (legacy_key wallet) ≡ some (text " old "))
    × ((get_manifest_cid none wallet (remove_manifest_cid none wallet storage).1).0
        ≡ ok (some (trim (text " old "))))
    × ((get_manifest_cid none wallet (remove_manifest_cid none wallet storage).1).1.items
          (scoped_key none wallet)
        ≡ some (text " old "))
get-remove_legacy_example =
    get-remove_legacy none wallet storage wallet (text " old ") refl canonical keys_differ
      legacy_found not_blank
