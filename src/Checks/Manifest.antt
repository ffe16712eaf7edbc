-- ===== src/Checks/Manifest.antt =====
-- The manifest service on the sample host: a load that creates, an append, and the loads after them.
use sovereign_jedi.Json.{
  find_field, get, get_in, set_in, set_field, is_num, is_str, truthy, any_item, Json, nil, arr, num,
  obj, field, end,
}
use sovereign_jedi.Platform.{encode_json, decode_json, Bytes}
use sovereign_jedi.Prelude.{text_eq, is_space, trim_start, trim, has_space}
use sovereign_jedi.Crypto.Hkdf.{
  normalize_salt, hkdf_extract, set_at, block_input, expand_parts, write_parts, hkdf_expand,
  derive_key_hkdf,
}
use sovereign_jedi.Crypto.Kek.{
  non_empty_salt, derive_kek_from_signature, derive_vault_root_kek_from_signature,
}
use sovereign_jedi.Manifest.Cipher.{
  derive_manifest_key, is_blank, aad_json, aad_bytes, hash_basis, compute_integrity, header_json,
  payload_json, encrypted_manifest, integrity_field, check_manifest_arguments, encrypt_manifest_v1,
  aad_matches, basis_of, integrity_holds, check_encrypted, check_decrypted, base64_property,
  decrypt_manifest_v1,
}
use sovereign_jedi.Manifest.Wrap.{
  wrap_aad_json, kek_derivation_json, wrap_json, envelope_json, build_manifest_wrap_envelope,
  check_template, check_envelope, check_salt, unwrap_aad, unwrap_manifest_key,
}
use sovereign_jedi.Manifest.Pointer.{
  set_item, remove_item, canonicalize_wallet_pub_key, cluster_name, scoped_key, legacy_key,
  build_manifest_storage_key, cid_found, migrate, read_pointer, get_manifest_cid, set_manifest_cid,
  remove_manifest_cid,
}
use sovereign_jedi.Manifest.Service.{
  check_unlock, check_params, put_block, add_bytes, cat_bytes, read_cid, write_cid, open_manifest,
  store_manifest, empty_manifest, init_manifest, load_current, load_or_init_at,
  load_manifest_or_init, World, Host, Draws, Params, LoadManifestResult, loaded, created,
  restore_is_required,
}
use sovereign_jedi.Manifest.Service.Entry.{
  entry_id_of, added_at_of, entry_json, check_entry, same_entry, entries_of, merged_entries,
  with_entry, merge_entry, NewEntry, Stamp,
}
use sovereign_jedi.Manifest.Service.Append.{
  ensure_manifest, append_to_current, append_entry_and_persist,
}
use sovereign_jedi.Checks.Codec.{put_text, get_text, to_char, put_key, get_key}
use sovereign_jedi.Checks.JsonCodec.{stringify, parse}
use sovereign_jedi.Checks.Samples.{unseal, host, host-LawfulHost}
use sovereign_jedi.Prelude.{
  ◌≡◌, ◌⊎◌, refl, Bool, true, false, none, some, Text, text, [], ◌∷◌, Outcome, ok, err, replicate,
}
use sovereign_jedi.Prelude.Methods.{◌>>=◌, ◌>>◌}
use sovereign_jedi.Crypto.Unlock.{BuildUnlockResult}
use sovereign_jedi.Manifest.Errors.{ManifestError, blank_file_cid, ipfs_failed}
use sovereign_jedi.Manifest.Service.Entry.Merge.{Merged, merged_entries-twice}
use sovereign_jedi.Manifest.Service.Loads.{load-created}
use sovereign_jedi.Manifest.Service.Restore.{needs_restore, asks_restore, load-asks}
use sovereign_jedi.Manifest.Service.Append.Reload.{load-append, append-entries}
use sovereign_jedi.Manifest.Service.Append.Failure.{append-err, append-init_kept}

abbrev pub wallet : Text
wallet = text "WALLET"

abbrev pub signature : Bytes
signature = 1 ∷ (2 ∷ (3 ∷ []))

abbrev pub unlock : BuildUnlockResult
unlock = record {
  canonical_object = record {
    origin = text "o";
    wallet = wallet;
    nonce = text "n";
    issued_at = text "i";
    expires_at = text "e";
    vault_id = text "v";
  };
  message_to_sign = text "sign me";
}

abbrev pub params : Params
params = record {
  wallet_pub_key = text " WALLET ";
  signature_bytes = signature;
  unlock = some unlock;
  on_chain_latest_manifest_cid = none;
}

abbrev pub draws : Draws
draws = record { salt = replicate 16 7; wrap_nonce = replicate 24 8; nonce = replicate 24 9 }

abbrev pub empty_world : World
empty_world = record {
  pointers = record { items = λ k. none; can_remove = true };
  blocks = λ c. none;
}

abbrev pub now_iso : Text
now_iso = text "2026-01-01"

abbrev pub first_load : Outcome ManifestError LoadManifestResult × World
first_load = load_manifest_or_init host params now_iso draws empty_world

abbrev pub is_created : Outcome ManifestError LoadManifestResult → Bool
is_created (ok (created m cid)) = true
is_created _ = false

abbrev pub manifest_of : Outcome ManifestError LoadManifestResult → Json
manifest_of (ok (created m cid)) = m
manifest_of (ok (loaded m cid)) = m
manifest_of _ = arr nil

abbrev pub cid_of_load : Outcome ManifestError LoadManifestResult → Text
cid_of_load (ok (created m cid)) = cid
cid_of_load (ok (loaded m cid)) = cid
cid_of_load _ = []

pub is_created-eq :
    (r : Outcome ManifestError LoadManifestResult × World)
    → is_created r.0 ≡ true
    → r ≡ (ok (created (manifest_of r.0) (cid_of_load r.0)), r.1)
is_created-eq (ok (created m cid), w) h = refl
is_created-eq (ok (loaded m cid), w) h = cc
is_created-eq (ok restore_is_required, w) h = cc
is_created-eq (err e, w) h = cc

pub created_run : is_created first_load.0 ≡ true
unfolding find_field get get_in set_in set_field is_num is_str truthy any_item encode_json
    decode_json text_eq is_space trim_start trim has_space normalize_salt hkdf_extract set_at
    block_input expand_parts write_parts hkdf_expand derive_key_hkdf non_empty_salt
    derive_kek_from_signature derive_vault_root_kek_from_signature derive_manifest_key is_blank
    aad_json aad_bytes hash_basis compute_integrity header_json payload_json encrypted_manifest
    integrity_field check_manifest_arguments encrypt_manifest_v1 aad_matches basis_of
    integrity_holds check_encrypted check_decrypted base64_property decrypt_manifest_v1
    wrap_aad_json kek_derivation_json wrap_json envelope_json build_manifest_wrap_envelope
    check_template check_envelope check_salt unwrap_aad unwrap_manifest_key set_item remove_item
    canonicalize_wallet_pub_key cluster_name scoped_key legacy_key build_manifest_storage_key
    cid_found migrate read_pointer get_manifest_cid set_manifest_cid remove_manifest_cid
    check_unlock check_params put_block add_bytes cat_bytes read_cid write_cid open_manifest
    store_manifest empty_manifest init_manifest load_current load_or_init_at load_manifest_or_init
    entry_id_of added_at_of entry_json check_entry same_entry entries_of merged_entries with_entry
    merge_entry ensure_manifest append_to_current append_entry_and_persist put_text get_text to_char
    put_key get_key stringify parse unseal ◌>>=◌ ◌>>◌
created_run = refl

load-created_example :
    load_manifest_or_init host params (text "later") draws first_load.1
    ≡ (ok (loaded (manifest_of first_load.0) (cid_of_load first_load.0)), first_load.1)
load-created_example =
    load-created host host-LawfulHost params now_iso (text "later") (cid_of_load first_load.0)
      (manifest_of first_load.0) draws draws empty_world first_load.1
      (is_created-eq first_load created_run) refl

abbrev elsewhere : Params
elsewhere = record params { on_chain_latest_manifest_cid = some (text "bafy") }

elsewhere_checked : check_params elsewhere ≡ ok wallet
unfolding find_field get get_in set_in set_field is_num is_str truthy any_item encode_json
    decode_json text_eq is_space trim_start trim has_space normalize_salt hkdf_extract set_at
    block_input expand_parts write_parts hkdf_expand derive_key_hkdf non_empty_salt
    derive_kek_from_signature derive_vault_root_kek_from_signature derive_manifest_key is_blank
    aad_json aad_bytes hash_basis compute_integrity header_json payload_json encrypted_manifest
    integrity_field check_manifest_arguments encrypt_manifest_v1 aad_matches basis_of
    integrity_holds check_encrypted check_decrypted base64_property decrypt_manifest_v1
    wrap_aad_json kek_derivation_json wrap_json envelope_json build_manifest_wrap_envelope
    check_template check_envelope check_salt unwrap_aad unwrap_manifest_key set_item remove_item
    canonicalize_wallet_pub_key cluster_name scoped_key legacy_key build_manifest_storage_key
    cid_found migrate read_pointer get_manifest_cid set_manifest_cid remove_manifest_cid
    check_unlock check_params put_block add_bytes cat_bytes read_cid write_cid open_manifest
    store_manifest empty_manifest init_manifest load_current load_or_init_at load_manifest_or_init
    entry_id_of added_at_of entry_json check_entry same_entry entries_of merged_entries with_entry
    merge_entry ensure_manifest append_to_current append_entry_and_persist put_text get_text to_char
    put_key get_key stringify parse unseal ◌>>=◌ ◌>>◌
elsewhere_checked = refl

pub no_pointer : read_cid host wallet empty_world ≡ (ok none, empty_world)
unfolding find_field get get_in set_in set_field is_num is_str truthy any_item encode_json
    decode_json text_eq is_space trim_start trim has_space normalize_salt hkdf_extract set_at
    block_input expand_parts write_parts hkdf_expand derive_key_hkdf non_empty_salt
    derive_kek_from_signature derive_vault_root_kek_from_signature derive_manifest_key is_blank
    aad_json aad_bytes hash_basis compute_integrity header_json payload_json encrypted_manifest
    integrity_field check_manifest_arguments encrypt_manifest_v1 aad_matches basis_of
    integrity_holds check_encrypted check_decrypted base64_property decrypt_manifest_v1
    wrap_aad_json kek_derivation_json wrap_json envelope_json build_manifest_wrap_envelope
    check_template check_envelope check_salt unwrap_aad unwrap_manifest_key set_item remove_item
    canonicalize_wallet_pub_key cluster_name scoped_key legacy_key build_manifest_storage_key
    cid_found migrate read_pointer get_manifest_cid set_manifest_cid remove_manifest_cid
    check_unlock check_params put_block add_bytes cat_bytes read_cid write_cid open_manifest
    store_manifest empty_manifest init_manifest load_current load_or_init_at load_manifest_or_init
    entry_id_of added_at_of entry_json check_entry same_entry entries_of merged_entries with_entry
    merge_entry ensure_manifest append_to_current append_entry_and_persist put_text get_text to_char
    put_key get_key stringify parse unseal ◌>>=◌ ◌>>◌
no_pointer = refl

wallet_canonical : canonicalize_wallet_pub_key wallet ≡ ok wallet
unfolding find_field get get_in set_in set_field is_num is_str truthy any_item encode_json
    decode_json text_eq is_space trim_start trim has_space normalize_salt hkdf_extract set_at
    block_input expand_parts write_parts hkdf_expand derive_key_hkdf non_empty_salt
    derive_kek_from_signature derive_vault_root_kek_from_signature derive_manifest_key is_blank
    aad_json aad_bytes hash_basis compute_integrity header_json payload_json encrypted_manifest
    integrity_field check_manifest_arguments encrypt_manifest_v1 aad_matches basis_of
    integrity_holds check_encrypted check_decrypted base64_property decrypt_manifest_v1
    wrap_aad_json kek_derivation_json wrap_json envelope_json build_manifest_wrap_envelope
    check_template check_envelope check_salt unwrap_aad unwrap_manifest_key set_item remove_item
    canonicalize_wallet_pub_key cluster_name scoped_key legacy_key build_manifest_storage_key
    cid_found migrate read_pointer get_manifest_cid set_manifest_cid remove_manifest_cid
    check_unlock check_params put_block add_bytes cat_bytes read_cid write_cid open_manifest
    store_manifest empty_manifest init_manifest load_current load_or_init_at load_manifest_or_init
    entry_id_of added_at_of entry_json check_entry same_entry entries_of merged_entries with_entry
    merge_entry ensure_manifest append_to_current append_entry_and_persist put_text get_text to_char
    put_key get_key stringify parse unseal ◌>>=◌ ◌>>◌
wallet_canonical = refl

load-asks_example :
    ((needs_restore host elsewhere wallet now_iso draws wallet wallet_canonical empty_world ≡ true)
      × (load_manifest_or_init host elsewhere now_iso draws empty_world
          ≡ (ok restore_is_required, empty_world)))
    ⊎ ((needs_restore host elsewhere wallet now_iso draws wallet wallet_canonical empty_world
          ≡ false)
        × (asks_restore (load_manifest_or_init host elsewhere now_iso draws empty_world).0 ≡ false))
load-asks_example =
    load-asks host elsewhere wallet now_iso draws wallet wallet_canonical empty_world
      elsewhere_checked

-- an append in the world that the first load left
abbrev pub entry : NewEntry
entry = record {
  entry_id = none;
  file_cid = text "file";
  added_at = none;
  envelope = some (obj (field "k" (num 1) end));
  original_file_name = none;
  mime_type = none;
  file_size = some 3;
  file_integrity_sha256_b64 = none;
}

abbrev pub stamp : Stamp
stamp = record {
  uuid = text "uuid";
  created_iso = now_iso;
  now_iso = text "2026-01-02";
  updated_iso = text "2026-01-03";
}

abbrev first_append : Outcome ManifestError (Json × Text) × World
first_append = append_entry_and_persist host params entry stamp draws draws first_load.1

abbrev pub is_ok : {A : Type 0} → Outcome ManifestError A → Bool
is_ok (ok a) = true
is_ok (err e) = false

abbrev pub result_of : Outcome ManifestError (Json × Text) → Json × Text
result_of (ok r) = r
result_of (err e) = (arr nil, [])

pub is_ok-eq :
    (r : Outcome ManifestError (Json × Text) × World)
    → is_ok r.0 ≡ true
    → r ≡ (ok ((result_of r.0).0, (result_of r.0).1), r.1)
is_ok-eq (ok (m, cid), w) h = refl
is_ok-eq (err e, w) h = cc

append_run : is_ok first_append.0 ≡ true
unfolding find_field get get_in set_in set_field is_num is_str truthy any_item encode_json
    decode_json text_eq is_space trim_start trim has_space normalize_salt hkdf_extract set_at
    block_input expand_parts write_parts hkdf_expand derive_key_hkdf non_empty_salt
    derive_kek_from_signature derive_vault_root_kek_from_signature derive_manifest_key is_blank
    aad_json aad_bytes hash_basis compute_integrity header_json payload_json encrypted_manifest
    integrity_field check_manifest_arguments encrypt_manifest_v1 aad_matches basis_of
    integrity_holds check_encrypted check_decrypted base64_property decrypt_manifest_v1
    wrap_aad_json kek_derivation_json wrap_json envelope_json build_manifest_wrap_envelope
    check_template check_envelope check_salt unwrap_aad unwrap_manifest_key set_item remove_item
    canonicalize_wallet_pub_key cluster_name scoped_key legacy_key build_manifest_storage_key
    cid_found migrate read_pointer get_manifest_cid set_manifest_cid remove_manifest_cid
    check_unlock check_params put_block add_bytes cat_bytes read_cid write_cid open_manifest
    store_manifest empty_manifest init_manifest load_current load_or_init_at load_manifest_or_init
    entry_id_of added_at_of entry_json check_entry same_entry entries_of merged_entries with_entry
    merge_entry ensure_manifest append_to_current append_entry_and_persist put_text get_text to_char
    put_key get_key stringify parse unseal ◌>>=◌ ◌>>◌
append_run = refl

load-append_example :
    load_manifest_or_init host params (text "later") draws first_append.1
    ≡ (ok (loaded (result_of first_append.0).0 (result_of first_append.0).1), first_append.1)
load-append_example =
    load-append host host-LawfulHost params entry stamp (text "later") (result_of first_append.0).1
      (result_of first_append.0).0 draws draws draws first_load.1 first_append.1
      (is_ok-eq first_append append_run) refl

pub params_checked : check_params params ≡ ok wallet
unfolding find_field get get_in set_in set_field is_num is_str truthy any_item encode_json
    decode_json text_eq is_space trim_start trim has_space normalize_salt hkdf_extract set_at
    block_input expand_parts write_parts hkdf_expand derive_key_hkdf non_empty_salt
    derive_kek_from_signature derive_vault_root_kek_from_signature derive_manifest_key is_blank
    aad_json aad_bytes hash_basis compute_integrity header_json payload_json encrypted_manifest
    integrity_field check_manifest_arguments encrypt_manifest_v1 aad_matches basis_of
    integrity_holds check_encrypted check_decrypted base64_property decrypt_manifest_v1
    wrap_aad_json kek_derivation_json wrap_json envelope_json build_manifest_wrap_envelope
    check_template check_envelope check_salt unwrap_aad unwrap_manifest_key set_item remove_item
    canonicalize_wallet_pub_key cluster_name scoped_key legacy_key build_manifest_storage_key
    cid_found migrate read_pointer get_manifest_cid set_manifest_cid remove_manifest_cid
    check_unlock check_params put_block add_bytes cat_bytes read_cid write_cid open_manifest
    store_manifest empty_manifest init_manifest load_current load_or_init_at load_manifest_or_init
    entry_id_of added_at_of entry_json check_entry same_entry entries_of merged_entries with_entry
    merge_entry ensure_manifest append_to_current append_entry_and_persist put_text get_text to_char
    put_key get_key stringify parse unseal ◌>>=◌ ◌>>◌
params_checked = refl

pub has_pointer :
    read_cid host wallet first_load.1 ≡ (ok (some (cid_of_load first_load.0)), first_load.1)
unfolding find_field get get_in set_in set_field is_num is_str truthy any_item encode_json
    decode_json text_eq is_space trim_start trim has_space normalize_salt hkdf_extract set_at
    block_input expand_parts write_parts hkdf_expand derive_key_hkdf non_empty_salt
    derive_kek_from_signature derive_vault_root_kek_from_signature derive_manifest_key is_blank
    aad_json aad_bytes hash_basis compute_integrity header_json payload_json encrypted_manifest
    integrity_field check_manifest_arguments encrypt_manifest_v1 aad_matches basis_of
    integrity_holds check_encrypted check_decrypted base64_property decrypt_manifest_v1
    wrap_aad_json kek_derivation_json wrap_json envelope_json build_manifest_wrap_envelope
    check_template check_envelope check_salt unwrap_aad unwrap_manifest_key set_item remove_item
    canonicalize_wallet_pub_key cluster_name scoped_key legacy_key build_manifest_storage_key
    cid_found migrate read_pointer get_manifest_cid set_manifest_cid remove_manifest_cid
    check_unlock check_params put_block add_bytes cat_bytes read_cid write_cid open_manifest
    store_manifest empty_manifest init_manifest load_current load_or_init_at load_manifest_or_init
    entry_id_of added_at_of entry_json check_entry same_entry entries_of merged_entries with_entry
    merge_entry ensure_manifest append_to_current append_entry_and_persist put_text get_text to_char
    put_key get_key stringify parse unseal ◌>>=◌ ◌>>◌
has_pointer = refl

abbrev opened : Outcome ManifestError (Json × Bytes) × World
opened = open_manifest host wallet signature (cid_of_load first_load.0) first_load.1

abbrev key_of : Outcome ManifestError (Json × Bytes) → Bytes
key_of (ok r) = r.1
key_of (err e) = []

opened_run : opened ≡ (ok (manifest_of first_load.0, key_of opened.0), first_load.1)
unfolding find_field get get_in set_in set_field is_num is_str truthy any_item encode_json
    decode_json text_eq is_space trim_start trim has_space normalize_salt hkdf_extract set_at
    block_input expand_parts write_parts hkdf_expand derive_key_hkdf non_empty_salt
    derive_kek_from_signature derive_vault_root_kek_from_signature derive_manifest_key is_blank
    aad_json aad_bytes hash_basis compute_integrity header_json payload_json encrypted_manifest
    integrity_field check_manifest_arguments encrypt_manifest_v1 aad_matches basis_of
    integrity_holds check_encrypted check_decrypted base64_property decrypt_manifest_v1
    wrap_aad_json kek_derivation_json wrap_json envelope_json build_manifest_wrap_envelope
    check_template check_envelope check_salt unwrap_aad unwrap_manifest_key set_item remove_item
    canonicalize_wallet_pub_key cluster_name scoped_key legacy_key build_manifest_storage_key
    cid_found migrate read_pointer get_manifest_cid set_manifest_cid remove_manifest_cid
    check_unlock check_params put_block add_bytes cat_bytes read_cid write_cid open_manifest
    store_manifest empty_manifest init_manifest load_current load_or_init_at load_manifest_or_init
    entry_id_of added_at_of entry_json check_entry same_entry entries_of merged_entries with_entry
    merge_entry ensure_manifest append_to_current append_entry_and_persist put_text get_text to_char
    put_key get_key stringify parse unseal ◌>>=◌ ◌>>◌
opened_run = refl

append-entries_example : Merged entry stamp (manifest_of first_load.0) (result_of first_append.0).0
append-entries_example =
    append-entries host params entry stamp wallet (cid_of_load first_load.0)
      (manifest_of first_load.0) (result_of first_append.0).0 (key_of opened.0)
      (result_of first_append.0).1 draws draws first_load.1 first_append.1 params_checked
      has_pointer opened_run (is_ok-eq first_append append_run)

-- an entry that is refused
abbrev blank_entry : NewEntry
blank_entry = record entry { file_cid = text " " }

abbrev full_host : Host
full_host = record host { accepts = λ b. false }

refused_run :
    append_entry_and_persist full_host params entry stamp draws draws first_load.1
    ≡ (err ipfs_failed, first_load.1)
unfolding find_field get get_in set_in set_field is_num is_str truthy any_item encode_json
    decode_json text_eq is_space trim_start trim has_space normalize_salt hkdf_extract set_at
    block_input expand_parts write_parts hkdf_expand derive_key_hkdf non_empty_salt
    derive_kek_from_signature derive_vault_root_kek_from_signature derive_manifest_key is_blank
    aad_json aad_bytes hash_basis compute_integrity header_json payload_json encrypted_manifest
    integrity_field check_manifest_arguments encrypt_manifest_v1 aad_matches basis_of
    integrity_holds check_encrypted check_decrypted base64_property decrypt_manifest_v1
    wrap_aad_json kek_derivation_json wrap_json envelope_json build_manifest_wrap_envelope
    check_template check_envelope check_salt unwrap_aad unwrap_manifest_key set_item remove_item
    canonicalize_wallet_pub_key cluster_name scoped_key legacy_key build_manifest_storage_key
    cid_found migrate read_pointer get_manifest_cid set_manifest_cid remove_manifest_cid
    check_unlock check_params put_block add_bytes cat_bytes read_cid write_cid open_manifest
    store_manifest empty_manifest init_manifest load_current load_or_init_at load_manifest_or_init
    entry_id_of added_at_of entry_json check_entry same_entry entries_of merged_entries with_entry
    merge_entry ensure_manifest append_to_current append_entry_and_persist put_text get_text to_char
    put_key get_key stringify parse unseal ◌>>=◌ ◌>>◌
refused_run = refl

has_pointer_full :
    read_cid full_host wallet first_load.1 ≡ (ok (some (cid_of_load first_load.0)), first_load.1)
unfolding find_field get get_in set_in set_field is_num is_str truthy any_item encode_json
    decode_json text_eq is_space trim_start trim has_space normalize_salt hkdf_extract set_at
    block_input expand_parts write_parts hkdf_expand derive_key_hkdf non_empty_salt
    derive_kek_from_signature derive_vault_root_kek_from_signature derive_manifest_key is_blank
    aad_json aad_bytes hash_basis compute_integrity header_json payload_json encrypted_manifest
    integrity_field check_manifest_arguments encrypt_manifest_v1 aad_matches basis_of
    integrity_holds check_encrypted check_decrypted base64_property decrypt_manifest_v1
    wrap_aad_json kek_derivation_json wrap_json envelope_json build_manifest_wrap_envelope
    check_template check_envelope check_salt unwrap_aad unwrap_manifest_key set_item remove_item
    canonicalize_wallet_pub_key cluster_name scoped_key legacy_key build_manifest_storage_key
    cid_found migrate read_pointer get_manifest_cid set_manifest_cid remove_manifest_cid
    check_unlock check_params put_block add_bytes cat_bytes read_cid write_cid open_manifest
    store_manifest empty_manifest init_manifest load_current load_or_init_at load_manifest_or_init
    entry_id_of added_at_of entry_json check_entry same_entry entries_of merged_entries with_entry
    merge_entry ensure_manifest append_to_current append_entry_and_persist put_text get_text to_char
    put_key get_key stringify parse unseal ◌>>=◌ ◌>>◌
has_pointer_full = refl

append-err_example : first_load.1.pointers ≡ first_load.1.pointers
append-err_example =
    append-err full_host params entry stamp wallet (cid_of_load first_load.0) draws draws
      ipfs_failed first_load.1 first_load.1 params_checked has_pointer_full refused_run

abbrev trimmed : Params
trimmed = record params { wallet_pub_key = wallet }

abbrev init_load : Outcome ManifestError LoadManifestResult × World
init_load = load_manifest_or_init host trimmed now_iso draws empty_world

init_run : is_created init_load.0 ≡ true
unfolding find_field get get_in set_in set_field is_num is_str truthy any_item encode_json
    decode_json text_eq is_space trim_start trim has_space normalize_salt hkdf_extract set_at
    block_input expand_parts write_parts hkdf_expand derive_key_hkdf non_empty_salt
    derive_kek_from_signature derive_vault_root_kek_from_signature derive_manifest_key is_blank
    aad_json aad_bytes hash_basis compute_integrity header_json payload_json encrypted_manifest
    integrity_field check_manifest_arguments encrypt_manifest_v1 aad_matches basis_of
    integrity_holds check_encrypted check_decrypted base64_property decrypt_manifest_v1
    wrap_aad_json kek_derivation_json wrap_json envelope_json build_manifest_wrap_envelope
    check_template check_envelope check_salt unwrap_aad unwrap_manifest_key set_item remove_item
    canonicalize_wallet_pub_key cluster_name scoped_key legacy_key build_manifest_storage_key
    cid_found migrate read_pointer get_manifest_cid set_manifest_cid remove_manifest_cid
    check_unlock check_params put_block add_bytes cat_bytes read_cid write_cid open_manifest
    store_manifest empty_manifest init_manifest load_current load_or_init_at load_manifest_or_init
    entry_id_of added_at_of entry_json check_entry same_entry entries_of merged_entries with_entry
    merge_entry ensure_manifest append_to_current append_entry_and_persist put_text get_text to_char
    put_key get_key stringify parse unseal ◌>>=◌ ◌>>◌
init_run = refl

blank : is_blank blank_entry.file_cid ≡ true
unfolding find_field get get_in set_in set_field is_num is_str truthy any_item encode_json
    decode_json text_eq is_space trim_start trim has_space normalize_salt hkdf_extract set_at
    block_input expand_parts write_parts hkdf_expand derive_key_hkdf non_empty_salt
    derive_kek_from_signature derive_vault_root_kek_from_signature derive_manifest_key is_blank
    aad_json aad_bytes hash_basis compute_integrity header_json payload_json encrypted_manifest
    integrity_field check_manifest_arguments encrypt_manifest_v1 aad_matches basis_of
    integrity_holds check_encrypted check_decrypted base64_property decrypt_manifest_v1
    wrap_aad_json kek_derivation_json wrap_json envelope_json build_manifest_wrap_envelope
    check_template check_envelope check_salt unwrap_aad unwrap_manifest_key set_item remove_item
    canonicalize_wallet_pub_key cluster_name scoped_key legacy_key build_manifest_storage_key
    cid_found migrate read_pointer get_manifest_cid set_manifest_cid remove_manifest_cid
    check_unlock check_params put_block add_bytes cat_bytes read_cid write_cid open_manifest
    store_manifest empty_manifest init_manifest load_current load_or_init_at load_manifest_or_init
    entry_id_of added_at_of entry_json check_entry same_entry entries_of merged_entries with_entry
    merge_entry ensure_manifest append_to_current append_entry_and_persist put_text get_text to_char
    put_key get_key stringify parse unseal ◌>>=◌ ◌>>◌
blank = refl

append-init_kept_example :
    (append_entry_and_persist host params blank_entry stamp draws draws empty_world
      ≡ (err blank_file_cid, init_load.1))
    × (read_cid host wallet init_load.1 ≡ (ok (some (cid_of_load init_load.0)), init_load.1))
append-init_kept_example =
    append-init_kept host host-LawfulHost params blank_entry stamp wallet (cid_of_load init_load.0)
      (manifest_of init_load.0) draws draws empty_world init_load.1 params_checked no_pointer
      (is_created-eq init_load init_run) refl blank

merged_entries-twice_example :
    (any_item (same_entry entry stamp) (merged_entries entry stamp nil) ≡ true)
    × (merged_entries entry stamp (merged_entries entry stamp nil) ≡ merged_entries entry stamp nil)
merged_entries-twice_example = merged_entries-twice entry stamp nil
