-- ===== src/Checks/Races.antt =====
-- A load overtaken by an append, one that is not told of the published manifest, and a restore, on
-- the samples.
use sovereign_jedi.Json.{
  find_field, get, get_in, set_in, set_field, is_num, is_str, truthy, any_item,
}
use sovereign_jedi.Platform.{encode_json, decode_json}
use sovereign_jedi.Prelude.{text_eq, is_space, trim_start, trim, has_space}
use sovereign_jedi.Crypto.Hkdf.{
  normalize_salt, hkdf_extract, set_at, block_input, expand_parts, write_parts, hkdf_expand,
  derive_key_hkdf,
}
use sovereign_jedi.Crypto.Kek.{
  non_empty_salt, derive_kek_from_signature, derive_vault_root_kek_from_signature,
}
use sovereign_jedi.Manifest.Cipher.{
  derive_manifest_key, is_blank, aad_json, aad_bytes, hash_basis, compute_integrity, header_json,
  payload_json, encrypted_manifest, integrity_field, check_manifest_arguments, encrypt_manifest_v1,
  aad_matches, basis_of, integrity_holds, check_encrypted, check_decrypted, base64_property,
  decrypt_manifest_v1,
}
use sovereign_jedi.Manifest.Wrap.{
  wrap_aad_json, kek_derivation_json, wrap_json, envelope_json, build_manifest_wrap_envelope,
  check_template, check_envelope, check_salt, unwrap_aad, unwrap_manifest_key,
}
use sovereign_jedi.Manifest.Pointer.{
  set_item, remove_item, canonicalize_wallet_pub_key, cluster_name, scoped_key, legacy_key,
  build_manifest_storage_key, cid_found, migrate, read_pointer, get_manifest_cid, set_manifest_cid,
  remove_manifest_cid,
}
use sovereign_jedi.Manifest.Service.{
  check_unlock, check_params, put_block, add_bytes, cat_bytes, read_cid, write_cid, open_manifest,
  store_manifest, empty_manifest, init_manifest, load_current, load_or_init_at,
  load_manifest_or_init,
}
use sovereign_jedi.Manifest.Service.Entry.{
  entry_id_of, added_at_of, entry_json, check_entry, same_entry, entries_of, merged_entries,
  with_entry, merge_entry,
}
use sovereign_jedi.Manifest.Service.Append.{
  ensure_manifest, append_to_current, append_entry_and_persist,
}
use sovereign_jedi.Checks.Codec.{put_text, get_text, to_char, put_key, get_key}
use sovereign_jedi.Checks.JsonCodec.{stringify, parse}
use sovereign_jedi.Checks.Samples.{unseal}
use sovereign_jedi.Manifest.Service.Race.{load_overtaken}
use sovereign_jedi.Registry.Head.{comes_after, insert, sort, select_head}
use sovereign_jedi.Page.Widget.{
  same_cid, registry_entries, is_published, head_cid, status, can_publish, handle_publish,
  restore_to, handle_restore, refresh_local,
}
use sovereign_jedi.Prelude.{◌≡◌, refl, true, none, some, Text, text, [], ◌∷◌, Outcome, ok}
use sovereign_jedi.Prelude.Methods.{◌>>=◌, ◌>>◌}
use sovereign_jedi.Json.{Json, arr, nil}
use sovereign_jedi.Manifest.Errors.{ManifestError}
use sovereign_jedi.Manifest.Service.{World, LoadManifestResult, loaded, restore_is_required}
use sovereign_jedi.Manifest.Service.Race.{load_overtaken-loses}
use sovereign_jedi.Manifest.Service.Unpublished.{load-unpublished}
use sovereign_jedi.Prelude.{subst, false, is_empty}
use sovereign_jedi.Prelude.Methods.{Ensures}
use sovereign_jedi.Platform.{Bytes}
use sovereign_jedi.Manifest.Service.Reopen.{Holds}
use sovereign_jedi.Manifest.Service.Loads.{Reopens, load-Reopens}
use sovereign_jedi.Page.Widget.{Widget, WidgetSession}
use sovereign_jedi.Page.Widget.Restores.{Holds-blocks, restore-load}
use sovereign_jedi.Checks.Samples.{host, host-LawfulHost}
use sovereign_jedi.Checks.Manifest.{
  wallet, signature, params, draws, empty_world, now_iso, first_load, is_created, manifest_of,
  cid_of_load, entry, stamp, is_ok, result_of, is_created-eq, created_run, no_pointer, is_ok-eq,
  params_checked,
}

-- an append that creates the manifest first
abbrev lost_append : Outcome ManifestError (Json × Text) × World
lost_append = append_entry_and_persist host params entry stamp draws draws empty_world

lost_append_run : is_ok lost_append.0 ≡ true
unfolding find_field get get_in set_in set_field is_num is_str truthy any_item encode_json
    decode_json text_eq is_space trim_start trim has_space normalize_salt hkdf_extract set_at
    block_input expand_parts write_parts hkdf_expand derive_key_hkdf non_empty_salt
    derive_kek_from_signature derive_vault_root_kek_from_signature derive_manifest_key is_blank
    aad_json aad_bytes hash_basis compute_integrity header_json payload_json encrypted_manifest
    integrity_field check_manifest_arguments encrypt_manifest_v1 aad_matches basis_of
    integrity_holds check_encrypted check_decrypted base64_property decrypt_manifest_v1
    wrap_aad_json kek_derivation_json wrap_json envelope_json build_manifest_wrap_envelope
    check_template check_envelope check_salt unwrap_aad unwrap_manifest_key set_item remove_item
    canonicalize_wallet_pub_key cluster_name scoped_key legacy_key build_manifest_storage_key
    cid_found migrate read_pointer get_manifest_cid set_manifest_cid remove_manifest_cid
    check_unlock check_params put_block add_bytes cat_bytes read_cid write_cid open_manifest
    store_manifest empty_manifest init_manifest load_current load_or_init_at load_manifest_or_init
    entry_id_of added_at_of entry_json check_entry same_entry entries_of merged_entries with_entry
    merge_entry ensure_manifest append_to_current append_entry_and_persist put_text get_text to_char
    put_key get_key stringify parse unseal load_overtaken comes_after insert sort select_head
    same_cid registry_entries is_published head_cid status can_publish handle_publish restore_to
    handle_restore refresh_local ◌>>=◌ ◌>>◌
lost_append_run = refl

abbrev overtaken : Outcome ManifestError LoadManifestResult × World
overtaken =
    load_overtaken host params now_iso draws
      (append_entry_and_persist host params entry stamp draws draws) empty_world

overtaken_run : is_created overtaken.0 ≡ true
unfolding find_field get get_in set_in set_field is_num is_str truthy any_item encode_json
    decode_json text_eq is_space trim_start trim has_space normalize_salt hkdf_extract set_at
    block_input expand_parts write_parts hkdf_expand derive_key_hkdf non_empty_salt
    derive_kek_from_signature derive_vault_root_kek_from_signature derive_manifest_key is_blank
    aad_json aad_bytes hash_basis compute_integrity header_json payload_json encrypted_manifest
    integrity_field check_manifest_arguments encrypt_manifest_v1 aad_matches basis_of
    integrity_holds check_encrypted check_decrypted base64_property decrypt_manifest_v1
    wrap_aad_json kek_derivation_json wrap_json envelope_json build_manifest_wrap_envelope
    check_template check_envelope check_salt unwrap_aad unwrap_manifest_key set_item remove_item
    canonicalize_wallet_pub_key cluster_name scoped_key legacy_key build_manifest_storage_key
    cid_found migrate read_pointer get_manifest_cid set_manifest_cid remove_manifest_cid
    check_unlock check_params put_block add_bytes cat_bytes read_cid write_cid open_manifest
    store_manifest empty_manifest init_manifest load_current load_or_init_at load_manifest_or_init
    entry_id_of added_at_of entry_json check_entry same_entry entries_of merged_entries with_entry
    merge_entry ensure_manifest append_to_current append_entry_and_persist put_text get_text to_char
    put_key get_key stringify parse unseal load_overtaken comes_after insert sort select_head
    same_cid registry_entries is_published head_cid status can_publish handle_publish restore_to
    handle_restore refresh_local ◌>>=◌ ◌>>◌
overtaken_run = refl

load_overtaken-loses_example :
    (load_manifest_or_init host params (text "later") draws overtaken.1
      ≡ (ok (loaded (manifest_of overtaken.0) (cid_of_load overtaken.0)), overtaken.1))
    × (get "entries" (manifest_of overtaken.0) ≡ some (arr nil))
load_overtaken-loses_example =
    load_overtaken-loses host host-LawfulHost params entry stamp wallet now_iso (text "later")
      (result_of lost_append.0).1 (cid_of_load overtaken.0) (result_of lost_append.0).0
      (manifest_of overtaken.0) draws draws draws draws empty_world lost_append.1 overtaken.1
      params_checked refl no_pointer (is_ok-eq lost_append lost_append_run)
      (is_created-eq overtaken overtaken_run) refl

load-unpublished_example :
    (load_manifest_or_init host
        (record params { on_chain_latest_manifest_cid = some (text "bafy") })
        now_iso
        draws
        empty_world
      ≡ (ok restore_is_required, empty_world))
    × (load_manifest_or_init host
          (record params { on_chain_latest_manifest_cid = some (text "bafy") })
          (text "later")
          draws
          first_load.1
        ≡ (ok (loaded (manifest_of first_load.0) (cid_of_load first_load.0)), first_load.1))
load-unpublished_example =
    load-unpublished host host-LawfulHost params wallet (text "bafy") (cid_of_load first_load.0)
      now_iso (text "later") (manifest_of first_load.0) draws draws empty_world first_load.1
      params_checked refl no_pointer (is_created-eq first_load created_run) refl

-- the pointers are gone, what IPFS holds is not, and the chain names the manifest
abbrev lost_world : World
lost_world = record first_load.1 { pointers = record { items = λ k. none; can_remove = true } }

abbrev newest : Text
newest = cid_of_load first_load.0

abbrev published : WidgetSession
published = record {
  wallet_pub_key = some wallet;
  on_chain_registry = some (record { manifest_cid = newest; published_at = 1 } ∷ []);
  registry_failed = false;
}

abbrev widget : Widget
widget = record { loading = false; error = none; local_manifest_cid = none }

held : (key : Bytes) × Holds host wallet signature newest (manifest_of first_load.0) key lost_world
held =
    let (_, (key, holds)) =
      subst (Ensures (Reopens host host-LawfulHost params wallet params_checked) (λ _. Unit))
        (is_created-eq first_load created_run)
        (load-Reopens host host-LawfulHost params wallet params_checked now_iso draws
          empty_world) in
    (
      key,
      Holds-blocks host wallet signature newest (manifest_of first_load.0) key first_load.1
          lost_world refl holds,
    )

abbrev restored : World
restored = (write_cid host wallet newest lost_world).1

restore_runs :
    (write_cid host wallet newest lost_world ≡ (ok tt, restored))
    × (is_empty newest ≡ false)
    × (trim newest ≡ newest)
    × (head_cid (λ a b. true) published ≡ some newest)
unfolding find_field get get_in set_in set_field is_num is_str truthy any_item encode_json
    decode_json text_eq is_space trim_start trim has_space normalize_salt hkdf_extract set_at
    block_input expand_parts write_parts hkdf_expand derive_key_hkdf non_empty_salt
    derive_kek_from_signature derive_vault_root_kek_from_signature derive_manifest_key is_blank
    aad_json aad_bytes hash_basis compute_integrity header_json payload_json encrypted_manifest
    integrity_field check_manifest_arguments encrypt_manifest_v1 aad_matches basis_of
    integrity_holds check_encrypted check_decrypted base64_property decrypt_manifest_v1
    wrap_aad_json kek_derivation_json wrap_json envelope_json build_manifest_wrap_envelope
    check_template check_envelope check_salt unwrap_aad unwrap_manifest_key set_item remove_item
    canonicalize_wallet_pub_key cluster_name scoped_key legacy_key build_manifest_storage_key
    cid_found migrate read_pointer get_manifest_cid set_manifest_cid remove_manifest_cid
    check_unlock check_params put_block add_bytes cat_bytes read_cid write_cid open_manifest
    store_manifest empty_manifest init_manifest load_current load_or_init_at load_manifest_or_init
    entry_id_of added_at_of entry_json check_entry same_entry entries_of merged_entries with_entry
    merge_entry ensure_manifest append_to_current append_entry_and_persist put_text get_text to_char
    put_key get_key stringify parse unseal load_overtaken comes_after insert sort select_head
    same_cid registry_entries is_published head_cid status can_publish handle_publish restore_to
    handle_restore refresh_local ◌>>=◌ ◌>>◌
restore_runs = (refl, refl, refl, refl)

restore-load_example :
    (handle_restore (λ a b. true) published host widget lost_world
      ≡ (record { loading = false; error = none; local_manifest_cid = some newest }, restored))
    × (load_manifest_or_init host params (text "later") draws restored
        ≡ (ok (loaded (manifest_of first_load.0) newest), restored))
restore-load_example =
    restore-load (λ a b. true) published host host-LawfulHost params wallet newest (text "later") tt
      (manifest_of first_load.0) held.0 draws widget lost_world restored restore_runs.3 refl
      restore_runs.1 refl restore_runs.2 params_checked restore_runs.0 held.1 refl
