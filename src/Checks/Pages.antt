-- ===== src/Checks/Pages.antt =====
-- An upload, the page that lists it, and a page that is left and returned to, on samples.
use sovereign_jedi.Json.{
  find_field, get, get_in, set_in, set_field, is_num, is_str, truthy, any_item,
}
use sovereign_jedi.Platform.{encode_json, decode_json}
use sovereign_jedi.Prelude.{text_eq, is_space, trim_start, trim, has_space}
use sovereign_jedi.Crypto.Hkdf.{
  normalize_salt, hkdf_extract, set_at, block_input, expand_parts, write_parts, hkdf_expand,
  derive_key_hkdf,
}
use sovereign_jedi.Crypto.Kek.{
  non_empty_salt, derive_kek_from_signature, derive_vault_root_kek_from_signature,
}
use sovereign_jedi.Manifest.Cipher.{
  derive_manifest_key, is_blank, aad_json, aad_bytes, hash_basis, compute_integrity, header_json,
  payload_json, encrypted_manifest, integrity_field, check_manifest_arguments, encrypt_manifest_v1,
  aad_matches, basis_of, integrity_holds, check_encrypted, check_decrypted, base64_property,
  decrypt_manifest_v1,
}
use sovereign_jedi.Manifest.Wrap.{
  wrap_aad_json, kek_derivation_json, wrap_json, envelope_json, build_manifest_wrap_envelope,
  check_template, check_envelope, check_salt, unwrap_aad, unwrap_manifest_key,
}
use sovereign_jedi.Manifest.Pointer.{
  set_item, remove_item, canonicalize_wallet_pub_key, cluster_name, scoped_key, legacy_key,
  build_manifest_storage_key, cid_found, migrate, read_pointer, get_manifest_cid, set_manifest_cid,
  remove_manifest_cid,
}
use sovereign_jedi.Manifest.Service.{
  check_unlock, check_params, put_block, add_bytes, cat_bytes, read_cid, write_cid, open_manifest,
  store_manifest, empty_manifest, init_manifest, load_current, load_or_init_at,
  load_manifest_or_init,
}
use sovereign_jedi.Manifest.Service.Entry.{
  entry_id_of, added_at_of, entry_json, check_entry, same_entry, entries_of, merged_entries,
  with_entry, merge_entry,
}
use sovereign_jedi.Manifest.Service.Append.{
  ensure_manifest, append_to_current, append_entry_and_persist,
}
use sovereign_jedi.Checks.Codec.{put_text, get_text, to_char, put_key, get_key}
use sovereign_jedi.Checks.JsonCodec.{stringify, parse}
use sovereign_jedi.Checks.Samples.{unseal}
use sovereign_jedi.Crypto.Unlock.{
  unlock_message_json, canonicalize_json, default_expiry, build_unlock_message_v1, prepare_unlock,
  is_expired, assert_unlock_not_expired, derive_kek_from_unlock_signature,
}
use sovereign_jedi.Crypto.VaultRoot.{vault_root_message_json, build_vault_root_message_v1}
use sovereign_jedi.Crypto.Files.{
  canonical_bytes, header_subset_json, file_aad_json, wrap_aad_v3, encrypted_file_json,
  file_envelope_json, header_of, encrypt_file, file_property, wrap_header, payload_aad_json,
  decrypt_file,
}
use sovereign_jedi.Crypto.Hex.{hex_digit, to_hex, digit_value, parse_pair, hex_to_bytes, from_hex}
use sovereign_jedi.Session.Signing.{
  to_uint8_array, provider_signature, ask_provider, request_signature, set_signer,
  set_wallet_adapter_signer,
}
use sovereign_jedi.Session.Manager.{
  new_session_manager, normalize_pub_key, same_key, belongs_to, is_key, notify, clear_material,
  drop_foreign_verified, adopt_verified, clear_on_switch, connect_wallet, lock_vault, get_verified,
  disconnect_wallet, is_wallet_connected, is_vault_unlocked,
}
use sovereign_jedi.Identity.{
  ttl_of, get_proof_ttl_seconds, generate_nonce, join_lines, build_proof_message,
  compute_expires_at, is_identity_expired, is_verified, truncate_address,
}
use sovereign_jedi.Identity.Store.{
  get_item, set_item as set_item_of_store, remove_item as remove_item_of_store, identity_json,
  identity_of, safe_json_parse, load_identity, save_identity, clear_identity,
  get_last_wallet_provider, set_last_wallet_provider, clear_last_wallet_provider,
}
use sovereign_jedi.Identity.Signature.{
  sized, base64_to_bytes, all_hex, decode_hex_signature, decode_signature, signature_to_base58,
  verify_message_signature, verify_message_signature_verbose,
}
use sovereign_jedi.Guards.{
  has_identity_verified, can_perform_vault_actions, assert_can_perform_vault_actions,
  vault_guard_status,
}
use sovereign_jedi.Ipfs.Config.{
  split_at, non_empty, parse_csv, skip_slashes, strip_slashes, ipfs_setting, config_of,
  document_kubo, configured_kubo_url, get_kubo_api_url, document_bootstrap, runtime_bootstrap,
  get_bootstrap_multiaddrs, normalize_bootstrap_multiaddrs,
}
use sovereign_jedi.Ipfs.Kubo.{
  last_line, cid_property, read_add_answer, add_bytes_via_kubo, cat_bytes_via_kubo,
}
use sovereign_jedi.Ipfs.Context.{
  parse_all, to_multiaddrs_or_throw, bootstrap_strings, create_helia_context, get_ipfs_context,
  reset_ipfs_context, read_chunks, set_at as set_at_of_context, copy_chunks, assemble, cat_stream,
}
use sovereign_jedi.Ipfs.Client.{
  exceeds, add_bytes_via_helia, add_bytes as add_bytes_of_client, cat_bytes_via_helia,
  cat_bytes as cat_bytes_of_client, add_encrypted_package,
}
use sovereign_jedi.Upload.{
  signature_text, unlock_expiry, package_json, hash_basis as hash_basis_of_upload,
  build_encrypted_ipfs_object_v1, integrity_of, upload_options, check_upload, upload_kek, upload_as,
  upload_encrypted_to_ipfs_or_throw,
}
use sovereign_jedi.Registry.Head.{comes_after, insert, sort, select_head}
use sovereign_jedi.Page.Refresh.{
  file_item, file_items, manifest_files, is_session_gate_ok, on_chain_latest_manifest_cid,
  safe_get_manifest_cid, refresh_key, load_params, missing_message, show_manifest, show_result,
  refresh_from_manifest,
}
use sovereign_jedi.Page.Upload.{
  gate_file, fail_with, needed, entry_of_upload, refresh_page, append_upload, upload_file,
  handle_file,
}
use sovereign_jedi.Page.Refresh.Laws.{leave_and_return}
use sovereign_jedi.Prelude.{
  ◌≡◌, refl, Bool, true, false, Option, none, some, List, Text, text, [], ◌∷◌, Outcome, ok, err,
  replicate,
}
use sovereign_jedi.Prelude.Methods.{◌>>=◌, ◌>>◌}
use sovereign_jedi.Json.{Json, null, obj, field, end, str}
use sovereign_jedi.Manifest.Errors.{ManifestError}
use sovereign_jedi.Manifest.Service.{World, LoadManifestResult, loaded}
use sovereign_jedi.Session.Manager.{SessionManager}
use sovereign_jedi.Session.Hook.{SessionState}
use sovereign_jedi.Identity.{Identity}
use sovereign_jedi.Identity.Store.{BrowserStorage}
use sovereign_jedi.Ipfs.{Node, answered}
use sovereign_jedi.Ipfs.Context.{Context}
use sovereign_jedi.Upload.{UploadSetting, UploadFile, UploadResult, UploadError}
use sovereign_jedi.Upload.Result.{Opens, Allowed, upload-Opens, upload-Allowed}
use sovereign_jedi.Page.Refresh.{FileItem, FileList, RefreshCall}
use sovereign_jedi.Page.Refresh.Laws.{reconnect-empty}
use sovereign_jedi.Page.Upload.{Page, HandleSetting, idle, success, append_params}
use sovereign_jedi.Manifest.Service.Append.Reload.{load-append}
use sovereign_jedi.Page.Upload.Laws.{handle_file-shows}
use sovereign_jedi.Checks.Samples.{platform, platform-Lawful, host, host-LawfulHost}
use sovereign_jedi.Checks.Manifest.{
  wallet, signature, unlock, draws, empty_world, now_iso, stamp, is_ok, result_of, is_ok-eq,
}

-- 64 bytes, which the sample decoder reads as they stand
abbrev proof : Identity
proof = record {
  public_key = wallet;
  message = text "m";
  signature = replicate 64 5;
  issued_at = text "i";
  verified_at = platform.to_iso_string 1000;
  expires_at = platform.to_iso_string 9000;
  nonce = text "n";
  cluster = text "c";
  domain = text "d";
}

abbrev browser : BrowserStorage
browser = record { items = λ k. some (stringify (identity_json proof)); refuses = λ k v. false }

-- a node whose Kubo answers with a hash
abbrev node : Node
node = record {
  kubo_add = λ base ms b. answered true (stringify (obj (field "Hash" (str (text "bafy")) end)));
  kubo_cat = λ base ms c. answered true [];
  multiaddr = λ t. none;
  create_helia = λ ms. none;
  parse_cid = λ t. none;
  string_of = λ v. [];
}

abbrev manager : SessionManager
manager = record {
  wallet_pub_key = some wallet;
  wallet_provider = none;
  vault_unlocked = true;
  verified = some null;
  last_unlock = some unlock;
  last_unlock_signature_bytes = some signature;
  last_vault_root = none;
  last_vault_root_signature_bytes = some signature;
  storage = record { available = true; writable = true; item = none };
  window = false;
  events = 0;
}

abbrev setting : UploadSetting
setting = record {
  platform = platform;
  decoders = record { base58_decode = λ t. some t; atob = none; buffer_from = none };
  node = node;
  sources = record { global = none; html = none; kubo_env = none };
  storage = some browser;
  session = manager;
  now_ms = 5000;
  page_origin = text "o";
  salt = replicate 32 3;
  unlock_nonce = replicate 16 4;
  draws = record {
    key = replicate 32 5;
    id = replicate 16 6;
    nonce = replicate 24 7;
    wrap_nonce = replicate 24 8;
  };
}

abbrev file : UploadFile
file = record { content = 1 ∷ (2 ∷ (3 ∷ [])); name = text "a.txt"; mime_type = [] }

abbrev uploaded : Outcome UploadError UploadResult × Context
uploaded = upload_encrypted_to_ipfs_or_throw setting file wallet none

abbrev is_uploaded : Outcome UploadError UploadResult → Bool
is_uploaded (ok r) = true
is_uploaded (err e) = false

abbrev upload_of : Outcome UploadError UploadResult → UploadResult
upload_of (ok r) = r
upload_of (err e) = record { cid = []; integrity_sha256_b64 = []; object = null }

is_uploaded-eq :
    (r : Outcome UploadError UploadResult × Context)
    → is_uploaded r.0 ≡ true
    → r ≡ (ok (upload_of r.0), r.1)
is_uploaded-eq (ok r, c) h = refl
is_uploaded-eq (err e, c) h = cc

uploaded_run : is_uploaded uploaded.0 ≡ true
unfolding find_field get get_in set_in set_field is_num is_str truthy any_item encode_json
    decode_json text_eq is_space trim_start trim has_space normalize_salt hkdf_extract set_at
    block_input expand_parts write_parts hkdf_expand derive_key_hkdf non_empty_salt
    derive_kek_from_signature derive_vault_root_kek_from_signature derive_manifest_key is_blank
    aad_json aad_bytes hash_basis compute_integrity header_json payload_json encrypted_manifest
    integrity_field check_manifest_arguments encrypt_manifest_v1 aad_matches basis_of
    integrity_holds check_encrypted check_decrypted base64_property decrypt_manifest_v1
    wrap_aad_json kek_derivation_json wrap_json envelope_json build_manifest_wrap_envelope
    check_template check_envelope check_salt unwrap_aad unwrap_manifest_key set_item remove_item
    canonicalize_wallet_pub_key cluster_name scoped_key legacy_key build_manifest_storage_key
    cid_found migrate read_pointer get_manifest_cid set_manifest_cid remove_manifest_cid
    check_unlock check_params put_block add_bytes cat_bytes read_cid write_cid open_manifest
    store_manifest empty_manifest init_manifest load_current load_or_init_at load_manifest_or_init
    entry_id_of added_at_of entry_json check_entry same_entry entries_of merged_entries with_entry
    merge_entry ensure_manifest append_to_current append_entry_and_persist put_text get_text to_char
    put_key get_key stringify parse unseal unlock_message_json canonicalize_json default_expiry
    build_unlock_message_v1 prepare_unlock is_expired assert_unlock_not_expired
    derive_kek_from_unlock_signature vault_root_message_json build_vault_root_message_v1
    canonical_bytes header_subset_json file_aad_json wrap_aad_v3 encrypted_file_json
    file_envelope_json header_of encrypt_file file_property wrap_header payload_aad_json
    decrypt_file hex_digit to_hex digit_value parse_pair hex_to_bytes from_hex to_uint8_array
    provider_signature ask_provider request_signature set_signer set_wallet_adapter_signer
    new_session_manager normalize_pub_key same_key belongs_to is_key notify clear_material
    drop_foreign_verified adopt_verified clear_on_switch connect_wallet lock_vault get_verified
    disconnect_wallet is_wallet_connected is_vault_unlocked ttl_of get_proof_ttl_seconds
    generate_nonce join_lines build_proof_message compute_expires_at is_identity_expired is_verified
    truncate_address get_item set_item_of_store remove_item_of_store identity_json identity_of
    safe_json_parse load_identity save_identity clear_identity get_last_wallet_provider
    set_last_wallet_provider clear_last_wallet_provider sized base64_to_bytes all_hex
    decode_hex_signature decode_signature signature_to_base58 verify_message_signature
    verify_message_signature_verbose has_identity_verified can_perform_vault_actions
    assert_can_perform_vault_actions vault_guard_status split_at non_empty parse_csv skip_slashes
    strip_slashes ipfs_setting config_of document_kubo configured_kubo_url get_kubo_api_url
    document_bootstrap runtime_bootstrap get_bootstrap_multiaddrs normalize_bootstrap_multiaddrs
    last_line cid_property read_add_answer add_bytes_via_kubo cat_bytes_via_kubo parse_all
    to_multiaddrs_or_throw bootstrap_strings create_helia_context get_ipfs_context
    reset_ipfs_context read_chunks set_at_of_context copy_chunks assemble cat_stream exceeds
    add_bytes_via_helia add_bytes_of_client cat_bytes_via_helia cat_bytes_of_client
    add_encrypted_package signature_text unlock_expiry package_json hash_basis_of_upload
    build_encrypted_ipfs_object_v1 integrity_of upload_options check_upload upload_kek upload_as
    upload_encrypted_to_ipfs_or_throw comes_after insert sort select_head file_item file_items
    manifest_files is_session_gate_ok on_chain_latest_manifest_cid safe_get_manifest_cid refresh_key
    load_params missing_message show_manifest show_result refresh_from_manifest gate_file fail_with
    needed entry_of_upload refresh_page append_upload upload_file handle_file leave_and_return ◌>>=◌
    ◌>>◌
uploaded_run = refl

upload-Opens_example :
    Opens setting file wallet (load_identity platform (some browser)) (upload_of uploaded.0)
upload-Opens_example =
    upload-Opens setting file wallet none uploaded.1 (upload_of uploaded.0) platform-Lawful refl
      (is_uploaded-eq uploaded uploaded_run)

upload-Allowed_example : Allowed setting file wallet
upload-Allowed_example =
    upload-Allowed setting file wallet none uploaded.1 (upload_of uploaded.0)
      (is_uploaded-eq uploaded uploaded_run)

-- the page
abbrev session : SessionState
session = record {
  wallet_pub_key = some wallet;
  is_vault_unlocked = true;
  verified = some null;
  is_wallet_connected = true;
  on_chain_registry = none;
  registry_failed = false;
  last_unlock = some unlock;
  last_unlock_signature_bytes = some signature;
  last_vault_root = none;
  last_vault_root_signature_bytes = some signature;
}

abbrev at_most : Text → Text → Bool
at_most a b = true

abbrev call : RefreshCall
call = record { manual = false; now_iso = now_iso; draws = draws }

abbrev handling : HandleSetting
handling = record { upload = setting; stamp = stamp; first = draws; draws = draws; refresh = call }

abbrev empty_list : FileList
empty_list = record { files = []; message = none; in_flight = false; last_key = [] }

abbrev page : Page
page = record {
  ui = record { flow = idle; message = none; last_uploaded_cid = none };
  list = empty_list;
  world = empty_world;
  context = none;
}

abbrev appended : Outcome ManifestError (Json × Text) × World
appended =
    append_entry_and_persist host
      (append_params at_most host session handling wallet signature unlock)
      (entry_of_upload file (upload_of uploaded.0)) stamp draws draws empty_world

abbrev or_empty : Option (List FileItem) → List FileItem
or_empty none = []
or_empty (some fs) = fs

abbrev shown_files : List FileItem
shown_files = or_empty (manifest_files (result_of appended.0).0)

-- the runs: the append returns, its manifest has one file, the refresh key is new, and the pointer
-- is found
page_runs :
    (is_ok appended.0 ≡ true)
    × (manifest_files (result_of appended.0).0 ≡ some shown_files)
    × (text_eq (refresh_key session (some (result_of appended.0).1)) [] ≡ false)
    × (safe_get_manifest_cid host (some wallet) appended.1
        ≡ (some (result_of appended.0).1, appended.1))
unfolding find_field get get_in set_in set_field is_num is_str truthy any_item encode_json
    decode_json text_eq is_space trim_start trim has_space normalize_salt hkdf_extract set_at
    block_input expand_parts write_parts hkdf_expand derive_key_hkdf non_empty_salt
    derive_kek_from_signature derive_vault_root_kek_from_signature derive_manifest_key is_blank
    aad_json aad_bytes hash_basis compute_integrity header_json payload_json encrypted_manifest
    integrity_field check_manifest_arguments encrypt_manifest_v1 aad_matches basis_of
    integrity_holds check_encrypted check_decrypted base64_property decrypt_manifest_v1
    wrap_aad_json kek_derivation_json wrap_json envelope_json build_manifest_wrap_envelope
    check_template check_envelope check_salt unwrap_aad unwrap_manifest_key set_item remove_item
    canonicalize_wallet_pub_key cluster_name scoped_key legacy_key build_manifest_storage_key
    cid_found migrate read_pointer get_manifest_cid set_manifest_cid remove_manifest_cid
    check_unlock check_params put_block add_bytes cat_bytes read_cid write_cid open_manifest
    store_manifest empty_manifest init_manifest load_current load_or_init_at load_manifest_or_init
    entry_id_of added_at_of entry_json check_entry same_entry entries_of merged_entries with_entry
    merge_entry ensure_manifest append_to_current append_entry_and_persist put_text get_text to_char
    put_key get_key stringify parse unseal unlock_message_json canonicalize_json default_expiry
    build_unlock_message_v1 prepare_unlock is_expired assert_unlock_not_expired
    derive_kek_from_unlock_signature vault_root_message_json build_vault_root_message_v1
    canonical_bytes header_subset_json file_aad_json wrap_aad_v3 encrypted_file_json
    file_envelope_json header_of encrypt_file file_property wrap_header payload_aad_json
    decrypt_file hex_digit to_hex digit_value parse_pair hex_to_bytes from_hex to_uint8_array
    provider_signature ask_provider request_signature set_signer set_wallet_adapter_signer
    new_session_manager normalize_pub_key same_key belongs_to is_key notify clear_material
    drop_foreign_verified adopt_verified clear_on_switch connect_wallet lock_vault get_verified
    disconnect_wallet is_wallet_connected is_vault_unlocked ttl_of get_proof_ttl_seconds
    generate_nonce join_lines build_proof_message compute_expires_at is_identity_expired is_verified
    truncate_address get_item set_item_of_store remove_item_of_store identity_json identity_of
    safe_json_parse load_identity save_identity clear_identity get_last_wallet_provider
    set_last_wallet_provider clear_last_wallet_provider sized base64_to_bytes all_hex
    decode_hex_signature decode_signature signature_to_base58 verify_message_signature
    verify_message_signature_verbose has_identity_verified can_perform_vault_actions
    assert_can_perform_vault_actions vault_guard_status split_at non_empty parse_csv skip_slashes
    strip_slashes ipfs_setting config_of document_kubo configured_kubo_url get_kubo_api_url
    document_bootstrap runtime_bootstrap get_bootstrap_multiaddrs normalize_bootstrap_multiaddrs
    last_line cid_property read_add_answer add_bytes_via_kubo cat_bytes_via_kubo parse_all
    to_multiaddrs_or_throw bootstrap_strings create_helia_context get_ipfs_context
    reset_ipfs_context read_chunks set_at_of_context copy_chunks assemble cat_stream exceeds
    add_bytes_via_helia add_bytes_of_client cat_bytes_via_helia cat_bytes_of_client
    add_encrypted_package signature_text unlock_expiry package_json hash_basis_of_upload
    build_encrypted_ipfs_object_v1 integrity_of upload_options check_upload upload_kek upload_as
    upload_encrypted_to_ipfs_or_throw comes_after insert sort select_head file_item file_items
    manifest_files is_session_gate_ok on_chain_latest_manifest_cid safe_get_manifest_cid refresh_key
    load_params missing_message show_manifest show_result refresh_from_manifest gate_file fail_with
    needed entry_of_upload refresh_page append_upload upload_file handle_file leave_and_return ◌>>=◌
    ◌>>◌
page_runs = (refl, refl, refl, refl)

appended_run : is_ok appended.0 ≡ true
appended_run = page_runs.0

passes_gate : gate_file session file ≡ none
unfolding gate_file is_key
passes_gate = refl

has_material : needed session ≡ ok (wallet, signature, unlock)
unfolding needed
has_material = refl

wallet_trimmed : trim wallet ≡ wallet
unfolding is_space trim_start trim
wallet_trimmed = refl

handle_file-shows_example : handle_file at_most host session handling file page ≡ record {
  ui = record {
    flow = success;
    message = none;
    last_uploaded_cid = some (upload_of uploaded.0).cid;
  };
  list = record {
    files = shown_files;
    message = none;
    in_flight = false;
    last_key = refresh_key session (some (result_of appended.0).1);
  };
  world = appended.1;
  context = uploaded.1;
}
handle_file-shows_example =
    handle_file-shows at_most host host-LawfulHost session handling file page wallet signature
      unlock (upload_of uploaded.0) uploaded.1 (result_of appended.0).0 (result_of appended.0).1
      appended.1 shown_files passes_gate has_material wallet_trimmed
      (is_uploaded-eq uploaded uploaded_run) (is_ok-eq appended appended_run) refl refl page_runs.2
      page_runs.1

-- the session after a disconnection
abbrev gone : SessionState
gone = record session { wallet_pub_key = none; is_vault_unlocked = false }

abbrev load : Outcome ManifestError LoadManifestResult × World
load =
    load_manifest_or_init host (append_params at_most host session handling wallet signature unlock)
      now_iso draws appended.1

-- what the load returns, which is the appended manifest
loads_appended : load ≡ (ok (loaded (result_of appended.0).0 (result_of appended.0).1), appended.1)
loads_appended =
    load-append host host-LawfulHost
      (append_params at_most host session handling wallet signature unlock)
      (entry_of_upload file (upload_of uploaded.0)) stamp now_iso (result_of appended.0).1
      (result_of appended.0).0 draws draws draws empty_world appended.1
      (is_ok-eq appended appended_run) refl

has_params :
    load_params session (on_chain_latest_manifest_cid at_most session)
    ≡ some (append_params at_most host session handling wallet signature unlock)
unfolding load_params is_session_gate_ok is_key on_chain_latest_manifest_cid
has_params = refl

reconnect-empty_example :
    (leave_and_return at_most host session gone call call call empty_list appended.1).0 ≡ record {
      files = [];
      message = missing_message gone;
      in_flight = false;
      last_key = refresh_key session (some (result_of appended.0).1);
    }
reconnect-empty_example =
    reconnect-empty at_most host session gone call call call
      (append_params at_most host session handling wallet signature unlock) empty_list appended.1
      (some (result_of appended.0).1) (result_of appended.0).0 (result_of appended.0).1 shown_files
      has_params page_runs.3 refl page_runs.2 loads_appended page_runs.1 refl refl
