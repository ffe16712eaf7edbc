-- ===== src/Checks/Session.antt =====
-- The session on samples: a wallet connects, unlocks, switches and disconnects.
use sovereign_jedi.Json.{
  Json, find_field, get, get_in, set_in, set_field, is_num, is_str, truthy, any_item,
}
use sovereign_jedi.Platform.{encode_json, decode_json, Bytes}
use sovereign_jedi.Prelude.{text_eq, is_space, trim_start, trim, has_space}
use sovereign_jedi.Crypto.Hkdf.{
  normalize_salt, hkdf_extract, set_at, block_input, expand_parts, write_parts, hkdf_expand,
  derive_key_hkdf,
}
use sovereign_jedi.Crypto.Kek.{
  non_empty_salt, derive_kek_from_signature, derive_vault_root_kek_from_signature,
}
use sovereign_jedi.Crypto.Unlock.{
  unlock_message_json, canonicalize_json, default_expiry, build_unlock_message_v1, prepare_unlock,
  is_expired, assert_unlock_not_expired, derive_kek_from_unlock_signature, BuildUnlockResult,
  Surroundings, UnlockParams,
}
use sovereign_jedi.Crypto.VaultRoot.{
  vault_root_message_json, build_vault_root_message_v1, BuildVaultRootResult,
}
use sovereign_jedi.Session.Verified.{
  verified_json, expiry_of, remove_item, check_expiry, load_raw, load_verified, save_verified,
  clear_verified, LocalStorage, VerifiedState,
}
use sovereign_jedi.Session.Manager.{
  new_session_manager, normalize_pub_key, same_key, belongs_to, is_key, notify, clear_material,
  drop_foreign_verified, adopt_verified, clear_on_switch, connect_wallet, lock_vault, get_verified,
  disconnect_wallet, is_wallet_connected, SessionManager, PubKeyInput, string,
}
use sovereign_jedi.Session.Signing.{
  to_uint8_array, provider_signature, ask_provider, request_signature, Signers, SessionError,
  absent,
}
use sovereign_jedi.Session.Unlocking.{
  unlock_params, connected_key, begin_unlock, store_unlock, begin_root, new_verified, mark_unlocked,
  store_root, unlock_vault, vault_id,
}
use sovereign_jedi.Checks.Codec.{put_text, get_text, to_char, put_key, get_key}
use sovereign_jedi.Checks.JsonCodec.{stringify, parse}
use sovereign_jedi.Checks.Samples.{unseal, platform, platform-Lawful}
use sovereign_jedi.Prelude.{
  ℕ, ◌+◌, ◌*◌, ◌<◌, ◌≡◌, ◌≢◌, refl, true, false, Option, none, some, Text, text, [], ◌∷◌, Outcome,
  ok, err, replicate, text_eq, text_eq_refl, subst, arith, length, take, ◌↔◌, ◌≤◌, if◌then◌else◌,
  ltb,
}
use sovereign_jedi.Prelude.Methods.{◌>>=◌, ◌>>◌, Ensures}
use sovereign_jedi.Crypto.Errors.{CryptoError}
use sovereign_jedi.Crypto.Hkdf.Rfc.{rfc_stream, hkdf_expand-rfc}
use sovereign_jedi.Crypto.Unlock.Expiry.{
  derive_kek_from_unlock_signature-ok, build_unlock_message_v1-expiry,
}
use sovereign_jedi.Session.Invariant.{IsCoherent}
use sovereign_jedi.Session.History.{connects, unlocks, disconnects, run_calls, history-IsCoherent}
use sovereign_jedi.Session.Unlocking.Effects.{Unlocked, Untouched, IsSignal, unlock_vault-effects}
use sovereign_jedi.Session.Unlocking.Returns.{unlock_vault-returns}
use sovereign_jedi.Session.Persistence.{get_verified-unlock_vault}
use sovereign_jedi.Session.Switching.{connect_wallet-stale}
use sovereign_jedi.Session.Interleaving.{
  Tab, Turn, next, here, disconnects as disconnects_turn, locks, IsRooted, Turns-IsRooted,
  for_root_signature, disconnect_while_unlocking,
}

abbrev key : Text
key = text "KEY"

abbrev storage : LocalStorage
storage = record { available = true; writable = true; item = none }

abbrev fresh : SessionManager
fresh = new_session_manager platform 0 true storage

abbrev connected_manager : SessionManager
connected_manager = connect_wallet platform 0 (string key) (some (text "phantom")) fresh

abbrev signers : Signers
signers = record {
  wallet_adapter_signer = some (λ b. ok (some b));
  signer = none;
  provider = absent;
  decoders = record { base58_decode = λ t. none; atob = none; buffer_from = none };
}

abbrev s : Surroundings
s = record { page_origin = text "http://localhost"; now_ms = 1000; random_nonce = replicate 16 7 }

abbrev salt : Bytes
salt = replicate 16 3

abbrev opened : Outcome SessionError Unit × SessionManager
opened = unlock_vault platform signers s salt 2000 connected_manager

history-IsCoherent_example : IsCoherent (
    run_calls platform
      (connects 0 (string key) none ∷ (unlocks signers s salt 2000 ∷ (disconnects ∷ [])))
      fresh)
history-IsCoherent_example =
    history-IsCoherent platform 0 true storage
      (connects 0 (string key) none ∷ (unlocks signers s salt 2000 ∷ (disconnects ∷ [])))

unlock_vault-effects_example :
    Ensures (λ _. Unlocked platform 2000 connected_manager) (Untouched connected_manager) opened
unlock_vault-effects_example = unlock_vault-effects platform connected_manager signers s salt 2000

signs : (message : Bytes) → request_signature signers message ≡ ok (some message)
unfolding find_field get get_in set_in set_field is_num is_str truthy any_item encode_json
    decode_json text_eq is_space trim_start trim has_space normalize_salt hkdf_extract set_at
    block_input expand_parts write_parts hkdf_expand derive_key_hkdf non_empty_salt
    derive_kek_from_signature derive_vault_root_kek_from_signature unlock_message_json
    canonicalize_json default_expiry build_unlock_message_v1 prepare_unlock is_expired
    assert_unlock_not_expired derive_kek_from_unlock_signature vault_root_message_json
    build_vault_root_message_v1 verified_json expiry_of remove_item check_expiry load_raw
    load_verified save_verified clear_verified new_session_manager normalize_pub_key same_key
    belongs_to is_key notify clear_material drop_foreign_verified adopt_verified clear_on_switch
    connect_wallet lock_vault get_verified disconnect_wallet is_wallet_connected to_uint8_array
    provider_signature ask_provider request_signature unlock_params connected_key begin_unlock
    store_unlock begin_root new_verified mark_unlocked store_root unlock_vault put_text get_text
    to_char put_key get_key stringify parse unseal ◌>>=◌ ◌>>◌
signs message = refl

has_key : connected_manager.wallet_pub_key ≡ some key
unfolding find_field get get_in set_in set_field is_num is_str truthy any_item encode_json
    decode_json text_eq is_space trim_start trim has_space normalize_salt hkdf_extract set_at
    block_input expand_parts write_parts hkdf_expand derive_key_hkdf non_empty_salt
    derive_kek_from_signature derive_vault_root_kek_from_signature unlock_message_json
    canonicalize_json default_expiry build_unlock_message_v1 prepare_unlock is_expired
    assert_unlock_not_expired derive_kek_from_unlock_signature vault_root_message_json
    build_vault_root_message_v1 verified_json expiry_of remove_item check_expiry load_raw
    load_verified save_verified clear_verified new_session_manager normalize_pub_key same_key
    belongs_to is_key notify clear_material drop_foreign_verified adopt_verified clear_on_switch
    connect_wallet lock_vault get_verified disconnect_wallet is_wallet_connected to_uint8_array
    provider_signature ask_provider request_signature unlock_params connected_key begin_unlock
    store_unlock begin_root new_verified mark_unlocked store_root unlock_vault put_text get_text
    to_char put_key get_key stringify parse unseal ◌>>=◌ ◌>>◌
has_key = refl

unlock_vault-returns_example : opened.0 ≡ ok tt
unlock_vault-returns_example =
    unlock_vault-returns platform platform-Lawful (λ v. refl) signers (λ b. b) s salt 2000
      connected_manager key signs has_key refl refl

opened_run : opened ≡ (ok tt, opened.1)
unfolding find_field get get_in set_in set_field is_num is_str truthy any_item encode_json
    decode_json text_eq is_space trim_start trim has_space normalize_salt hkdf_extract set_at
    block_input expand_parts write_parts hkdf_expand derive_key_hkdf non_empty_salt
    derive_kek_from_signature derive_vault_root_kek_from_signature unlock_message_json
    canonicalize_json default_expiry build_unlock_message_v1 prepare_unlock is_expired
    assert_unlock_not_expired derive_kek_from_unlock_signature vault_root_message_json
    build_vault_root_message_v1 verified_json expiry_of remove_item check_expiry load_raw
    load_verified save_verified clear_verified new_session_manager normalize_pub_key same_key
    belongs_to is_key notify clear_material drop_foreign_verified adopt_verified clear_on_switch
    connect_wallet lock_vault get_verified disconnect_wallet is_wallet_connected to_uint8_array
    provider_signature ask_provider request_signature unlock_params connected_key begin_unlock
    store_unlock begin_root new_verified mark_unlocked store_root unlock_vault put_text get_text
    to_char put_key get_key stringify parse unseal ◌>>=◌ ◌>>◌
opened_run = refl

has_storage :
    (connected_manager.storage.available ≡ true) × (connected_manager.storage.writable ≡ true)
unfolding find_field get get_in set_in set_field is_num is_str truthy any_item encode_json
    decode_json text_eq is_space trim_start trim has_space normalize_salt hkdf_extract set_at
    block_input expand_parts write_parts hkdf_expand derive_key_hkdf non_empty_salt
    derive_kek_from_signature derive_vault_root_kek_from_signature unlock_message_json
    canonicalize_json default_expiry build_unlock_message_v1 prepare_unlock is_expired
    assert_unlock_not_expired derive_kek_from_unlock_signature vault_root_message_json
    build_vault_root_message_v1 verified_json expiry_of remove_item check_expiry load_raw
    load_verified save_verified clear_verified new_session_manager normalize_pub_key same_key
    belongs_to is_key notify clear_material drop_foreign_verified adopt_verified clear_on_switch
    connect_wallet lock_vault get_verified disconnect_wallet is_wallet_connected to_uint8_array
    provider_signature ask_provider request_signature unlock_params connected_key begin_unlock
    store_unlock begin_root new_verified mark_unlocked store_root unlock_vault put_text get_text
    to_char put_key get_key stringify parse unseal ◌>>=◌ ◌>>◌
has_storage = (refl, refl)

get_verified-unlock_vault_example :
    (v : Json) × IsSignal 2000 connected_manager v
    × ((get_verified platform 3000 opened.1).0
        ≡ (if ltb 3000 (2000 + 24 * 60 * 60 * 1000) then some v else none))
get_verified-unlock_vault_example =
    get_verified-unlock_vault platform platform-Lawful signers s salt 2000 3000 connected_manager
      opened.1 has_storage.0 has_storage.1 opened_run

abbrev signal : VerifiedState
signal = record {
  wallet_pub_key = some key;
  verified_at = 1;
  expires_at = 5000;
  wallet_provider = none;
  nonce = none;
  issued_at = none;
}

abbrev stored : LocalStorage
stored = save_verified platform (verified_json signal) storage

loaded_run : (load_verified platform 3000 stored).0 ≡ some (verified_json signal)
unfolding find_field get get_in set_in set_field is_num is_str truthy any_item encode_json
    decode_json text_eq is_space trim_start trim has_space normalize_salt hkdf_extract set_at
    block_input expand_parts write_parts hkdf_expand derive_key_hkdf non_empty_salt
    derive_kek_from_signature derive_vault_root_kek_from_signature unlock_message_json
    canonicalize_json default_expiry build_unlock_message_v1 prepare_unlock is_expired
    assert_unlock_not_expired derive_kek_from_unlock_signature vault_root_message_json
    build_vault_root_message_v1 verified_json expiry_of remove_item check_expiry load_raw
    load_verified save_verified clear_verified new_session_manager normalize_pub_key same_key
    belongs_to is_key notify clear_material drop_foreign_verified adopt_verified clear_on_switch
    connect_wallet lock_vault get_verified disconnect_wallet is_wallet_connected to_uint8_array
    provider_signature ask_provider request_signature unlock_params connected_key begin_unlock
    store_unlock begin_root new_verified mark_unlocked store_root unlock_vault put_text get_text
    to_char put_key get_key stringify parse unseal ◌>>=◌ ◌>>◌
loaded_run = refl

-- a tab that starts where the signal of KEY is stored
abbrev returning : SessionManager
returning = new_session_manager platform 3000 true stored

abbrev back : SessionManager
back = connect_wallet platform 3000 (string key) none returning

back_run : back.verified ≡ some (verified_json signal)
unfolding find_field get get_in set_in set_field is_num is_str truthy any_item encode_json
    decode_json text_eq is_space trim_start trim has_space normalize_salt hkdf_extract set_at
    block_input expand_parts write_parts hkdf_expand derive_key_hkdf non_empty_salt
    derive_kek_from_signature derive_vault_root_kek_from_signature unlock_message_json
    canonicalize_json default_expiry build_unlock_message_v1 prepare_unlock is_expired
    assert_unlock_not_expired derive_kek_from_unlock_signature vault_root_message_json
    build_vault_root_message_v1 verified_json expiry_of remove_item check_expiry load_raw
    load_verified save_verified clear_verified new_session_manager normalize_pub_key same_key
    belongs_to is_key notify clear_material drop_foreign_verified adopt_verified clear_on_switch
    connect_wallet lock_vault get_verified disconnect_wallet is_wallet_connected to_uint8_array
    provider_signature ask_provider request_signature unlock_params connected_key begin_unlock
    store_unlock begin_root new_verified mark_unlocked store_root unlock_vault put_text get_text
    to_char put_key get_key stringify parse unseal ◌>>=◌ ◌>>◌
back_run = refl

abbrev other : PubKeyInput
other = string (text "OTHER")

is_connected : is_key opened.1.wallet_pub_key ≡ true
unfolding find_field get get_in set_in set_field is_num is_str truthy any_item encode_json
    decode_json text_eq is_space trim_start trim has_space normalize_salt hkdf_extract set_at
    block_input expand_parts write_parts hkdf_expand derive_key_hkdf non_empty_salt
    derive_kek_from_signature derive_vault_root_kek_from_signature unlock_message_json
    canonicalize_json default_expiry build_unlock_message_v1 prepare_unlock is_expired
    assert_unlock_not_expired derive_kek_from_unlock_signature vault_root_message_json
    build_vault_root_message_v1 verified_json expiry_of remove_item check_expiry load_raw
    load_verified save_verified clear_verified new_session_manager normalize_pub_key same_key
    belongs_to is_key notify clear_material drop_foreign_verified adopt_verified clear_on_switch
    connect_wallet lock_vault get_verified disconnect_wallet is_wallet_connected to_uint8_array
    provider_signature ask_provider request_signature unlock_params connected_key begin_unlock
    store_unlock begin_root new_verified mark_unlocked store_root unlock_vault put_text get_text
    to_char put_key get_key stringify parse unseal ◌>>=◌ ◌>>◌
is_connected = refl

other_differs : same_key opened.1.wallet_pub_key (normalize_pub_key other) ≡ false
unfolding find_field get get_in set_in set_field is_num is_str truthy any_item encode_json
    decode_json text_eq is_space trim_start trim has_space normalize_salt hkdf_extract set_at
    block_input expand_parts write_parts hkdf_expand derive_key_hkdf non_empty_salt
    derive_kek_from_signature derive_vault_root_kek_from_signature unlock_message_json
    canonicalize_json default_expiry build_unlock_message_v1 prepare_unlock is_expired
    assert_unlock_not_expired derive_kek_from_unlock_signature vault_root_message_json
    build_vault_root_message_v1 verified_json expiry_of remove_item check_expiry load_raw
    load_verified save_verified clear_verified new_session_manager normalize_pub_key same_key
    belongs_to is_key notify clear_material drop_foreign_verified adopt_verified clear_on_switch
    connect_wallet lock_vault get_verified disconnect_wallet is_wallet_connected to_uint8_array
    provider_signature ask_provider request_signature unlock_params connected_key begin_unlock
    store_unlock begin_root new_verified mark_unlocked store_root unlock_vault put_text get_text
    to_char put_key get_key stringify parse unseal ◌>>=◌ ◌>>◌
other_differs = refl

same_key_refl : (k : Option Text) → same_key k k ≡ true
unfolding same_key
same_key_refl none = refl
same_key_refl (some t) = text_eq_refl t

differ : (a b : Option Text) → same_key a b ≡ false → a ≢ b
differ a b h e =
    let same : same_key a b ≡ true =
      subst (λ (u : Option Text). same_key a u ≡ true) e (same_key_refl a) in
    cc

abbrev switched : SessionManager
switched = connect_wallet platform 4000 other none opened.1

-- the signal of KEY was stored after this tab had read an empty localStorage
abbrev stale : SessionManager
stale = record fresh { storage = stored }

nothing_in_memory : stale.verified ≡ none
unfolding find_field get get_in set_in set_field is_num is_str truthy any_item encode_json
    decode_json text_eq is_space trim_start trim has_space normalize_salt hkdf_extract set_at
    block_input expand_parts write_parts hkdf_expand derive_key_hkdf non_empty_salt
    derive_kek_from_signature derive_vault_root_kek_from_signature unlock_message_json
    canonicalize_json default_expiry build_unlock_message_v1 prepare_unlock is_expired
    assert_unlock_not_expired derive_kek_from_unlock_signature vault_root_message_json
    build_vault_root_message_v1 verified_json expiry_of remove_item check_expiry load_raw
    load_verified save_verified clear_verified new_session_manager normalize_pub_key same_key
    belongs_to is_key notify clear_material drop_foreign_verified adopt_verified clear_on_switch
    connect_wallet lock_vault get_verified disconnect_wallet is_wallet_connected to_uint8_array
    provider_signature ask_provider request_signature unlock_params connected_key begin_unlock
    store_unlock begin_root new_verified mark_unlocked store_root unlock_vault put_text get_text
    to_char put_key get_key stringify parse unseal ◌>>=◌ ◌>>◌
nothing_in_memory = refl

foreign : belongs_to (normalize_pub_key other) (verified_json signal) ≡ false
unfolding find_field get get_in set_in set_field is_num is_str truthy any_item encode_json
    decode_json text_eq is_space trim_start trim has_space normalize_salt hkdf_extract set_at
    block_input expand_parts write_parts hkdf_expand derive_key_hkdf non_empty_salt
    derive_kek_from_signature derive_vault_root_kek_from_signature unlock_message_json
    canonicalize_json default_expiry build_unlock_message_v1 prepare_unlock is_expired
    assert_unlock_not_expired derive_kek_from_unlock_signature vault_root_message_json
    build_vault_root_message_v1 verified_json expiry_of remove_item check_expiry load_raw
    load_verified save_verified clear_verified new_session_manager normalize_pub_key same_key
    belongs_to is_key notify clear_material drop_foreign_verified adopt_verified clear_on_switch
    connect_wallet lock_vault get_verified disconnect_wallet is_wallet_connected to_uint8_array
    provider_signature ask_provider request_signature unlock_params connected_key begin_unlock
    store_unlock begin_root new_verified mark_unlocked store_root unlock_vault put_text get_text
    to_char put_key get_key stringify parse unseal ◌>>=◌ ◌>>◌
foreign = refl

connect_wallet-stale_example :
    let n = connect_wallet platform 3000 other none stale in
    (n.verified ≡ none) × ((get_verified platform 3000 n).0 ≡ some (verified_json signal))
connect_wallet-stale_example =
    connect_wallet-stale platform 3000 other none stale (verified_json signal) nothing_in_memory
      loaded_run foreign

-- the tab in which KEY waits for its second signature
abbrev root : BuildVaultRootResult
root = record {
  canonical_object = record { wallet = some key; vault_id = vault_id };
  message_to_sign = text "root";
}

abbrev tab : Tab
tab = record { manager = connected_manager; waiting = for_root_signature root ∷ [] }

locked_IsRooted : IsRooted connected_manager
unfolding find_field get get_in set_in set_field is_num is_str truthy any_item encode_json
    decode_json text_eq is_space trim_start trim has_space normalize_salt hkdf_extract set_at
    block_input expand_parts write_parts hkdf_expand derive_key_hkdf non_empty_salt
    derive_kek_from_signature derive_vault_root_kek_from_signature unlock_message_json
    canonicalize_json default_expiry build_unlock_message_v1 prepare_unlock is_expired
    assert_unlock_not_expired derive_kek_from_unlock_signature vault_root_message_json
    build_vault_root_message_v1 verified_json expiry_of remove_item check_expiry load_raw
    load_verified save_verified clear_verified new_session_manager normalize_pub_key same_key
    belongs_to is_key notify clear_material drop_foreign_verified adopt_verified clear_on_switch
    connect_wallet lock_vault get_verified disconnect_wallet is_wallet_connected to_uint8_array
    provider_signature ask_provider request_signature unlock_params connected_key begin_unlock
    store_unlock begin_root new_verified mark_unlocked store_root unlock_vault put_text get_text
    to_char put_key get_key stringify parse unseal ◌>>=◌ ◌>>◌
locked_IsRooted = record { rooted = λ h. cc }

Turns-IsRooted_example : IsRooted (lock_vault (disconnect_wallet connected_manager))
Turns-IsRooted_example = Turns-IsRooted platform {t = tab} locked_IsRooted (
    next (next here (disconnects_turn tab))
      (locks (record tab { manager = disconnect_wallet connected_manager })))

disconnect_while_unlocking_example :
    (gone : Tab) × (u : Tab) × (gone ≡ record tab { manager = disconnect_wallet tab.manager })
    × Turn platform tab gone
    × (gone.manager.wallet_pub_key ≡ none)
    × (gone.manager.vault_unlocked ≡ false)
    × (u.manager ≡ (store_root platform 5000 root (some (9 ∷ [])) gone.manager).1)
    × Turn platform gone u
    × (u.manager.vault_unlocked ≡ true)
    × (u.manager.last_vault_root_signature_bytes ≡ some (9 ∷ []))
    × (u.manager.wallet_pub_key ≡ none)
    × ¬ IsCoherent u.manager
disconnect_while_unlocking_example =
    disconnect_while_unlocking platform tab [] [] root 5000 (9 ∷ []) refl

-- 42 bytes, as in the first test case of RFC 5869
hkdf_expand-rfc_example :
    (hkdf_expand platform salt none 42 ≡ ok (take 42 (rfc_stream platform salt [] [] 1 2)))
    × (length (take 42 (rfc_stream platform salt [] [] 1 2)) ≡ 42)
hkdf_expand-rfc_example =
    hkdf_expand-rfc platform platform-Lawful salt none 42 (omega arith) (omega arith)

abbrev message_params : UnlockParams
message_params = record {
  origin = none;
  wallet = key;
  vault_id = none;
  nonce_bytes = none;
  issued_at = none;
  expires_at = none;
}

abbrev unlock_of : Outcome CryptoError BuildUnlockResult → BuildUnlockResult
unlock_of (ok u) = u
unlock_of (err e) = record {
  canonical_object = record {
    origin = [];
    wallet = [];
    nonce = [];
    issued_at = [];
    expires_at = [];
    vault_id = [];
  };
  message_to_sign = [];
}

abbrev unlock : BuildUnlockResult
unlock = unlock_of (build_unlock_message_v1 platform s message_params)

unlock_run : build_unlock_message_v1 platform s message_params ≡ ok unlock
unfolding find_field get get_in set_in set_field is_num is_str truthy any_item encode_json
    decode_json text_eq is_space trim_start trim has_space normalize_salt hkdf_extract set_at
    block_input expand_parts write_parts hkdf_expand derive_key_hkdf non_empty_salt
    derive_kek_from_signature derive_vault_root_kek_from_signature unlock_message_json
    canonicalize_json default_expiry build_unlock_message_v1 prepare_unlock is_expired
    assert_unlock_not_expired derive_kek_from_unlock_signature vault_root_message_json
    build_vault_root_message_v1 verified_json expiry_of remove_item check_expiry load_raw
    load_verified save_verified clear_verified new_session_manager normalize_pub_key same_key
    belongs_to is_key notify clear_material drop_foreign_verified adopt_verified clear_on_switch
    connect_wallet lock_vault get_verified disconnect_wallet is_wallet_connected to_uint8_array
    provider_signature ask_provider request_signature unlock_params connected_key begin_unlock
    store_unlock begin_root new_verified mark_unlocked store_root unlock_vault put_text get_text
    to_char put_key get_key stringify parse unseal ◌>>=◌ ◌>>◌
unlock_run = refl

build_unlock_message_v1-expiry_example :
    (is_expired platform unlock 5000 ≡ true) ↔ (1000 + 600000 ≤ 5000)
build_unlock_message_v1-expiry_example =
    build_unlock_message_v1-expiry platform platform-Lawful s message_params unlock 5000 refl refl
      unlock_run

abbrev kek_of : Outcome CryptoError Bytes → Bytes
kek_of (ok kek) = kek
kek_of (err e) = []

abbrev derived : Outcome CryptoError Bytes
derived = derive_kek_from_unlock_signature platform salt none unlock 5000

derived_run : derived ≡ ok (kek_of derived)
unfolding find_field get get_in set_in set_field is_num is_str truthy any_item encode_json
    decode_json text_eq is_space trim_start trim has_space normalize_salt hkdf_extract set_at
    block_input expand_parts write_parts hkdf_expand derive_key_hkdf non_empty_salt
    derive_kek_from_signature derive_vault_root_kek_from_signature unlock_message_json
    canonicalize_json default_expiry build_unlock_message_v1 prepare_unlock is_expired
    assert_unlock_not_expired derive_kek_from_unlock_signature vault_root_message_json
    build_vault_root_message_v1 verified_json expiry_of remove_item check_expiry load_raw
    load_verified save_verified clear_verified new_session_manager normalize_pub_key same_key
    belongs_to is_key notify clear_material drop_foreign_verified adopt_verified clear_on_switch
    connect_wallet lock_vault get_verified disconnect_wallet is_wallet_connected to_uint8_array
    provider_signature ask_provider request_signature unlock_params connected_key begin_unlock
    store_unlock begin_root new_verified mark_unlocked store_root unlock_vault put_text get_text
    to_char put_key get_key stringify parse unseal ◌>>=◌ ◌>>◌
derived_run = refl

derive_kek_from_unlock_signature-ok_example :
    (ts : ℕ) × (platform.date_parse unlock.canonical_object.expires_at ≡ some ts)
    × (5000 < ts)
    × (derive_kek_from_signature platform salt none ≡ ok (kek_of derived))
derive_kek_from_unlock_signature-ok_example =
    derive_kek_from_unlock_signature-ok platform salt none unlock 5000 (kek_of derived) derived_run
