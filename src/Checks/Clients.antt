-- ===== src/Checks/Clients.antt =====
-- The mutex, the local store, the registry client, the chunks of IPFS and the proof of control on
-- samples.
use sovereign_jedi.Json.{
  find_field, get, get_in, set_in, set_field, is_num, is_str, truthy, any_item,
}
use sovereign_jedi.Platform.{encode_json, decode_json}
use sovereign_jedi.Prelude.{text_eq, is_space, trim_start, trim, has_space}
use sovereign_jedi.Checks.Codec.{put_text, get_text, to_char, put_key, get_key}
use sovereign_jedi.Checks.JsonCodec.{stringify, parse}
use sovereign_jedi.Checks.Samples.{unseal}
use sovereign_jedi.Crypto.Hex.{hex_digit, to_hex, digit_value, parse_pair, hex_to_bytes, from_hex}
use sovereign_jedi.Identity.{
  ttl_of, get_proof_ttl_seconds, generate_nonce, join_lines, build_proof_message,
  compute_expires_at, is_identity_expired, is_verified, truncate_address,
}
use sovereign_jedi.Identity.Signature.{
  sized, base64_to_bytes, all_hex, decode_hex_signature, decode_signature, signature_to_base58,
  verify_message_signature, verify_message_signature_verbose,
}
use sovereign_jedi.Identity.Verify.{
  reply_bytes, ask_adapter, ask_solana, text_reply, ask_adapter_text, ask_others, obtain_signature,
  proof_message, prove_control, finish_verify, do_verify,
}
use sovereign_jedi.Registry.Retry.{pow3, retry_from, with_retry}
use sovereign_jedi.Registry.Client.{
  starts_with, includes, vault_id_hash, get_registry_address, is_missing, missing_as_none,
  fetch_registry, create_init_registry_instruction, create_append_manifest_instruction,
  registry_attempt, get_registry, publish_transaction, publish_manifest,
}
use sovereign_jedi.Store.{
  find_instance, reusable, close_others, keep_name, set_instance, create_instance, find_record,
  put_record, delete_record, record_to_put, init_storage, last_instance, to_base64, put_manifest,
  get_manifest, delete_manifest, list_manifests, get_encrypted_manifest_bytes,
}
use sovereign_jedi.Store.Laws.{view, with_rows, put_result}
use sovereign_jedi.Ipfs.Context.{
  parse_all, to_multiaddrs_or_throw, bootstrap_strings, create_helia_context, get_ipfs_context,
  reset_ipfs_context, read_chunks, set_at, copy_chunks, assemble, cat_stream,
}
use sovereign_jedi.Ipfs.Context.Laws.{stream_bytes}
use sovereign_jedi.Manifest.Mutex.{create_mutex, set_call, run_exclusive, resume, release}
use sovereign_jedi.Manifest.Mutex.Refines.{phase_of}
use sovereign_jedi.Prelude.{
  ℕ, zero, suc, ◌<◌, leb, ◌≡◌, ◌⊎◌, refl, true, false, none, some, List, Text, text, [], ◌∷◌,
  Outcome, ok, err, replicate, arith, if◌then◌else◌,
}
use sovereign_jedi.Prelude.Methods.{◌>>=◌, ◌>>◌}
use sovereign_jedi.Manifest.Mutex.{Mutex, running, awaiting, calls_in, resumes, Steps, here, next}
use sovereign_jedi.Manifest.Mutex.Lock.{Lock, free_lock, Grants}
use sovereign_jedi.Manifest.Mutex.Refines.{Represents, Steps-refines, exclusive, waiting-progress}
use sovereign_jedi.Store.{ManifestRecord, Storage, StorageHost, unknown, base64}
use sovereign_jedi.Store.Laws.{store-map}
use sovereign_jedi.Registry.Head.{RegistryEntry}
use sovereign_jedi.Registry.Client.{Chain}
use sovereign_jedi.Registry.Client.Publishing.{Broken, Answered, expected, publish-sends}
use sovereign_jedi.Ipfs.{helia_failed, Node, Answer, Stream, done, chunk}
use sovereign_jedi.Ipfs.Config.{
  Sources, split_at, non_empty, parse_csv, skip_slashes, strip_slashes, ipfs_setting, config_of,
  document_kubo, configured_kubo_url, get_kubo_api_url, document_bootstrap, runtime_bootstrap,
  get_bootstrap_multiaddrs,
}
use sovereign_jedi.Registry.Retry.Laws.{waits}
use sovereign_jedi.Registry.Content.{get_manifest_from_ipfs}
use sovereign_jedi.Registry.Content.Stuck.{get_manifest_from_ipfs-stuck}
use sovereign_jedi.Ipfs.Context.Laws.{not_blank, cat_stream-stream_bytes}
use sovereign_jedi.Session.Signing.{Decoders}
use sovereign_jedi.Identity.{nan}
use sovereign_jedi.Identity.Signature.{WalletKeys}
use sovereign_jedi.Identity.Verify.{signed_bytes, VerifySetting, VerifyState}
use sovereign_jedi.Identity.Verify.Outcomes.{Base58Lawful, Failed, Verified, do_verify-outcome}
use sovereign_jedi.Checks.Samples.{platform, platform-Lawful}

-- two calls, of which the first runs
abbrev two_called : Mutex
two_called = run_exclusive (run_exclusive create_mutex)

abbrev first_runs : Mutex
first_runs = set_call 1 running two_called

first_resumes : resume 1 two_called ≡ some first_runs
unfolding create_mutex set_call run_exclusive resume
first_resumes = refl

abbrev steps : Steps create_mutex first_runs
steps =
    next (next (next here (calls_in create_mutex)) (calls_in (run_exclusive create_mutex)))
      (resumes two_called first_runs 1 first_resumes)

Steps-refines_example : (a : Lock) × Grants free_lock a × Represents a first_runs
Steps-refines_example = Steps-refines steps

first_is_running : first_runs.calls 1 ≡ running
unfolding create_mutex set_call run_exclusive
first_is_running = refl

second_waits : first_runs.calls 2 ≡ awaiting 1
unfolding create_mutex set_call run_exclusive
second_waits = refl

exclusive_example : ◌≡◌ {A = ℕ} 1 1
exclusive_example = exclusive first_runs 1 1 steps first_is_running first_is_running

waiting-progress_example :
    ((i : ℕ) × (first_runs.calls i ≡ running))
    ⊎ ((i : ℕ) × (m : Mutex) × (resume i first_runs ≡ some m))
waiting-progress_example = waiting-progress first_runs 2 1 steps second_waits

-- a store with one instance
abbrev storage : Storage
storage = record {
  instances = (text "db", 0) ∷ [];
  last = some 0;
  made = 1;
  name_of = λ i. text "db";
  closed = λ i. false;
  tables = λ n. [];
}

abbrev storage_host : StorageHost
storage_host = record { platform = platform; indexed_db = true; is_open = λ i. unknown }

abbrev written : ManifestRecord
written = put_result storage_host 0 storage (text "KEY") (base64 (text "AAAA")) none (text "now")

store-map_example :
    (((put_manifest storage_host (text "KEY") (base64 (text "AAAA")) none (text "now") storage).0
        ≡ ok written)
      × ((get_manifest storage_host
            (text "KEY")
            (put_manifest storage_host
              (text "KEY")
              (base64 (text "AAAA"))
              none
              (text "now")
              storage).1).0
          ≡ ok (
              if text_eq (text "KEY") (text "KEY")
              then some written
              else view storage 0 (text "KEY"))))
    × (((delete_manifest storage_host (text "KEY") storage).0 ≡ ok true)
        × ((get_manifest storage_host
              (text "KEY")
              (delete_manifest storage_host (text "KEY") storage).1).0
            ≡ ok (if text_eq (text "KEY") (text "KEY") then none else view storage 0 (text "KEY"))))
store-map_example =
    store-map storage_host 0 storage (text "KEY") (text "KEY") (text "now") (base64 (text "AAAA"))
      none refl refl

-- a chain that times out once and then has no account
abbrev answer : ℕ → Outcome Text (List RegistryEntry)
answer zero = err (text "timeout")
answer (suc i) = err (text "Account does not exist")

abbrev chain : Chain
chain = record {
  to_lower = λ t. t;
  find_program_address = λ seeds program. program;
  public_key = λ t. some t;
  fetch = λ i a. answer i;
}

timed_out :
    (i : ℕ)
    → i < 1
    → Broken platform chain (7 ∷ []) 2 300 (text "KEY") (text "KEY") (text "v") i (text "timeout")
unfolding starts_with includes vault_id_hash get_registry_address is_missing
timed_out zero small = (refl, refl)
timed_out (suc i) small = absurd (omega arith)

answered : Answered platform chain (7 ∷ []) 2 300 (text "KEY") (text "KEY") (text "v") 1 none
unfolding starts_with includes
answered = (text "Account does not exist", refl, refl)

publish-sends_example :
    (publish_manifest platform chain
      (7 ∷ [])
      2
      300
      (λ tx. ok (text "sig"))
      (λ s. ok tt)
      (text "KEY")
      (text "KEY")
      (text "v")
      (text "bafy")
      1).1
    ≡ expected platform chain
        (7 ∷ [])
        2
        300
        (text "KEY")
        (text "KEY")
        (text "v")
        (text "bafy")
        1
        none
      ∷ []
publish-sends_example =
    publish-sends platform chain (7 ∷ []) 2 300 (text "KEY") (text "KEY") (text "v") 1
      (λ i. text "timeout") none (λ tx. ok (text "sig")) (λ s. ok tt) (text "bafy") 1 refl
      (omega arith) timed_out answered

-- two chunks
abbrev stream : Stream
stream = chunk (1 ∷ (2 ∷ [])) false (chunk (3 ∷ []) false done)

cat_stream-stream_bytes_example : cat_stream stream ≡ not_blank (stream_bytes stream)
cat_stream-stream_bytes_example = cat_stream-stream_bytes stream

-- no Kubo; Helia starts from the second attempt on
abbrev sources : Sources
sources = record {
  global = none;
  html = some (record { config_json = none; kubo = some []; bootstrap = some (text "/ip4") });
  kubo_env = none;
}

abbrev nodes : ℕ → Node
nodes i = record {
  kubo_add = λ base ms b. Answer.failed;
  kubo_cat = λ base ms c. Answer.failed;
  multiaddr = λ t. some t;
  create_helia =
      λ addrs. if leb 1 i then some (record { add = λ b. none; cat = λ t. stream }) else none;
  parse_cid = λ t. some t;
  string_of = λ v. [];
}

get_manifest_from_ipfs-stuck_example :
    get_manifest_from_ipfs platform nodes sources 3 300 (text "bafy") none
    ≡ (err helia_failed, waits 300 3 0)
unfolding split_at non_empty parse_csv skip_slashes strip_slashes ipfs_setting config_of
    document_kubo configured_kubo_url get_kubo_api_url document_bootstrap runtime_bootstrap
    get_bootstrap_multiaddrs parse_all to_multiaddrs_or_throw bootstrap_strings create_helia_context
    trim trim_start is_space get_in get
get_manifest_from_ipfs-stuck_example =
    get_manifest_from_ipfs-stuck platform nodes sources (text "bafy") helia_failed refl refl refl
      refl 3 300

-- a wallet that signs with 64 bytes
abbrev decoders : Decoders
decoders = record { base58_decode = λ t. some t; atob = none; buffer_from = none }

abbrev keys : WalletKeys
keys = record {
  decoders = decoders;
  base58_encode = λ b. b;
  public_key_bytes = λ t. some (replicate 32 1);
  verify_detached = λ m s k. some true;
}

keys-Base58Lawful : Base58Lawful keys
keys-Base58Lawful = record { opens = λ b. refl }

abbrev setting : VerifySetting
setting = record {
  keys = keys;
  wallets = record { adapter = some (λ n m. signed_bytes (replicate 64 5)); solana = none };
  number = λ t. nan;
  public_ttl = none;
  internal_ttl = none;
  effective_public_key = text "KEY";
  domain = text "localhost";
  cluster = text "devnet";
  random = 1 ∷ (2 ∷ []);
  started_ms = 1000;
  verified_ms = 2000;
}

abbrev start : VerifyState
start = record {
  error = none;
  verifying = false;
  last_identity = none;
  storage = none;
  reported = [];
}

default_lifetime :
    get_proof_ttl_seconds setting.number setting.public_ttl setting.internal_ttl ≡ some 86400
unfolding ttl_of get_proof_ttl_seconds
default_lifetime = refl

do_verify-outcome_example :
    Failed platform setting start (do_verify platform setting start)
    ⊎ Verified platform setting start (do_verify platform setting start) 86400 3000
do_verify-outcome_example =
    do_verify-outcome platform setting 86400 3000 start platform-Lawful keys-Base58Lawful
      default_lifetime refl

-- the run ends with an identity that is verified
is_proven : is_verified platform (do_verify platform setting start).last_identity 3000 ≡ true
unfolding find_field get get_in set_in set_field is_num is_str truthy any_item encode_json
    decode_json text_eq is_space trim_start trim has_space put_text get_text to_char put_key get_key
    stringify parse unseal hex_digit to_hex digit_value parse_pair hex_to_bytes from_hex ttl_of
    get_proof_ttl_seconds generate_nonce join_lines build_proof_message compute_expires_at
    is_identity_expired is_verified truncate_address sized base64_to_bytes all_hex
    decode_hex_signature decode_signature signature_to_base58 verify_message_signature
    verify_message_signature_verbose reply_bytes ask_adapter ask_solana text_reply ask_adapter_text
    ask_others obtain_signature proof_message prove_control finish_verify do_verify pow3 retry_from
    with_retry starts_with includes vault_id_hash get_registry_address is_missing missing_as_none
    fetch_registry create_init_registry_instruction create_append_manifest_instruction
    registry_attempt get_registry publish_transaction publish_manifest find_instance reusable
    close_others keep_name set_instance create_instance find_record put_record delete_record
    record_to_put init_storage last_instance to_base64 put_manifest get_manifest delete_manifest
    list_manifests get_encrypted_manifest_bytes view with_rows put_result parse_all
    to_multiaddrs_or_throw bootstrap_strings create_helia_context get_ipfs_context
    reset_ipfs_context read_chunks set_at copy_chunks assemble cat_stream stream_bytes create_mutex
    set_call run_exclusive resume release phase_of ◌>>=◌ ◌>>◌
is_proven = refl
