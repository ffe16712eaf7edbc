-- ===== src/Manifest/Service.antt =====
-- packages/manifest/src/service.ts: `loadManifestOrInit` with its default
-- dependencies. The state is the local pointers and what IPFS holds.
pub mod Steps
pub mod Reopen
pub mod Loads
pub mod Restore
pub mod Entry
pub mod Append
pub mod Race
pub mod Unpublished
use sovereign_jedi.Prelude.{
  ℕ, Bool, true, false, Option, none, some, List, [], ◌∷◌, Text, text, is_empty, trim, text_eq,
  or_default, not, ◌||◌, ◌&&◌, if◌then◌else◌, Outcome, ok, err,
}
use sovereign_jedi.Prelude.Methods.{Method, ◌>>=◌, ◌>>◌, call, done, throw}
use sovereign_jedi.Json.{
  Json, Items, Fields, num, str, arr, obj, nil, end, field, get, set_field, optional, is_str,
  truthy, append, any_item,
}
use sovereign_jedi.Platform.{Platform, Bytes, encode_json, decode_json}
use sovereign_jedi.Crypto.Unlock.{BuildUnlockResult}
use sovereign_jedi.Crypto.Kek.{derive_vault_root_kek_from_signature}
use sovereign_jedi.Manifest.Errors.{
  ManifestError, blank_wallet, missing_unlock, invalid_json, restore_required, pointer_missing,
  blank_file_cid, missing_entry_envelope, entries_missing, ipfs_failed, from_crypto,
}
use sovereign_jedi.Manifest.Cipher.{
  is_blank, derive_manifest_key, encrypt_manifest_v1, decrypt_manifest_v1,
}
use sovereign_jedi.Manifest.Wrap.{build_manifest_wrap_envelope, unwrap_manifest_key}
use sovereign_jedi.Manifest.Pointer.{ManifestStorage, get_manifest_cid, set_manifest_cid}

pub record World : Type 0 where
  pub pointers : ManifestStorage
  pub blocks : Text → Option Bytes

-- The program's surroundings: the host, the Solana cluster, and an IPFS node that names what it
-- stores by `cid_of`, and may fail on some uploads and downloads.
pub record Host : Type 0 where
  pub platform : Platform
  pub cluster : Option Text
  pub cid_of : Bytes → Text
  pub accepts : Bytes → Bool
  pub serves : Text → Bool

-- the random bytes of one write: salt, nonce of the wrap, nonce of the manifest
pub record Draws : Type 0 where
  pub salt : Bytes
  pub wrap_nonce : Bytes
  pub nonce : Bytes

pub record Params : Type 0 where
  pub wallet_pub_key : Text
  pub signature_bytes : Bytes
  pub unlock : Option BuildUnlockResult
  pub on_chain_latest_manifest_cid : Option Text

pub data LoadManifestResult : Type 0 where
  loaded created : Json → Text → LoadManifestResult
  restore_is_required : LoadManifestResult

-- `!!s`
abbrev pub given : Option Text → Bool
given none = false
given (some t) = not (is_empty t)

unfoldable pub check_unlock : Option BuildUnlockResult → Outcome ManifestError Unit
check_unlock none = err missing_unlock
check_unlock (some u) = if is_empty u.message_to_sign then err missing_unlock else ok tt

-- the trimmed wallet, after the checks at the head of both functions
unfoldable pub check_params : Params → Outcome ManifestError Text
check_params p =
    let wallet = trim p.wallet_pub_key in
    if is_blank wallet
    then err blank_wallet
    else elim (check_unlock p.unlock) [ ok _ ↦ ok wallet | err e ↦ err e ]

module _ (h : Host) where
  unfoldable pub put_block : Bytes → World → World
  put_block bytes w = record w {
    blocks = λ j. if text_eq (h.cid_of bytes) j then some bytes else w.blocks j;
  }

  unfoldable pub add_bytes : Bytes → Method World ManifestError Text
  add_bytes bytes w =
      if h.accepts bytes then (ok (h.cid_of bytes), put_block bytes w) else (err ipfs_failed, w)

  unfoldable pub cat_bytes : Text → Method World ManifestError Bytes
  cat_bytes cid w =
      if h.serves cid
      then elim (w.blocks cid) [ none ↦ (err ipfs_failed, w) | some bytes ↦ (ok bytes, w) ]
      else (err ipfs_failed, w)

  unfoldable pub read_cid : Text → Method World ManifestError (Option Text)
  read_cid wallet w =
      let (found, pointers) = get_manifest_cid h.cluster wallet w.pointers in
      (found, record w { pointers = pointers })

  unfoldable pub write_cid : Text → Text → Method World ManifestError Unit
  write_cid wallet cid w =
      let (written, pointers) = set_manifest_cid h.cluster wallet cid w.pointers in
      (written, record w { pointers = pointers })

  -- JSON.parse of what IPFS returned
  abbrev parse_object : Bytes → Outcome ManifestError Json
  parse_object bytes = elim (decode_json h.platform bytes) [
    | none ↦ err invalid_json
    | some v ↦ ok v
  ]

  -- fetch, parse, unwrap the key and decrypt: the manifest with its key
  unfoldable pub open_manifest : Text → Bytes → Text → Method World ManifestError (Json × Bytes)
  open_manifest wallet signature_bytes cid = do
    bytes ← cat_bytes cid
    encrypted ← call (parse_object bytes)
    manifest_key ← call (unwrap_manifest_key h.platform encrypted wallet signature_bytes)
    manifest ← call (decrypt_manifest_v1 h.platform encrypted manifest_key wallet)
    done (manifest, manifest_key)

  -- wrap the key, encrypt, upload, and move the pointer once the upload has succeeded
  unfoldable pub store_manifest :
      Text → Bytes → Bytes → Json → Draws → Method World ManifestError Text
  store_manifest wallet kek manifest_key manifest d = do
    envelope ←
        call (build_manifest_wrap_envelope h.platform wallet kek manifest_key d.salt d.wrap_nonce)
    encrypted ← call (encrypt_manifest_v1 h.platform manifest manifest_key wallet envelope d.nonce)
    cid ← add_bytes (encode_json h.platform encrypted)
    write_cid wallet cid
    done cid

  unfoldable pub empty_manifest : Text → Text → Json
  empty_manifest wallet created_at = obj (
      field "version" (num 1) (
        field "walletPubKey" (str wallet) (
          field "createdAt" (str created_at)
            (field "updatedAt" (str created_at) (field "entries" (arr nil) end)))))

  unfoldable pub init_manifest :
      Text → Bytes → Text → Draws → Method World ManifestError LoadManifestResult
  init_manifest wallet signature_bytes now_iso d = do
    kek ← call (from_crypto (derive_vault_root_kek_from_signature h.platform signature_bytes))
    manifest_key ← call (derive_manifest_key h.platform kek)
    cid ← store_manifest wallet kek manifest_key (empty_manifest wallet now_iso) d
    done (created (empty_manifest wallet now_iso) cid)

  unfoldable pub load_current : Text → Bytes → Text → Method World ManifestError LoadManifestResult
  load_current wallet signature_bytes cid = do
    opened ← open_manifest wallet signature_bytes cid
    done (loaded opened.0 cid)

  unfoldable pub load_or_init_at :
      Params → Text → Text → Draws → Option Text → Method World ManifestError LoadManifestResult
  load_or_init_at p wallet now_iso d (some cid) = load_current wallet p.signature_bytes cid
  load_or_init_at p wallet now_iso d none =
      if given p.on_chain_latest_manifest_cid
      then done restore_is_required
      else init_manifest wallet p.signature_bytes now_iso d

  unfoldable pub load_manifest_or_init :
      Params → Text → Draws → Method World ManifestError LoadManifestResult
  load_manifest_or_init p now_iso d = do
    wallet ← call (check_params p)
    existing_cid ← read_cid wallet
    load_or_init_at p wallet now_iso d existing_cid
