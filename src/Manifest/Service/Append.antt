-- ===== src/Manifest/Service/Append.antt =====
-- `appendEntryAndPersist` of packages/manifest/src/service.ts.
pub mod Reload
pub mod Failure
use sovereign_jedi.Prelude.{
  ℕ, Bool, true, false, Option, none, some, List, [], ◌∷◌, Text, text, is_empty, trim, text_eq,
  or_default, not, ◌||◌, ◌&&◌, if◌then◌else◌, Outcome, ok, err,
}
use sovereign_jedi.Prelude.Methods.{Method, ◌>>=◌, ◌>>◌, call, done, throw}
use sovereign_jedi.Json.{
  Json, Items, Fields, num, str, arr, obj, nil, end, field, get, set_field, optional, is_str,
  truthy, append, any_item,
}
use sovereign_jedi.Platform.{Platform, Bytes, encode_json, decode_json}
use sovereign_jedi.Crypto.Unlock.{BuildUnlockResult}
use sovereign_jedi.Crypto.Kek.{derive_vault_root_kek_from_signature}
use sovereign_jedi.Manifest.Errors.{
  ManifestError, blank_wallet, missing_unlock, invalid_json, restore_required, pointer_missing,
  blank_file_cid, missing_entry_envelope, entries_missing, ipfs_failed, from_crypto,
}
use sovereign_jedi.Manifest.Cipher.{
  is_blank, derive_manifest_key, encrypt_manifest_v1, decrypt_manifest_v1,
}
use sovereign_jedi.Manifest.Wrap.{build_manifest_wrap_envelope, unwrap_manifest_key}
use sovereign_jedi.Manifest.Pointer.{ManifestStorage, get_manifest_cid, set_manifest_cid}
use sovereign_jedi.Manifest.Service.Entry.{NewEntry, Stamp, merge_entry}
use sovereign_jedi.Manifest.Service.{
  World, Host, Draws, Params, LoadManifestResult, loaded, created, restore_is_required,
  check_params, read_cid, open_manifest, store_manifest, load_manifest_or_init,
}

module _ (h : Host) where
  abbrev refuse_restore : LoadManifestResult → Outcome ManifestError Unit
  refuse_restore restore_is_required = err restore_required
  refuse_restore (loaded m cid) = ok tt
  refuse_restore (created m cid) = ok tt

  -- `if (!currentCid) { … }`: a missing manifest is created first
  unfoldable pub ensure_manifest :
      Params → Text → Text → Draws → Option Text → Method World ManifestError Unit
  ensure_manifest p wallet now_iso d (some cid) = done tt
  ensure_manifest p wallet now_iso d none = do
    init ← load_manifest_or_init h (record p { wallet_pub_key = wallet }) now_iso d
    call (refuse_restore init)

  abbrev required_cid : Option Text → Outcome ManifestError Text
  required_cid none = err pointer_missing
  required_cid (some cid) = ok cid

  -- from the second read of the pointer on
  unfoldable pub append_to_current :
      Text → Bytes → NewEntry → Stamp → Draws → Method World ManifestError (Json × Text)
  append_to_current wallet signature_bytes entry s d = do
    found ← read_cid h wallet
    cid ← call (required_cid found)
    opened ← open_manifest h wallet signature_bytes cid
    manifest ← call (merge_entry entry s opened.0)
    kek ← call (from_crypto (derive_vault_root_kek_from_signature h.platform signature_bytes))
    new_cid ← store_manifest h wallet kek opened.1 manifest d
    done (manifest, new_cid)

  -- The body that the wallet's mutex runs alone. `first` are the random bytes of an init.
  unfoldable pub append_entry_and_persist :
      Params → NewEntry → Stamp → Draws → Draws → Method World ManifestError (Json × Text)
  append_entry_and_persist p entry s first d = do
    wallet ← call (check_params p)
    current_cid ← read_cid h wallet
    ensure_manifest p wallet s.created_iso first current_cid
    append_to_current wallet p.signature_bytes entry s d
