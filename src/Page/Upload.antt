-- ===== src/Page/Upload.antt =====
-- `handleFile` of pages/index.tsx: gates, encrypted upload, append to the manifest, refresh. The
-- upload and the manifest service reach IPFS through states of their own. The return to `idle`
-- after a second is left out.
pub mod Laws
use sovereign_jedi.Prelude.{
  Bool, true, false, Option, none, some, Text, is_some, length, ltb, not, if◌then◌else◌, Outcome,
  ok, err,
}
use sovereign_jedi.Json.{Json, get}
use sovereign_jedi.Platform.{Bytes}
use sovereign_jedi.Crypto.Unlock.{BuildUnlockResult}
use sovereign_jedi.Session.Manager.{is_key}
use sovereign_jedi.Session.Hook.{SessionState}
use sovereign_jedi.Ipfs.Context.{Context}
use sovereign_jedi.Manifest.Errors.{ManifestError}
use sovereign_jedi.Manifest.Service.{World, Host, Draws, Params}
use sovereign_jedi.Manifest.Service.Entry.{NewEntry, Stamp}
use sovereign_jedi.Manifest.Service.Append.{append_entry_and_persist}
use sovereign_jedi.Upload.{
  UploadSetting, UploadFile, UploadResult, UploadError, max_mvp_file_bytes, file_type,
  upload_encrypted_to_ipfs_or_throw,
}
use sovereign_jedi.Page.Refresh.{
  FileList, RefreshCall, on_chain_latest_manifest_cid, refresh_from_manifest,
}

pub data UiFlow : Type 0 where
  idle drag_over loading success error : UiFlow

pub data HandleError : Type 0 where
  no_wallet not_verified locked too_big unlock_missing vault_root_missing : HandleError
  upload_failed : UploadError → HandleError
  append_failed : ManifestError → HandleError

pub record UploadUi : Type 0 where
  pub flow : UiFlow
  pub message : Option HandleError
  pub last_uploaded_cid : Option Text

-- the page with what it reaches: the file list, IPFS with the pointers, and the Helia singleton
pub record Page : Type 0 where
  pub ui : UploadUi
  pub list : FileList
  pub world : World
  pub context : Context

-- What one call draws and reads beside the page.
pub record HandleSetting : Type 0 where
  pub upload : UploadSetting
  pub stamp : Stamp
  pub first : Draws
  pub draws : Draws
  pub refresh : RefreshCall

-- the gates before `loading`
unfoldable pub gate_file : SessionState → UploadFile → Option HandleError
gate_file s file =
    if not (is_key s.wallet_pub_key)
    then some no_wallet
    else if not (is_some s.verified)
    then some not_verified
    else if not s.is_vault_unlocked
    then some locked
    else if ltb max_mvp_file_bytes (length file.content)
    then some too_big
    else none

unfoldable pub fail_with : HandleError → Page → Page
fail_with e p = record p { ui = record p.ui { flow = error; message = some e } }

-- the wallet, the vault-root signature and the unlock
unfoldable pub needed : SessionState → Outcome HandleError (Text × Bytes × BuildUnlockResult)
needed s = elim s.wallet_pub_key [
  | none ↦ err no_wallet
  | some wallet ↦ elim s.last_unlock [
    | none ↦ err unlock_missing
    | some unlock ↦ elim s.last_vault_root_signature_bytes [
      | none ↦ err vault_root_missing
      | some signature ↦ ok (wallet, signature, unlock)
    ]
  ]
]

unfoldable pub entry_of_upload : UploadFile → UploadResult → NewEntry
entry_of_upload file r = record {
  entry_id = none;
  file_cid = r.cid;
  added_at = none;
  envelope = get "envelope" r.object;
  original_file_name = some file.name;
  mime_type = some (file_type file.mime_type);
  file_size = some (length file.content);
  file_integrity_sha256_b64 = none;
}

module _ (at_most : Text → Text → Bool) (h : Host) (s : SessionState) (c : HandleSetting) where
  abbrev pub append_params : Text → Bytes → BuildUnlockResult → Params
  append_params wallet signature unlock = record {
    wallet_pub_key = wallet;
    signature_bytes = signature;
    unlock = some unlock;
    on_chain_latest_manifest_cid = on_chain_latest_manifest_cid at_most s;
  }

  unfoldable pub refresh_page : Page → Page
  refresh_page p =
      let (list, world) = refresh_from_manifest at_most h s c.refresh p.list p.world in
      record p { list = list; world = world; ui = record p.ui { flow = success } }

  -- from the uploaded package on
  unfoldable pub append_upload :
      UploadFile → Text → Bytes → BuildUnlockResult → UploadResult → Page → Page
  unfolding refresh_page fail_with entry_of_upload
  append_upload file wallet signature unlock r p =
      let p1 : Page = record p { ui = record p.ui { last_uploaded_cid = some r.cid } } in
      let (appended, w) =
        append_entry_and_persist h (append_params wallet signature unlock) (entry_of_upload file r)
          c.stamp c.first c.draws p1.world in
      let p2 : Page = record p1 { world = w } in
      elim appended [ ok a ↦ refresh_page p2 | err e ↦ fail_with (append_failed e) p2 ]

  -- the block under `try`
  unfoldable pub upload_file : UploadFile → Page → Page
  unfolding needed append_upload fail_with
  upload_file file p = elim (needed s) [
    | err e ↦ fail_with e p
    | ok (wallet, signature, unlock) ↦
        let (uploaded, context) =
          upload_encrypted_to_ipfs_or_throw c.upload file wallet p.context in
        let p1 : Page = record p { context = context } in
        elim uploaded [
          | err e ↦ fail_with (upload_failed e) p1
          | ok r ↦ append_upload file wallet signature unlock r p1
        ]
  ]

  unfoldable pub handle_file : UploadFile → Page → Page
  unfolding gate_file upload_file fail_with
  handle_file file p = elim (gate_file s file) [
    | some e ↦ fail_with e p
    | none ↦ upload_file file (record p { ui = record p.ui { flow = loading; message = none } })
  ]
