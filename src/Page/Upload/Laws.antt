-- ===== src/Page/Upload/Laws.antt =====
-- What a file dropped on the page leads to.
use sovereign_jedi.Prelude.{
  ◌≡◌, sym, ap, ◌∙◌, subst, Bool, true, false, Option, none, some, List, Text, text_eq, trim,
  is_empty, ok, arith,
}
use sovereign_jedi.Prelude.Methods.{Ensures}
use sovereign_jedi.Json.{Json}
use sovereign_jedi.Platform.{Bytes}
use sovereign_jedi.Crypto.Unlock.{BuildUnlockResult}
use sovereign_jedi.Session.Hook.{SessionState}
use sovereign_jedi.Session.Manager.{is_key}
use sovereign_jedi.Ipfs.Context.{Context}
use sovereign_jedi.Manifest.Service.{World, Host, Params, check_params, read_cid}
use sovereign_jedi.Manifest.Service.Reopen.{LawfulHost}
use sovereign_jedi.Manifest.Service.Append.{append_entry_and_persist}
use sovereign_jedi.Manifest.Service.Append.Reload.{
  Appended, append-Appended, append-checked, load-append,
}
use sovereign_jedi.Upload.{UploadFile, UploadResult, upload_encrypted_to_ipfs_or_throw}
use sovereign_jedi.Page.Refresh.{
  FileList, FileItem, manifest_files, on_chain_latest_manifest_cid, safe_get_manifest_cid,
  refresh_key, load_params, is_session_gate_ok, refresh_from_manifest,
}
use sovereign_jedi.Page.Refresh.Laws.{refresh-shows}
use sovereign_jedi.Page.Upload.{
  Page, HandleSetting, success, gate_file, needed, entry_of_upload, append_params, refresh_page,
  append_upload, upload_file, handle_file,
}

check_params-trim :
    (p : Params) (wallet : Text) → check_params p ≡ ok wallet → trim p.wallet_pub_key ≡ wallet
unfolding check_params
check_params-trim p wallet h = ground arith

gate-load_params :
    (s : SessionState) (file : UploadFile) (latest : Option Text) (wallet : Text)
    (signature : Bytes) (unlock : BuildUnlockResult)
    → gate_file s file ≡ none
    → needed s ≡ ok (wallet, signature, unlock)
    → (s.wallet_pub_key ≡ some wallet)
      × (is_empty wallet ≡ false)
      × (load_params s latest
          ≡ some (record {
            wallet_pub_key = wallet;
            signature_bytes = signature;
            unlock = some unlock;
            on_chain_latest_manifest_cid = latest;
          }))
unfolding gate_file needed load_params is_session_gate_ok is_key
gate-load_params s file latest wallet signature unlock passed have =
    (ground arith, ground arith, ground arith)

module _ (at_most : Text → Text → Bool) (h : Host) (l : LawfulHost h) (s : SessionState)
    (c : HandleSetting) where
  module _ (file : UploadFile) (p : Page) (wallet : Text) (signature : Bytes)
      (unlock : BuildUnlockResult) where
    -- the pointer that the page's refresh finds after the append
    found_after :
        (r : UploadResult) (m : Json) (cid : Text) (w : World)
        → is_empty wallet ≡ false
        → trim wallet ≡ wallet
        → append_entry_and_persist h
            (append_params at_most h s c wallet signature unlock)
            (entry_of_upload file r)
            c.stamp
            c.first
            c.draws
            p.world
          ≡ (ok (m, cid), w)
        → safe_get_manifest_cid h (some wallet) w ≡ (some cid, w)
    unfolding safe_get_manifest_cid
    found_after r m cid w full trimmed appended =
        let params = append_params at_most h s c wallet signature unlock in
        let entry = entry_of_upload file r in
        let (known, checked) =
          append-checked h l params entry c.stamp c.first c.draws (m, cid) p.world w appended in
        let (found, _) =
          subst (Ensures (Appended h l params entry c.stamp known) (λ _. Unit)) appended
            (append-Appended h l params entry c.stamp known c.first c.draws p.world checked) in
        let same : known ≡ wallet = sym (check_params-trim params known checked) ∙ trimmed in
        let at : read_cid h wallet w ≡ (ok (some cid), w) =
          subst (λ (k : Text). read_cid h k w ≡ (ok (some cid), w)) same found in
        ground (arith, full, at)

    refresh-appended :
        (r : UploadResult) (m : Json) (cid : Text) (w : World) (files : List FileItem)
        (list : FileList)
        → gate_file s file ≡ none
        → needed s ≡ ok (wallet, signature, unlock)
        → trim wallet ≡ wallet
        → append_entry_and_persist h
            (append_params at_most h s c wallet signature unlock)
            (entry_of_upload file r)
            c.stamp
            c.first
            c.draws
            p.world
          ≡ (ok (m, cid), w)
        → h.serves cid ≡ true
        → list.in_flight ≡ false
        → text_eq (refresh_key s (some cid)) list.last_key ≡ false
        → manifest_files m ≡ some files
        → refresh_from_manifest at_most h s c.refresh list w
          ≡ (record list { files = files; message = none; last_key = refresh_key s (some cid) }, w)
    refresh-appended r m cid w files list passed have trimmed appended served free fresh reads =
        let latest = on_chain_latest_manifest_cid at_most s in
        let (connected, full, params) =
          gate-load_params s file latest wallet signature unlock passed have in
        refresh-shows at_most h s c.refresh (append_params at_most h s c wallet signature unlock)
          list w w w (some cid) m cid files params
          (ap (λ k. safe_get_manifest_cid h k w) connected
            ∙ found_after r m cid w full trimmed appended)
          free fresh
          (load-append h l (append_params at_most h s c wallet signature unlock)
            (entry_of_upload file r) c.stamp c.refresh.now_iso cid m c.first c.draws c.refresh.draws
            p.world w appended served)
          reads

    -- On a lawful host, where a file passes the gates of handleFile, the wallet has no blanks at
    -- its ends, the upload and the append return, IPFS serves the new CID, no refresh is in flight
    -- and the refresh key is new, the page ends in success with the files of the manifest that the
    -- append returned.
    pub handle_file-shows :
        (r : UploadResult) (context : Context) (m : Json) (cid : Text) (w : World)
        (files : List FileItem)
        → gate_file s file ≡ none
        → needed s ≡ ok (wallet, signature, unlock)
        → trim wallet ≡ wallet
        → upload_encrypted_to_ipfs_or_throw c.upload file wallet p.context ≡ (ok r, context)
        → append_entry_and_persist h
            (append_params at_most h s c wallet signature unlock)
            (entry_of_upload file r)
            c.stamp
            c.first
            c.draws
            p.world
          ≡ (ok (m, cid), w)
        → h.serves cid ≡ true
        → p.list.in_flight ≡ false
        → text_eq (refresh_key s (some cid)) p.list.last_key ≡ false
        → manifest_files m ≡ some files
        → handle_file at_most h s c file p ≡ record {
          ui = record { flow = success; message = none; last_uploaded_cid = some r.cid };
          list = record p.list {
            files = files;
            message = none;
            last_key = refresh_key s (some cid);
          };
          world = w;
          context = context;
        }
    unfolding handle_file upload_file append_upload refresh_page
    handle_file-shows r context m cid w files passed have trimmed uploaded appended served free
          fresh reads =
        ground (
          arith,
          passed,
          have,
          uploaded,
          appended,
          refresh-appended r m cid w files p.list passed have trimmed appended served free fresh
              reads,
        )
