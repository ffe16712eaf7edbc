-- ===== src/Page/Refresh/Laws.antt =====
-- What a refresh shows, and what it does where it should not create or hide anything.
use sovereign_jedi.Prelude.{
  ◌≡◌, refl, Bool, true, false, Option, none, some, List, [], Text, text_eq, text_eq_refl, ok,
  arith,
}
use sovereign_jedi.Json.{Json}
use sovereign_jedi.Manifest.Service.{
  World, Host, Params, loaded, given, check_params, read_cid, load_manifest_or_init,
}
use sovereign_jedi.Manifest.Service.Loads.{load-restore_is_required}
use sovereign_jedi.Session.Hook.{SessionState}
use sovereign_jedi.Page.Refresh.{
  FileList, FileItem, RefreshCall, manifest_files, on_chain_latest_manifest_cid,
  safe_get_manifest_cid, refresh_key, load_params, missing_message, show_manifest, show_result,
  refresh_from_manifest,
}

module _ (at_most : Text → Text → Bool) (h : Host) (s : SessionState) (c : RefreshCall) where
  -- A refresh whose load returns shows what it returned.
  pub refresh-shows :
      (p : Params) (l : FileList) (w w' w'' : World) (cid : Option Text) (m : Json) (newest : Text)
      (files : List FileItem)
      → load_params s (on_chain_latest_manifest_cid at_most s) ≡ some p
      → safe_get_manifest_cid h s.wallet_pub_key w ≡ (cid, w')
      → l.in_flight ≡ false
      → text_eq (refresh_key s cid) l.last_key ≡ false
      → load_manifest_or_init h p c.now_iso c.draws w' ≡ (ok (loaded m newest), w'')
      → manifest_files m ≡ some files
      → refresh_from_manifest at_most h s c l w
        ≡ (record l { files = files; message = none; last_key = refresh_key s cid }, w'')
  unfolding refresh_from_manifest show_result show_manifest
  refresh-shows p l w w' w'' cid m newest files given_all pointer free fresh loads reads =
      ground (arith, given_all, pointer, free, fresh, loads, reads)

  -- Where the chain has a manifest and there is no local pointer, a refresh shows an empty list and
  -- changes neither the pointers nor what IPFS holds.
  pub refresh-restore :
      (p : Params) (l : FileList) (w : World) (wallet : Text)
      → load_params s (on_chain_latest_manifest_cid at_most s) ≡ some p
      → given p.on_chain_latest_manifest_cid ≡ true
      → check_params p ≡ ok wallet
      → read_cid h wallet w ≡ (ok none, w)
      → safe_get_manifest_cid h s.wallet_pub_key w ≡ (none, w)
      → l.in_flight ≡ false
      → text_eq (refresh_key s none) l.last_key ≡ false
      → refresh_from_manifest at_most h s c l w ≡ (record l { files = []; message = none }, w)
  unfolding refresh_from_manifest show_result
  refresh-restore p l w wallet given_all elsewhere checked missing pointer free fresh =
      rw
        (
          refresh_from_manifest,
          given_all,
          pointer,
          free,
          fresh,
          load-restore_is_required h p wallet c.now_iso c.draws w checked missing elsewhere,
        )
        refl

  -- Without the wallet, the material or the gate, a refresh empties the list and keeps the key of
  -- the last load.
  pub refresh-refused :
      (l : FileList) (w w' : World) (cid : Option Text)
      → load_params s (on_chain_latest_manifest_cid at_most s) ≡ none
      → safe_get_manifest_cid h s.wallet_pub_key w ≡ (cid, w')
      → refresh_from_manifest at_most h s c l w
        ≡ (record l { files = []; message = missing_message s }, w')
  unfolding refresh_from_manifest
  refresh-refused l w w' cid refused pointer = ground (arith, pointer, refused)

  -- A refresh with the key of the last load does nothing unless it is manual.
  pub refresh-same_key :
      (p : Params) (l : FileList) (w w' : World) (cid : Option Text)
      → load_params s (on_chain_latest_manifest_cid at_most s) ≡ some p
      → safe_get_manifest_cid h s.wallet_pub_key w ≡ (cid, w')
      → l.in_flight ≡ false
      → l.last_key ≡ refresh_key s cid
      → c.manual ≡ false
      → refresh_from_manifest at_most h s c l w ≡ (l, w')
  unfolding refresh_from_manifest
  refresh-same_key p l w w' cid given_all pointer free same automatic =
      rw
        (
          refresh_from_manifest,
          given_all,
          pointer,
          free,
          same,
          text_eq_refl (refresh_key s cid),
          automatic,
        )
        refl

no_wallet :
    (latest : Option Text) (s : SessionState)
    → s.wallet_pub_key ≡ none
    → load_params s latest ≡ none
unfolding load_params
no_wallet latest s nobody = rw nobody refl

no_pointer :
    (h : Host) (s : SessionState) (w : World)
    → s.wallet_pub_key ≡ none
    → safe_get_manifest_cid h s.wallet_pub_key w ≡ (none, w)
unfolding safe_get_manifest_cid
no_pointer h s w nobody = rw nobody refl

-- three refreshes: with a session, without it, and with it again
unfoldable pub leave_and_return :
    (Text → Text → Bool)
    → Host
    → SessionState
    → SessionState
    → RefreshCall
    → RefreshCall
    → RefreshCall
    → FileList
    → World
    → FileList × World
leave_and_return at_most h s gone c c' c'' l w =
    let shown = refresh_from_manifest at_most h s c l w in
    let left = refresh_from_manifest at_most h gone c' shown.0 shown.1 in
    refresh_from_manifest at_most h s c'' left.0 left.1

-- If a refresh shows the files of a manifest that the load returns without a change, a refresh
-- without the wallet and then one that is not manual, with the session as before, leave an empty
-- list.
pub reconnect-empty :
    (at_most : Text → Text → Bool) (h : Host) (s gone : SessionState) (c c' c'' : RefreshCall)
    (p : Params) (l : FileList) (w : World) (cid : Option Text) (m : Json) (newest : Text)
    (files : List FileItem)
    → load_params s (on_chain_latest_manifest_cid at_most s) ≡ some p
    → safe_get_manifest_cid h s.wallet_pub_key w ≡ (cid, w)
    → l.in_flight ≡ false
    → text_eq (refresh_key s cid) l.last_key ≡ false
    → load_manifest_or_init h p c.now_iso c.draws w ≡ (ok (loaded m newest), w)
    → manifest_files m ≡ some files
    → gone.wallet_pub_key ≡ none
    → c''.manual ≡ false
    → (leave_and_return at_most h s gone c c' c'' l w).0
      ≡ record l { files = []; message = missing_message gone; last_key = refresh_key s cid }
unfolding leave_and_return
reconnect-empty at_most h s gone c c' c'' p l w cid m newest files given_all pointer free fresh
      loads reads nobody automatic =
    rw
      (
        refresh-shows at_most h s c p l w w w cid m newest files given_all pointer free fresh loads
            reads,
        refresh-refused at_most h gone c'
            (record l { files = files; message = none; last_key = refresh_key s cid }) w w none
            (no_wallet (on_chain_latest_manifest_cid at_most gone) gone nobody)
            (no_pointer h gone w nobody),
        refresh-same_key at_most h s c'' p
            (record l { files = []; message = missing_message gone; last_key = refresh_key s cid })
            w w cid given_all pointer free refl automatic,
      )
      refl
