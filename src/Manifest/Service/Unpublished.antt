-- ===== src/Manifest/Service/Unpublished.antt =====
-- A load that is not told of the published manifest, and a later one that is.
use sovereign_jedi.Prelude.{◌≡◌, subst, true, none, some, Text, ok}
use sovereign_jedi.Prelude.Methods.{Ensures}
use sovereign_jedi.Json.{Json}
use sovereign_jedi.Manifest.Service.{
  World, Host, Draws, Params, loaded, created, restore_is_required, given, check_params, read_cid,
  load_manifest_or_init,
}
use sovereign_jedi.Manifest.Service.Reopen.{LawfulHost}
use sovereign_jedi.Manifest.Service.Loads.{
  Reopens, load-Reopens, load-Holds, load-restore_is_required,
}

check_params-same :
    (p : Params) (latest wallet : Text)
    → check_params p ≡ ok wallet
    → check_params (record p { on_chain_latest_manifest_cid = some latest }) ≡ ok wallet
unfolding check_params
check_params-same p latest wallet checked = checked

-- On a lawful host with no local pointer, a load that is given a CID from the chain asks for a
-- restore; but once a load that is not given it has created a manifest that IPFS serves, the load
-- that is given it returns that manifest.
pub load-unpublished :
    (h : Host) (l : LawfulHost h) (p : Params) (wallet latest cid now_iso later : Text) (m : Json)
    (d d' : Draws) (w w' : World)
    → check_params p ≡ ok wallet
    → given (some latest) ≡ true
    → read_cid h wallet w ≡ (ok none, w)
    → load_manifest_or_init h p now_iso d w ≡ (ok (created m cid), w')
    → h.serves cid ≡ true
    → (load_manifest_or_init h (record p { on_chain_latest_manifest_cid = some latest }) now_iso d w
        ≡ (ok restore_is_required, w))
      × (load_manifest_or_init h
            (record p { on_chain_latest_manifest_cid = some latest })
            later
            d'
            w'
          ≡ (ok (loaded m cid), w'))
load-unpublished h l p wallet latest cid now_iso later m d d' w w' checked published missing made
      served =
    let p' : Params = record p { on_chain_latest_manifest_cid = some latest } in
    let (found, (key, held)) =
      subst (Ensures (Reopens h l p wallet checked) (λ _. Unit)) made
        (load-Reopens h l p wallet checked now_iso d w) in
    (
      load-restore_is_required h p' wallet now_iso d w (check_params-same p latest wallet checked)
          missing published,
      load-Holds h l p' wallet cid later m key d' w' (check_params-same p latest wallet checked)
          found held served,
    )
