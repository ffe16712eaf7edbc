-- ===== src/Page/Widget/Restores.antt =====
-- What a restore leads to.
use sovereign_jedi.Prelude.{
  ◌≡◌, ap, ◌∙◌, Bool, true, false, none, some, Text, trim, is_empty, ok, arith,
}
use sovereign_jedi.Json.{Json}
use sovereign_jedi.Platform.{Bytes}
use sovereign_jedi.Manifest.Service.{
  World, Host, Draws, Params, loaded, check_params, write_cid, load_manifest_or_init,
}
use sovereign_jedi.Manifest.Service.Steps.{write_cid-ok}
use sovereign_jedi.Manifest.Service.Reopen.{LawfulHost, Holds}
use sovereign_jedi.Manifest.Service.Loads.{load-Holds}
use sovereign_jedi.Page.Widget.{Widget, WidgetSession, head_cid, restore_to, handle_restore}

-- what IPFS holds does not depend on the pointers
pub Holds-blocks :
    (h : Host) (wallet : Text) (signature : Bytes) (cid : Text) (m : Json) (key : Bytes)
    (w w' : World)
    → w'.blocks ≡ w.blocks
    → Holds h wallet signature cid m key w
    → Holds h wallet signature cid m key w'
Holds-blocks h wallet signature cid m key w w' same held = record {
  encrypted = held.encrypted;
  block = ap (λ b. b cid) same ∙ held.block;
  unwraps = held.unwraps;
  decrypts = held.decrypts;
}

module _ (at_most : Text → Text → Bool) (s : WidgetSession) (h : Host) (l : LawfulHost h)
    (p : Params) where
  handle_restore-writes :
      (wallet cid : Text) (u : Unit) (w : Widget) (world world' : World)
      → head_cid at_most s ≡ some cid
      → s.wallet_pub_key ≡ some wallet
      → is_empty cid ≡ false
      → is_empty wallet ≡ false
      → write_cid h wallet cid world ≡ (ok u, world')
      → handle_restore at_most s h w world
        ≡ (record { loading = false; error = none; local_manifest_cid = some cid }, world')
  unfolding handle_restore restore_to
  handle_restore-writes wallet cid u w world world' published connected full there written =
      ground (arith, published, connected, full, there, written)

  -- On a lawful host, where the wallet and the CID of the head of the registry are not empty, the
  -- CID has no blanks at its ends, the pointer can be written, and IPFS serves under it a manifest
  -- that the signature of the load opens, handleRestore shows that CID, and a load of the same
  -- wallet then returns that manifest and changes nothing.
  pub restore-load :
      (wallet cid now_iso : Text) (u : Unit) (m : Json) (key : Bytes) (d : Draws) (w : Widget)
      (world world' : World)
      → head_cid at_most s ≡ some cid
      → s.wallet_pub_key ≡ some wallet
      → is_empty cid ≡ false
      → is_empty wallet ≡ false
      → trim cid ≡ cid
      → check_params p ≡ ok wallet
      → write_cid h wallet cid world ≡ (ok u, world')
      → Holds h wallet p.signature_bytes cid m key world
      → h.serves cid ≡ true
      → (handle_restore at_most s h w world
          ≡ (record { loading = false; error = none; local_manifest_cid = some cid }, world'))
        × (load_manifest_or_init h p now_iso d world' ≡ (ok (loaded m cid), world'))
  restore-load wallet cid now_iso u m key d w world world' published connected full there trimmed
        checked written held served =
      let (found, same) = write_cid-ok h wallet cid u world world' written in
      (
        handle_restore-writes wallet cid u w world world' published connected full there written,
        load-Holds h l p wallet cid now_iso m key d world' checked
            (found ∙ ap (λ (c : Text). (ok (some c), world')) trimmed)
            (Holds-blocks h wallet p.signature_bytes cid m key world world' same held) served,
      )
