-- ===== src/Manifest/Service/Steps.antt =====
-- What an upload and a write of the pointer leave, and what they leave where they fail.
use sovereign_jedi.Prelude.{
  ◌≡◌, refl, false, some, Text, trim, text_eq, text_eq_refl, Bool-cases, inl, inr, ok, err, arith,
}
use sovereign_jedi.Platform.{Bytes}
use sovereign_jedi.Manifest.Errors.{ManifestError}
use sovereign_jedi.Manifest.Pointer.{set_manifest_cid}
use sovereign_jedi.Manifest.Pointer.Laws.{get_manifest_cid-set_manifest_cid}
use sovereign_jedi.Manifest.Service.{World, Host, put_block, add_bytes, read_cid, write_cid}

module _ (h : Host) where
  pub add_bytes-ok :
      (bytes : Bytes) (cid : Text) (w w' : World)
      → add_bytes h bytes w ≡ (ok cid, w')
      → (cid ≡ h.cid_of bytes) × (w' ≡ put_block h bytes w)
  unfolding add_bytes
  add_bytes-ok bytes cid w w' q = (ground arith, ground arith)

  pub add_bytes-err :
      (bytes : Bytes) (e : ManifestError) (w w' : World)
      → add_bytes h bytes w ≡ (err e, w')
      → w ≡ w'
  unfolding add_bytes
  add_bytes-err bytes e w w' q = elim (Bool-cases (h.accepts bytes)) [
    | inl accepted ↦ absurd (ground arith)
    | inr refused ↦ ground arith
  ]

  pub put_block-here :
      (bytes : Bytes) (w : World) → (put_block h bytes w).blocks (h.cid_of bytes) ≡ some bytes
  unfolding put_block
  put_block-here bytes w = rw (text_eq_refl (h.cid_of bytes)) refl

  pub put_block-other :
      (bytes : Bytes) (w : World) (j : Text)
      → text_eq (h.cid_of bytes) j ≡ false
      → (put_block h bytes w).blocks j ≡ w.blocks j
  unfolding put_block
  put_block-other bytes w j e = rw e refl

module _ (h : Host) (wallet : Text) where
  pub write_cid-ok :
      (cid : Text) (u : Unit) (w w' : World)
      → write_cid h wallet cid w ≡ (ok u, w')
      → (read_cid h wallet w' ≡ (ok (some (trim cid)), w')) × (w'.blocks ≡ w.blocks)
  unfolding write_cid read_cid
  write_cid-ok cid u w w' q =
      let set : set_manifest_cid h.cluster wallet cid w.pointers ≡ (ok tt, w'.pointers) =
        ground arith in
      let get = get_manifest_cid-set_manifest_cid h.cluster wallet w.pointers cid w'.pointers set in
      (rw get refl, ground arith)

  pub write_cid-err :
      (cid : Text) (e : ManifestError) (w w' : World)
      → write_cid h wallet cid w ≡ (err e, w')
      → w ≡ w'
  unfolding write_cid set_manifest_cid
  write_cid-err cid e w w' q = ground arith
