-- ===== src/Manifest/Service/Reopen.antt =====
-- Opening what the service has stored.
use sovereign_jedi.Prelude.{◌≡◌, ◌∙◌, sym, subst, true, false, some, Text, trim, text_eq, ok, arith}
use sovereign_jedi.Prelude.Methods.{◌>>=◌, ◌>>◌, Ensures, Ensures-call, Ensures-step}
use sovereign_jedi.Json.{Json}
use sovereign_jedi.Platform.{Lawful, Bytes, encode_json, decode-encode}
use sovereign_jedi.Crypto.Kek.{derive_vault_root_kek_from_signature}
use sovereign_jedi.Manifest.Errors.{from_crypto}
use sovereign_jedi.Manifest.Cipher.{encrypt_manifest_v1, decrypt_manifest_v1}
use sovereign_jedi.Manifest.Cipher.Opens.{decrypt-encrypt, envelope-encrypt}
use sovereign_jedi.Manifest.Wrap.{build_manifest_wrap_envelope, unwrap_manifest_key}
use sovereign_jedi.Manifest.Wrap.Opens.{unwrap-build}
use sovereign_jedi.Manifest.Service.Steps.{
  add_bytes-ok, add_bytes-err, put_block-here, put_block-other, write_cid-ok, write_cid-err,
}
use sovereign_jedi.Manifest.Service.{
  World, Host, Draws, put_block, add_bytes, cat_bytes, read_cid, write_cid, open_manifest,
  store_manifest,
}

-- A lawful host, on which a CID has no blanks at its ends.
pub record LawfulHost (h : Host) : Type 0 where
  pub platform : Lawful h.platform
  pub cid_trimmed : (b : Bytes) → trim (h.cid_of b) ≡ h.cid_of b

-- IPFS holds the manifest under `cid`, in a form that the wallet's signature opens.
pub record Holds (h : Host) (wallet : Text) (signature : Bytes) (cid : Text) (manifest : Json)
    (manifest_key : Bytes) (w : World) : Type 0 where
  pub encrypted : Json
  pub block : w.blocks cid ≡ some (encode_json h.platform encrypted)
  pub unwraps : unwrap_manifest_key h.platform encrypted wallet signature ≡ ok manifest_key
  pub decrypts : decrypt_manifest_v1 h.platform encrypted manifest_key wallet ≡ ok manifest

module _ (h : Host) (l : LawfulHost h) (wallet : Text) (signature : Bytes) where
  pub open_manifest-Holds :
      (cid : Text) (manifest : Json) (key : Bytes) (w : World)
      → Holds h wallet signature cid manifest key w
      → h.serves cid ≡ true
      → open_manifest h wallet signature cid w ≡ (ok (manifest, key), w)
  unfolding open_manifest cat_bytes ◌>>=◌
  open_manifest-Holds cid manifest key w held served = ground (
    arith,
    held.block,
    held.unwraps,
    held.decrypts,
    decode-encode h.platform l.platform held.encrypted,
  )

  -- what a successful upload and write of the pointer leaves
  abbrev pub Stored : World → Json → Bytes → Text → World → Type 0
  Stored w manifest key cid w' =
      Holds h wallet signature cid manifest key w'
      × (read_cid h wallet w' ≡ (ok (some cid), w'))
      × ((j : Text) → text_eq cid j ≡ false → w'.blocks j ≡ w.blocks j)

  -- `storeManifest` of a manifest under a key ends, if it returns, with IPFS holding it in a form
  -- that opens, the pointer on it, and the other blocks unchanged; if it throws, whatever `R` says.
  pub store_manifest-Stored :
      (R : World → Type 0) (kek key : Bytes) (manifest : Json) (d : Draws) (w : World)
      → from_crypto (derive_vault_root_kek_from_signature h.platform signature) ≡ ok kek
      → R w
      → ((bytes : Bytes) → R (put_block h bytes w))
      → Ensures (Stored w manifest key) R (store_manifest h wallet kek key manifest d w)
  unfolding store_manifest ◌>>=◌ ◌>>◌
  store_manifest-Stored R kek key manifest d w derived start uploaded =
      Ensures-call (Stored w manifest key) R
        (build_manifest_wrap_envelope h.platform wallet kek key d.salt d.wrap_nonce) _ w start
        λ env built.
          Ensures-call (Stored w manifest key) R
            (encrypt_manifest_v1 h.platform manifest key wallet env d.nonce) _ w start
            λ encrypted made.
              Ensures-step (Stored w manifest key) R
                (add_bytes h (encode_json h.platform encrypted) w) _
                (λ e s q. subst R (add_bytes-err h _ e w s q) start)
                λ cid w1 added.
                  Ensures-step (Stored w manifest key) R (write_cid h wallet cid w1) _
                    (λ e s q.
                      subst R
                        (sym (add_bytes-ok h _ cid w w1 added).1
                          ∙ write_cid-err h wallet cid e w1 s q)
                        (uploaded _))
                    λ u w2 written.
                      let (named, put) =
                        add_bytes-ok h (encode_json h.platform encrypted) cid w w1 added in
                      let (found, kept) = write_cid-ok h wallet cid u w1 w2 written in
                      (
                        record {
                          encrypted = encrypted;
                          block = ground (
                            arith,
                            kept,
                            put,
                            named,
                            put_block-here h (encode_json h.platform encrypted) w,
                          );
                          unwraps =
                              unwrap-build h.platform wallet kek key d.salt d.wrap_nonce l.platform
                                env encrypted signature derived built
                                (envelope-encrypt h.platform l.platform manifest key wallet env
                                  d.nonce encrypted made);
                          decrypts =
                              decrypt-encrypt h.platform l.platform manifest key wallet env d.nonce
                                encrypted made;
                        },
                        ground
                            (arith, found, named, l.cid_trimmed (encode_json h.platform encrypted)),
                        λ j e. ground (
                          arith,
                          kept,
                          put,
                          named,
                          e,
                          put_block-other h (encode_json h.platform encrypted) w j,
                        ),
                      )
