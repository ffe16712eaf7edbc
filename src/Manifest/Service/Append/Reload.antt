-- ===== src/Manifest/Service/Append/Reload.antt =====
-- What a load returns after an append.
use sovereign_jedi.Prelude.{
  ◌≡◌, subst, true, some, Text, ok, arith, Outcome-cases, inl, inr, Returns,
}
use sovereign_jedi.Prelude.Methods.{◌>>=◌, ◌>>◌, Ensures, Ensures-bind, Ensures-call, Ensures-step}
use sovereign_jedi.Json.{Json}
use sovereign_jedi.Platform.{Bytes}
use sovereign_jedi.Crypto.Kek.{derive_vault_root_kek_from_signature}
use sovereign_jedi.Manifest.Errors.{from_crypto}
use sovereign_jedi.Manifest.Service.{
  World, Host, Draws, Params, loaded, check_params, read_cid, open_manifest, store_manifest,
  load_manifest_or_init,
}
use sovereign_jedi.Manifest.Service.Reopen.{LawfulHost, Holds, Stored, store_manifest-Stored}
use sovereign_jedi.Manifest.Service.Loads.{load-Holds}
use sovereign_jedi.Manifest.Service.Entry.{NewEntry, Stamp, merge_entry}
use sovereign_jedi.Manifest.Service.Entry.Merge.{Merged, merge_entry-Merged}
use sovereign_jedi.Manifest.Service.Append.{
  required_cid, ensure_manifest, append_to_current, append_entry_and_persist,
}

module _ (h : Host) (l : LawfulHost h) (p : Params) (entry : NewEntry) (s : Stamp) where
  module _ (wallet : Text) where
    -- The pointer is on the manifest returned, which IPFS holds.
    abbrev pub Appended : Json × Text → World → Type 0
    Appended r w =
        (read_cid h wallet w ≡ (ok (some r.1), w))
        × ((key : Bytes) × Holds h wallet p.signature_bytes r.1 r.0 key w)

    to_current-Appended :
        (d : Draws) (w : World)
        → Ensures Appended (λ _. Unit) (append_to_current h wallet p.signature_bytes entry s d w)
    unfolding append_to_current ◌>>=◌
    to_current-Appended d w =
        Ensures-step Appended (λ _. Unit) (read_cid h wallet w) _ (λ e t q. tt)
          λ found w1 q1.
            Ensures-call Appended (λ _. Unit) (required_cid h found) _ w1 tt
              λ cid q2.
                Ensures-step Appended (λ _. Unit) (open_manifest h wallet p.signature_bytes cid w1)
                  _ (λ e t q. tt)
                  λ opened w2 q3.
                    Ensures-call Appended (λ _. Unit) (merge_entry entry s opened.0) _ w2 tt
                      λ m q4.
                        Ensures-call Appended (λ _. Unit)
                          (from_crypto
                            (derive_vault_root_kek_from_signature h.platform p.signature_bytes))
                          _ w2 tt
                          λ kek derived.
                            Ensures-bind (Stored h l wallet p.signature_bytes w2 m opened.1)
                              Appended (λ _. Unit) (store_manifest h wallet kek opened.1 m d w2) _
                              (store_manifest-Stored h l wallet p.signature_bytes (λ _. Unit) kek
                                opened.1 m d w2 derived tt (λ _. tt))
                              λ cid' w' stored. (stored.1, (opened.1, stored.0))

    pub append-Appended :
        (first d : Draws) (w : World)
        → check_params p ≡ ok wallet
        → Ensures Appended (λ _. Unit) (append_entry_and_persist h p entry s first d w)
    unfolding append_entry_and_persist ◌>>=◌ ◌>>◌
    append-Appended first d w checked = rw checked (
        Ensures-step Appended (λ _. Unit) (read_cid h wallet w) _ (λ e t q. tt)
          λ found w1 q1.
            Ensures-step Appended (λ _. Unit)
              (ensure_manifest h p wallet s.created_iso first found w1) _ (λ e t q. tt)
              λ u w2 q2. to_current-Appended d w2)

  pub append-checked :
      (first d : Draws) (r : Json × Text) (w w' : World)
      → append_entry_and_persist h p entry s first d w ≡ (ok r, w')
      → (wallet : Text) × (check_params p ≡ ok wallet)
  unfolding append_entry_and_persist ◌>>=◌
  append-checked first d r w w' q = elim (Outcome-cases (check_params p)) [
    | inl found ↦ found
    | inr (e, refused) ↦ absurd (ground (arith, refused))
  ]

  -- After an append has returned a manifest and a CID, whether or not it created a manifest first,
  -- a load with the same arguments returns just these and changes nothing, provided IPFS serves
  -- the CID and the host is lawful.
  pub load-append :
      (later cid : Text) (manifest : Json) (first d d' : Draws) (w w' : World)
      → append_entry_and_persist h p entry s first d w ≡ (ok (manifest, cid), w')
      → h.serves cid ≡ true
      → load_manifest_or_init h p later d' w' ≡ (ok (loaded manifest cid), w')
  load-append later cid manifest first d d' w w' q served =
      let (wallet, checked) = append-checked first d (manifest, cid) w w' q in
      let (found, (key, held)) =
        subst (Ensures (Appended wallet) (λ _. Unit)) q
          (append-Appended wallet first d w checked) in
      load-Holds h l p wallet cid later manifest key d' w' checked found held served

module _ (h : Host) (p : Params) (entry : NewEntry) (s : Stamp) (wallet cid : Text) where
  append-Merged :
      (old : Json) (key : Bytes) (first d : Draws) (w : World)
      → check_params p ≡ ok wallet
      → read_cid h wallet w ≡ (ok (some cid), w)
      → open_manifest h wallet p.signature_bytes cid w ≡ (ok (old, key), w)
      → Ensures
          (λ r _. Merged entry s old r.0)
          (λ _. Unit)
          (append_entry_and_persist h p entry s first d w)
  unfolding append_entry_and_persist append_to_current ensure_manifest ◌>>=◌ ◌>>◌
  append-Merged old key first d w checked found opened =
      let Q : Json × Text → World → Type 0 = λ r _. Merged entry s old r.0 in
      rw (checked, found, found, opened)
        (Ensures-call Q (λ _. Unit) (merge_entry entry s old) _ w tt
          λ m q.
            let merged = subst (Returns (Merged entry s old)) q (merge_entry-Merged entry s old) in
            Ensures-call Q (λ _. Unit)
              (from_crypto (derive_vault_root_kek_from_signature h.platform p.signature_bytes)) _ w
              tt
              λ kek derived.
                Ensures-step Q (λ _. Unit) (store_manifest h wallet kek key m d w) _ (λ e t q'. tt)
                  λ cid' w' q'. merged)

  -- If the arguments pass the checks, the pointer is on a CID whose manifest opens, and an append
  -- returns, then the entries of the manifest returned are the old ones, if one of them has the id
  -- of the new entry or its CID and date, and otherwise the old ones in their order and after them
  -- one with the id, CID, date and envelope of the new entry; updatedAt is the new date, and
  -- version, walletPubKey and createdAt are as they were.
  pub append-entries :
      (old manifest : Json) (key : Bytes) (new_cid : Text) (first d : Draws) (w w' : World)
      → check_params p ≡ ok wallet
      → read_cid h wallet w ≡ (ok (some cid), w)
      → open_manifest h wallet p.signature_bytes cid w ≡ (ok (old, key), w)
      → append_entry_and_persist h p entry s first d w ≡ (ok (manifest, new_cid), w')
      → Merged entry s old manifest
  append-entries old manifest key new_cid first d w w' checked found opened q =
      subst (Ensures (λ r _. Merged entry s old r.0) (λ _. Unit)) q
        (append-Merged old key first d w checked found opened)
