-- ===== src/Manifest/Service/Append/Failure.antt =====
-- What an append that throws leaves behind.
use sovereign_jedi.Prelude.{
  ◌≡◌, refl, sym, subst, ◌∙◌, ap, true, none, some, Text, trim-trim, ok, err, arith, Bool-cases,
  Option-cases, inl, inr,
}
use sovereign_jedi.Prelude.Methods.{◌>>=◌, ◌>>◌, Ensures, Ensures-bind, Ensures-call, Ensures-step}
use sovereign_jedi.Json.{Json}
use sovereign_jedi.Platform.{Bytes, encode_json}
use sovereign_jedi.Crypto.Kek.{derive_vault_root_kek_from_signature}
use sovereign_jedi.Manifest.Errors.{ManifestError, blank_file_cid, from_crypto}
use sovereign_jedi.Manifest.Cipher.{is_blank, encrypt_manifest_v1, decrypt_manifest_v1}
use sovereign_jedi.Manifest.Wrap.{build_manifest_wrap_envelope, unwrap_manifest_key}
use sovereign_jedi.Manifest.Service.{
  World, Host, Draws, Params, created, check_params, parse_object, put_block, add_bytes, cat_bytes,
  read_cid, write_cid, open_manifest, store_manifest, load_manifest_or_init,
}
use sovereign_jedi.Manifest.Service.Steps.{add_bytes-ok, add_bytes-err, write_cid-err}
use sovereign_jedi.Manifest.Service.Reopen.{LawfulHost, open_manifest-Holds}
use sovereign_jedi.Manifest.Service.Loads.{Reopens, load-Reopens}
use sovereign_jedi.Manifest.Service.Entry.{NewEntry, Stamp, check_entry, merge_entry}
use sovereign_jedi.Manifest.Service.Append.{
  ensure_manifest, append_to_current, append_entry_and_persist,
}

module _ (h : Host) where
  abbrev Same : {A : Type 0} → World → A → World → Type 0
  Same w a w' = w' ≡ w

  cat_bytes-keeps :
      (R : World → Type 0) (cid : Text) (w : World) → R w → Ensures (Same w) R (cat_bytes h cid w)
  unfolding cat_bytes
  cat_bytes-keeps R cid w start = elim (Bool-cases (h.serves cid)) [
    | inr refused ↦ rw refused start
    | inl served ↦ elim (Option-cases (w.blocks cid)) [
      | inl missing ↦ rw (served, missing) start
      | inr (b, found) ↦ rw (served, found) refl
    ]
  ]

  open_manifest-keeps :
      (R : World → Type 0) (wallet : Text) (signature : Bytes) (cid : Text) (w : World)
      → R w
      → Ensures (Same w) R (open_manifest h wallet signature cid w)
  unfolding open_manifest ◌>>=◌
  open_manifest-keeps R wallet signature cid w start =
      Ensures-bind (Same w) (Same w) R (cat_bytes h cid w) _ (cat_bytes-keeps R cid w start)
        λ b w' same.
          Ensures-call (Same w) R (parse_object h b) _ w' (subst R (sym same) start) λ encrypted q1.
            Ensures-call (Same w) R (unwrap_manifest_key h.platform encrypted wallet signature) _ w'
              (subst R (sym same) start)
              λ key q2.
                Ensures-call (Same w) R (decrypt_manifest_v1 h.platform encrypted key wallet) _ w'
                  (subst R (sym same) start) λ m q3. same

  abbrev SamePointers : World → World → Type 0
  SamePointers w w' = w'.pointers ≡ w.pointers

  store_manifest-err :
      (wallet : Text) (kek key : Bytes) (m : Json) (d : Draws) (w0 w : World)
      → SamePointers w0 w
      → Ensures (λ (cid : Text) _. Unit) (SamePointers w0) (store_manifest h wallet kek key m d w)
  unfolding store_manifest put_block ◌>>=◌ ◌>>◌
  store_manifest-err wallet kek key m d w0 w start =
      let T : Text → World → Type 0 = λ cid _. Unit in
      let R = SamePointers w0 in
      Ensures-call T R (build_manifest_wrap_envelope h.platform wallet kek key d.salt d.wrap_nonce)
        _ w start
        λ env q1.
          Ensures-call T R (encrypt_manifest_v1 h.platform m key wallet env d.nonce) _ w start
            λ encrypted q2.
              let bytes = encode_json h.platform encrypted in
              Ensures-step T R (add_bytes h bytes w) _
                (λ e t q. subst R (add_bytes-err h bytes e w t q) start)
                λ cid w1 added.
                  Ensures-step T R (write_cid h wallet cid w1) _
                    (λ e t q.
                      subst R
                        (sym (add_bytes-ok h bytes cid w w1 added).1
                          ∙ write_cid-err h wallet cid e w1 t q)
                        start)
                    λ u w2 q. tt

module _ (h : Host) (p : Params) (entry : NewEntry) (s : Stamp) (wallet cid : Text) where
  append-SamePointers :
      (first d : Draws) (w : World)
      → check_params p ≡ ok wallet
      → read_cid h wallet w ≡ (ok (some cid), w)
      → Ensures
          (λ (r : Json × Text) _. Unit)
          (SamePointers h w)
          (append_entry_and_persist h p entry s first d w)
  unfolding append_entry_and_persist append_to_current ensure_manifest ◌>>=◌ ◌>>◌
  append-SamePointers first d w checked found =
      let T : Json × Text → World → Type 0 = λ cid _. Unit in
      let R = SamePointers h w in
      rw (checked, found, found)
        (Ensures-bind (Same h w) T R (open_manifest h wallet p.signature_bytes cid w) _
          (open_manifest-keeps h R wallet p.signature_bytes cid w refl)
          λ opened w1 same.
            Ensures-call T R (merge_entry entry s opened.0) _ w1
              (ap (λ (v : World). v.pointers) same)
              λ m q1.
                Ensures-call T R
                  (from_crypto (derive_vault_root_kek_from_signature h.platform p.signature_bytes))
                  _ w1 (ap (λ (v : World). v.pointers) same)
                  λ kek q2.
                    Ensures-bind (λ (c : Text) _. Unit) T R
                      (store_manifest h wallet kek opened.1 m d w1) _
                      (store_manifest-err h wallet kek opened.1 m d w w1
                        (ap (λ (v : World). v.pointers) same))
                      λ c w2 u. tt)

  -- If the arguments pass the checks, the pointer is on a CID under the scoped key when an append
  -- begins, and the append throws at whatever point, then the local pointers are as they were.
  pub append-err :
      (first d : Draws) (e : ManifestError) (w w' : World)
      → check_params p ≡ ok wallet
      → read_cid h wallet w ≡ (ok (some cid), w)
      → append_entry_and_persist h p entry s first d w ≡ (err e, w')
      → w'.pointers ≡ w.pointers
  append-err first d e w w' checked found q =
      subst (Ensures (λ (r : Json × Text) _. Unit) (SamePointers h w)) q
        (append-SamePointers first d w checked found)

check_params-trimmed :
    (p : Params) (wallet : Text)
    → check_params p ≡ ok wallet
    → check_params (record p { wallet_pub_key = wallet }) ≡ ok wallet
unfolding check_params
check_params-trimmed p wallet q = ground (arith, trim-trim p.wallet_pub_key)

check_entry-blank :
    (entry : NewEntry) (m : Json) (s : Stamp)
    → is_blank entry.file_cid ≡ true
    → merge_entry entry s m ≡ err blank_file_cid
unfolding merge_entry check_entry
check_entry-blank entry m s blank = rw blank refl

-- An append with no pointer and a blank file CID is refused only after it has created an empty
-- manifest, whose upload and pointer stay, on a lawful host, where the init succeeds and IPFS
-- serves its CID.
pub append-init_kept :
    (h : Host) (l : LawfulHost h) (p : Params) (entry : NewEntry) (s : Stamp) (wallet cid : Text)
    (m : Json) (first d : Draws) (w w1 : World)
    → check_params p ≡ ok wallet
    → read_cid h wallet w ≡ (ok none, w)
    → load_manifest_or_init h (record p { wallet_pub_key = wallet }) s.created_iso first w
      ≡ (ok (created m cid), w1)
    → h.serves cid ≡ true
    → is_blank entry.file_cid ≡ true
    → (append_entry_and_persist h p entry s first d w ≡ (err blank_file_cid, w1))
      × (read_cid h wallet w1 ≡ (ok (some cid), w1))
unfolding append_entry_and_persist append_to_current ensure_manifest ◌>>=◌ ◌>>◌
append-init_kept h l p entry s wallet cid m first d w w1 checked absent init served blank =
    let q = record p { wallet_pub_key = wallet } in
    let trimmed = check_params-trimmed p wallet checked in
    let (found, (key, held)) =
      subst (Ensures (Reopens h l q wallet trimmed) (λ _. Unit)) init
        (load-Reopens h l q wallet trimmed s.created_iso first w) in
    (
      rw
          (
            checked,
            absent,
            init,
            found,
            open_manifest-Holds h l wallet p.signature_bytes cid m key w1 held served,
            check_entry-blank entry m s blank,
          )
          refl,
      found,
    )
