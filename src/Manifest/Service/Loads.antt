-- ===== src/Manifest/Service/Loads.antt =====
-- What a load does after a load, and where the local pointer is missing.
use sovereign_jedi.Prelude.{
  ◌≡◌, refl, subst, true, Option, none, some, Text, ok, arith, Outcome-cases, Bool-cases, inl, inr,
}
use sovereign_jedi.Prelude.Methods.{◌>>=◌, Ensures, Ensures-bind, Ensures-call, Ensures-step}
use sovereign_jedi.Json.{Json}
use sovereign_jedi.Platform.{Bytes}
use sovereign_jedi.Crypto.Kek.{derive_vault_root_kek_from_signature}
use sovereign_jedi.Manifest.Errors.{from_crypto}
use sovereign_jedi.Manifest.Cipher.{derive_manifest_key}
use sovereign_jedi.Manifest.Service.{
  World, Host, Draws, Params, LoadManifestResult, loaded, created, restore_is_required, given,
  check_params, read_cid, store_manifest, empty_manifest, init_manifest, load_current,
  load_or_init_at, load_manifest_or_init, open_manifest,
}
use sovereign_jedi.Manifest.Service.Reopen.{
  LawfulHost, Holds, open_manifest-Holds, Stored, store_manifest-Stored,
}

module _ (h : Host) (l : LawfulHost h) (p : Params) where
  -- A load with a pointer on what IPFS holds and serves returns it.
  pub load-Holds :
      (wallet cid now_iso : Text) (manifest : Json) (key : Bytes) (d : Draws) (w : World)
      → check_params p ≡ ok wallet
      → read_cid h wallet w ≡ (ok (some cid), w)
      → Holds h wallet p.signature_bytes cid manifest key w
      → h.serves cid ≡ true
      → load_manifest_or_init h p now_iso d w ≡ (ok (loaded manifest cid), w)
  unfolding load_manifest_or_init load_or_init_at load_current ◌>>=◌
  load-Holds wallet cid now_iso manifest key d w checked found held served =
      rw
        (
          checked,
          found,
          open_manifest-Holds h l wallet p.signature_bytes cid manifest key w held served,
        )
        refl

  module _ (wallet : Text) (checked : check_params p ≡ ok wallet) where
    -- The pointer is on the created manifest, which IPFS holds.
    abbrev pub Reopens : LoadManifestResult → World → Type 0
    Reopens (created m cid) w =
        (read_cid h wallet w ≡ (ok (some cid), w))
        × ((key : Bytes) × Holds h wallet p.signature_bytes cid m key w)
    Reopens (loaded m cid) w = Unit
    Reopens restore_is_required w = Unit

    init-Reopens :
        (now_iso : Text) (d : Draws) (w : World)
        → Ensures Reopens (λ _. Unit) (init_manifest h wallet p.signature_bytes now_iso d w)
    unfolding init_manifest ◌>>=◌
    init-Reopens now_iso d w =
        let m = empty_manifest h wallet now_iso in
        Ensures-call Reopens (λ _. Unit)
          (from_crypto (derive_vault_root_kek_from_signature h.platform p.signature_bytes)) _ w tt
          λ kek derived.
            Ensures-call Reopens (λ _. Unit) (derive_manifest_key h.platform kek) _ w tt
              λ key made.
                Ensures-bind (Stored h l wallet p.signature_bytes w m key) Reopens (λ _. Unit)
                  (store_manifest h wallet kek key m d w) _
                  (store_manifest-Stored h l wallet p.signature_bytes (λ _. Unit) kek key m d w
                    derived tt (λ _. tt))
                  λ cid w' stored. (stored.1, (key, stored.0))

    pub at-Reopens :
        (now_iso : Text) (d : Draws) (found : Option Text) (w : World)
        → Ensures Reopens (λ _. Unit) (load_or_init_at h p wallet now_iso d found w)
    unfolding load_or_init_at load_current ◌>>=◌
    at-Reopens now_iso d (some cid) w =
        Ensures-step Reopens (λ _. Unit) (open_manifest h wallet p.signature_bytes cid w) _
          (λ e s q. tt) λ opened w' q. tt
    at-Reopens now_iso d none w = elim (Bool-cases (given p.on_chain_latest_manifest_cid)) [
      | inl elsewhere ↦ rw elsewhere tt
      | inr nowhere ↦ rw nowhere (init-Reopens now_iso d w)
    ]

    pub load-Reopens :
        (now_iso : Text) (d : Draws) (w : World)
        → Ensures Reopens (λ _. Unit) (load_manifest_or_init h p now_iso d w)
    unfolding load_manifest_or_init ◌>>=◌
    load-Reopens now_iso d w = rw checked (
        Ensures-step Reopens (λ _. Unit) (read_cid h wallet w) _ (λ e s q. tt)
          λ found w1 q. at-Reopens now_iso d found w1)

  load-checked :
      (now_iso : Text) (d : Draws) (r : LoadManifestResult) (w w' : World)
      → load_manifest_or_init h p now_iso d w ≡ (ok r, w')
      → (wallet : Text) × (check_params p ≡ ok wallet)
  unfolding load_manifest_or_init ◌>>=◌
  load-checked now_iso d r w w' q = elim (Outcome-cases (check_params p)) [
    | inl found ↦ found
    | inr (e, refused) ↦ absurd (ground (arith, refused))
  ]

  -- Once a load has created a manifest, every later load with the same arguments returns that
  -- manifest from its CID and changes nothing, provided IPFS serves the CID and the host is
  -- lawful.
  pub load-created :
      (now_iso later cid : Text) (manifest : Json) (d d' : Draws) (w w' : World)
      → load_manifest_or_init h p now_iso d w ≡ (ok (created manifest cid), w')
      → h.serves cid ≡ true
      → load_manifest_or_init h p later d' w' ≡ (ok (loaded manifest cid), w')
  load-created now_iso later cid manifest d d' w w' q served =
      let (wallet, checked) = load-checked now_iso d (created manifest cid) w w' q in
      let (found, (key, held)) =
        subst (Ensures (Reopens wallet checked) (λ _. Unit)) q
          (load-Reopens wallet checked now_iso d w) in
      load-Holds wallet cid later manifest key d' w' checked found held served

-- If the arguments pass the checks, there is no local pointer, and a CID from the chain is given,
-- a load reports that a restore is required and changes nothing.
pub load-restore_is_required :
    (h : Host) (p : Params) (wallet now_iso : Text) (d : Draws) (w : World)
    → check_params p ≡ ok wallet
    → read_cid h wallet w ≡ (ok none, w)
    → given p.on_chain_latest_manifest_cid ≡ true
    → load_manifest_or_init h p now_iso d w ≡ (ok restore_is_required, w)
unfolding load_manifest_or_init load_or_init_at ◌>>=◌
load-restore_is_required h p wallet now_iso d w checked found elsewhere =
    rw (checked, found, elsewhere) refl
