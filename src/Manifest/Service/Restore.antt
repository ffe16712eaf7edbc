-- ===== src/Manifest/Service/Restore.antt =====
-- When a load asks for a restore.
use sovereign_jedi.Prelude.{
  ◌≡◌, refl, Bool, true, false, Option, none, some, Text, trim, is_empty, not, ◌&&◌, ◌⊎◌, inl, inr,
  Outcome, ok, err, arith, Bool-cases, Option-cases,
}
use sovereign_jedi.Prelude.Methods.{◌>>=◌, Ensures, Ensures-call, Ensures-step}
use sovereign_jedi.Crypto.Kek.{derive_vault_root_kek_from_signature}
use sovereign_jedi.Manifest.Errors.{ManifestError, from_crypto}
use sovereign_jedi.Manifest.Cipher.{derive_manifest_key}
use sovereign_jedi.Manifest.Pointer.{
  canonicalize_wallet_pub_key, scoped_key, legacy_key, cid_found, migrate, read_pointer,
  get_manifest_cid,
}
use sovereign_jedi.Manifest.Service.{
  World, Host, Draws, Params, LoadManifestResult, restore_is_required, check_params, read_cid,
  open_manifest, store_manifest, init_manifest, load_current, load_or_init_at,
  load_manifest_or_init, empty_manifest,
}
use sovereign_jedi.Manifest.Service.Loads.{load-restore_is_required}

-- a value that is absent or blank
abbrev pub blank : Option Text → Bool
blank none = true
blank (some t) = is_empty (trim t)

abbrev pub there : Option Text → Bool
there none = false
there (some t) = not (is_empty t)

-- the value under the first key, or, where there is none, under the second
abbrev pub either : Option Text → Option Text → Option Text
either none legacy = legacy
either (some t) legacy = some t

abbrev pub asks_restore : Outcome ManifestError LoadManifestResult → Bool
asks_restore (ok restore_is_required) = true
asks_restore _ = false

-- a result that is no restore
abbrev Goes : LoadManifestResult → World → Type 0
Goes r w = asks_restore (ok r) ≡ false

Goes-asks :
    (r : Outcome ManifestError LoadManifestResult × World)
    → Ensures Goes (λ _. Unit) r
    → asks_restore r.0 ≡ false
Goes-asks (ok r, w) h = h
Goes-asks (err e, w) h = refl

module _ (h : Host) (p : Params) (wallet : Text) (now_iso : Text) (d : Draws) where
  load_current-Goes :
      (cid : Text) (w : World)
      → Ensures Goes (λ _. Unit) (load_current h wallet p.signature_bytes cid w)
  unfolding load_current ◌>>=◌
  load_current-Goes cid w =
      Ensures-step Goes (λ _. Unit) (open_manifest h wallet p.signature_bytes cid w) _ (λ e s q. tt)
        λ opened w' q. refl

  init_manifest-Goes :
      (w : World) → Ensures Goes (λ _. Unit) (init_manifest h wallet p.signature_bytes now_iso d w)
  unfolding init_manifest ◌>>=◌
  init_manifest-Goes w =
      Ensures-call Goes (λ _. Unit)
        (from_crypto (derive_vault_root_kek_from_signature h.platform p.signature_bytes)) _ w tt
        λ kek derived.
          Ensures-call Goes (λ _. Unit) (derive_manifest_key h.platform kek) _ w tt
            λ key made.
              Ensures-step Goes (λ _. Unit)
                (store_manifest h wallet kek key (empty_manifest h wallet now_iso) d w) _
                (λ e s q. tt) λ cid w' q. refl

  at-asks :
      (found : Option Text) (w : World)
      → (there p.on_chain_latest_manifest_cid ≡ false) ⊎ ((cid : Text) × (found ≡ some cid))
      → asks_restore (load_or_init_at h p wallet now_iso d found w).0 ≡ false
  unfolding load_or_init_at
  at-asks (some cid) w either_way = Goes-asks _ (load_current-Goes cid w)
  at-asks none w (inr (cid, q)) = absurd (cc)
  at-asks none w (inl nowhere) = rw nowhere (Goes-asks _ (init_manifest-Goes w))

  module _ (pk : Text) (canonical : canonicalize_wallet_pub_key wallet ≡ ok pk) (w : World) where
    -- the value of the pointer: under the scoped key or, without that, under the legacy key
    abbrev pub pointer : Option Text
    pointer = either (w.pointers.items (scoped_key h.cluster pk)) (w.pointers.items (legacy_key pk))

    read_cid-blank : blank pointer ≡ true → read_cid h wallet w ≡ (ok none, w)
    unfolding read_cid get_manifest_cid read_pointer migrate cid_found
    read_cid-blank missing = elim (Option-cases (w.pointers.items (scoped_key h.cluster pk))) [
      | inr (t, q) ↦ ground (arith, canonical, q)
      | inl q ↦ elim (Option-cases (w.pointers.items (legacy_key pk))) [
        | inl r ↦ ground (arith, canonical, q, r)
        | inr (t, r) ↦ ground (arith, canonical, q, r)
      ]
    ]

    read_cid-there :
        blank pointer ≡ false → (cid : Text) × ((read_cid h wallet w).0 ≡ ok (some cid))
    unfolding read_cid get_manifest_cid read_pointer migrate cid_found
    read_cid-there filled = elim (Option-cases (w.pointers.items (scoped_key h.cluster pk))) [
      | inr (t, q) ↦ (trim t, ground (arith, canonical, q))
      | inl q ↦ elim (Option-cases (w.pointers.items (legacy_key pk))) [
        | inl r ↦ absurd (ground (arith, q, r))
        | inr (t, r) ↦ (trim t, ground (arith, canonical, q, r))
      ]
    ]

    -- a CID from the chain, and no local pointer
    abbrev pub needs_restore : Bool
    needs_restore = there p.on_chain_latest_manifest_cid && blank pointer

    -- If the arguments pass the checks and the wallet is canonical, a load reports that a restore
    -- is required, and changes nothing, if a CID from the chain is given and the pointer is
    -- missing or blank under the scoped key or, where that has no entry, under the legacy key;
    -- otherwise it reports anything else.
    pub load-asks :
        check_params p ≡ ok wallet
        → ((needs_restore ≡ true)
            × (load_manifest_or_init h p now_iso d w ≡ (ok restore_is_required, w)))
          ⊎ ((needs_restore ≡ false)
              × (asks_restore (load_manifest_or_init h p now_iso d w).0 ≡ false))
    unfolding load_manifest_or_init ◌>>=◌
    load-asks checked = elim (Bool-cases (blank pointer)) [
      | inr filled ↦
          let (cid, found) = read_cid-there filled in
          inr (
            ground (arith, filled),
            rw (checked, found) (at-asks (some cid) (read_cid h wallet w).1 (inr (cid, refl))),
          )
      | inl missing ↦ elim (Bool-cases (there p.on_chain_latest_manifest_cid)) [
        | inl elsewhere ↦ inl (
          ground (arith, missing, elsewhere),
          load-restore_is_required h p wallet now_iso d w checked (read_cid-blank missing)
              elsewhere,
        )
        | inr nowhere ↦ inr (
          ground (arith, missing, nowhere),
          rw (checked, read_cid-blank missing) (at-asks none w (inl nowhere)),
        )
      ]
    ]
