-- ===== src/Manifest/Pointer/Laws.antt =====
-- Reading the pointer after writing, migrating and removing it.
use sovereign_jedi.Prelude.{
  ◌≡◌, ◌≢◌, ◌∙◌, sym, true, false, Option, none, some, ◌++◌, Text, text, text_eq, text_eq_refl,
  text_eq_ne, trim-trim, append_cancel_left, is_empty, trim, Outcome, ok, arith, Outcome-cases, inl,
  inr,
}
use sovereign_jedi.Manifest.Errors.{ManifestError}
use sovereign_jedi.Manifest.Pointer.{
  ManifestStorage, set_item, remove_item, prefix, canonicalize_wallet_pub_key, cluster_name,
  scoped_key, legacy_key, cid_found, migrate, read_pointer, get_manifest_cid, set_manifest_cid,
  remove_manifest_cid,
}

ok-injective : {a b : Text} → ◌≡◌ {A = Outcome ManifestError Text} (ok a) (ok b) → a ≡ b
ok-injective h = cc

scoped_injective :
    (cluster : Option Text) (pk pk' : Text)
    → scoped_key cluster pk ≡ scoped_key cluster pk'
    → pk ≡ pk'
unfolding scoped_key
scoped_injective cluster pk pk' h =
    append_cancel_left (text ":") pk pk'
      (append_cancel_left (cluster_name cluster) _ _ (append_cancel_left prefix _ _ h))

read-set_other :
    (key key' legacy value : Text) (s : ManifestStorage)
    → text_eq key key' ≡ false
    → text_eq key legacy ≡ false
    → (read_pointer key' legacy (set_item key value s)).0 ≡ (read_pointer key' legacy s).0
unfolding read_pointer set_item migrate
read-set_other key key' legacy value s e e' = ground arith

module _ (cluster : Option Text) (wallet : Text) (s : ManifestStorage) where
  set-ok :
      (cid : Text) (t : ManifestStorage)
      → set_manifest_cid cluster wallet cid s ≡ (ok tt, t)
      → (is_empty (trim cid) ≡ false)
        × ((pk : Text) × (canonicalize_wallet_pub_key wallet ≡ ok pk)
            × (t ≡ set_item (scoped_key cluster pk) (trim cid) s))
  unfolding set_manifest_cid
  set-ok cid t h = elim (Outcome-cases (canonicalize_wallet_pub_key wallet)) [
    | inl (pk, e) ↦ (ground arith, (pk, e, ground arith))
    | inr (x, e) ↦ absurd (ground arith)
  ]

  -- After a setManifestCid that returned, getManifestCid returns the CID trimmed and changes
  -- nothing.
  pub get_manifest_cid-set_manifest_cid :
      (cid : Text) (t : ManifestStorage)
      → set_manifest_cid cluster wallet cid s ≡ (ok tt, t)
      → get_manifest_cid cluster wallet t ≡ (ok (some (trim cid)), t)
  unfolding get_manifest_cid read_pointer set_item cid_found
  get_manifest_cid-set_manifest_cid cid t h =
      let (full, (pk, e, same)) = set-ok cid t h in
      let key = scoped_key cluster pk in
      rw same (ground (arith, e, text_eq_refl key, trim-trim cid))

  -- A setManifestCid that returned for one wallet changes what is read for no other wallet on the
  -- cluster, both names being canonical after trimming, unless the other is spelled like cluster,
  -- colon and wallet.
  pub get-set_other :
      (other cid pk pk' : Text) (t : ManifestStorage)
      → canonicalize_wallet_pub_key wallet ≡ ok pk
      → canonicalize_wallet_pub_key other ≡ ok pk'
      → pk' ≢ pk
      → pk' ≢ cluster_name cluster ++ (text ":" ++ pk)
      → set_manifest_cid cluster wallet cid s ≡ (ok tt, t)
      → (get_manifest_cid cluster other t).0 ≡ (get_manifest_cid cluster other s).0
  unfolding get_manifest_cid scoped_key legacy_key
  get-set_other other cid pk pk' t e e' differ no_clash h =
      let (_, (k, ek, same)) = set-ok cid t h in
      let here : pk ≡ k = ok-injective (sym e ∙ ek) in
      let key = scoped_key cluster pk in
      let apart =
        read-set_other key (scoped_key cluster pk') (legacy_key pk') (trim cid) s
          (text_eq_ne _ _ (λ q. differ (sym (scoped_injective cluster pk pk' q))))
          (text_eq_ne _ _ (λ q. no_clash (sym (append_cancel_left prefix _ _ q)))) in
      ground (arith, same, e', here, apart)

  -- For a canonical wallet with no scoped entry, a legacy entry that is not blank is returned
  -- trimmed and written to the scoped key, where the next read finds it.
  pub get_manifest_cid-migrates :
      (pk legacy : Text)
      → canonicalize_wallet_pub_key wallet ≡ ok pk
      → s.items (scoped_key cluster pk) ≡ none
      → s.items (legacy_key pk) ≡ some legacy
      → is_empty (trim legacy) ≡ false
      → (get_manifest_cid cluster wallet s
          ≡ (ok (some (trim legacy)), set_item (scoped_key cluster pk) legacy s))
        × (get_manifest_cid cluster wallet (set_item (scoped_key cluster pk) legacy s)
            ≡ (ok (some (trim legacy)), set_item (scoped_key cluster pk) legacy s))
  unfolding get_manifest_cid read_pointer migrate cid_found set_item
  get_manifest_cid-migrates pk legacy e absent present full =
      let key = scoped_key cluster pk in
      (ground (arith, e, absent, present, full), ground (arith, e, text_eq_refl key, full))

  -- With a storage that has removeItem and a legacy entry that is not blank and whose key is not
  -- the scoped one, removeManifestCid removes the scoped entry and leaves the legacy one, and the
  -- next read returns it trimmed and writes it to the scoped key again.
  pub get-remove_legacy :
      (pk legacy : Text)
      → s.can_remove ≡ true
      → canonicalize_wallet_pub_key wallet ≡ ok pk
      → text_eq (scoped_key cluster pk) (legacy_key pk) ≡ false
      → s.items (legacy_key pk) ≡ some legacy
      → is_empty (trim legacy) ≡ false
      → ((remove_manifest_cid cluster wallet s).1.items (scoped_key cluster pk) ≡ none)
        × ((remove_manifest_cid cluster wallet s).1.items (legacy_key pk) ≡ some legacy)
        × ((get_manifest_cid cluster wallet (remove_manifest_cid cluster wallet s).1).0
            ≡ ok (some (trim legacy)))
        × ((get_manifest_cid cluster wallet (remove_manifest_cid cluster wallet s).1).1.items
              (scoped_key cluster pk)
            ≡ some legacy)
  unfolding set_item get_manifest_cid remove_manifest_cid read_pointer migrate cid_found remove_item
  get-remove_legacy pk legacy can e differ present full =
      let key = scoped_key cluster pk in
      (
        ground (arith, e, text_eq_refl key, can),
        ground (arith, e, present, can, differ),
        ground (arith, e, text_eq_refl key, present, full, can, differ),
        ground (arith, e, text_eq_refl key, present, full, can, differ),
      )
