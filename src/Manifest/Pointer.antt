-- ===== src/Manifest/Pointer.antt =====
-- packages/manifest/src/storage.ts: the local pointer to the newest manifest, one for each wallet
-- and cluster, with its migration from keys that named no cluster.
pub mod Laws
use sovereign_jedi.Prelude.{
  ℕ, Bool, true, false, Option, none, some, List, [], ◌∷◌, ◌++◌, Text, text, text_eq, is_empty,
  trim, has_space, if◌then◌else◌, Outcome, ok, err, ◌>>=◌, ◌>>◌, throw_if,
}
use sovereign_jedi.Manifest.Errors.{ManifestError, blank_wallet, key_has_space, blank_cid}

-- `ManifestStorage`: `getItem` and `setItem` over the items, and whether there is a `removeItem`.
pub record ManifestStorage : Type 0 where
  pub items : Text → Option Text
  pub can_remove : Bool

unfoldable pub set_item : Text → Text → ManifestStorage → ManifestStorage
set_item key value s = record s { items = λ j. if text_eq key j then some value else s.items j }

unfoldable pub remove_item : Text → ManifestStorage → ManifestStorage
remove_item key s = record s { items = λ j. if text_eq key j then none else s.items j }

abbrev pub prefix : Text
prefix = text "sj:manifestCid:"

unfoldable pub canonicalize_wallet_pub_key : Text → Outcome ManifestError Text
canonicalize_wallet_pub_key wallet_pub_key = do
  let pk = trim wallet_pub_key
  throw_if (is_empty pk) blank_wallet
  throw_if (has_space pk) key_has_space
  ok pk

-- process.env.NEXT_PUBLIC_SOLANA_CLUSTER || 'devnet'
unfoldable pub cluster_name : Option Text → Text
cluster_name none = text "devnet"
cluster_name (some []) = text "devnet"
cluster_name (some (c ∷ s)) = c ∷ s

-- the key for a canonical wallet, and the legacy key
unfoldable pub scoped_key : Option Text → Text → Text
scoped_key cluster pk = prefix ++ (cluster_name cluster ++ (text ":" ++ pk))

unfoldable pub legacy_key : Text → Text
legacy_key pk = prefix ++ pk

unfoldable pub build_manifest_storage_key : Option Text → Text → Outcome ManifestError Text
build_manifest_storage_key cluster wallet_pub_key = do
  pk ← canonicalize_wallet_pub_key wallet_pub_key
  ok (scoped_key cluster pk)

-- a trimmed value that is not empty
unfoldable pub cid_found : Option Text → Option Text
cid_found none = none
cid_found (some raw) = if is_empty (trim raw) then none else some (trim raw)

-- the legacy value moves to the scoped key if it is not blank
unfoldable pub migrate : Text → Option Text → ManifestStorage → Option Text × ManifestStorage
migrate key none s = (none, s)
migrate key (some legacy_raw) s =
    if is_empty (trim legacy_raw) then (none, s) else (some legacy_raw, set_item key legacy_raw s)

unfoldable pub read_pointer : Text → Text → ManifestStorage → Option Text × ManifestStorage
unfolding migrate
read_pointer key legacy s = elim (s.items key) [
  | some raw ↦ (cid_found (some raw), s)
  | none ↦ let (raw, s') = migrate key (s.items legacy) s in (cid_found raw, s')
]

unfoldable pub get_manifest_cid :
    Option Text → Text → ManifestStorage → Outcome ManifestError (Option Text) × ManifestStorage
get_manifest_cid cluster wallet_pub_key s = elim (canonicalize_wallet_pub_key wallet_pub_key) [
  | err e ↦ (err e, s)
  | ok pk ↦
      let (found, s') = read_pointer (scoped_key cluster pk) (legacy_key pk) s in (ok found, s')
]

-- The event "sj:manifestCidChanged" that follows a write is not part of the state.
unfoldable pub set_manifest_cid :
    Option Text → Text → Text → ManifestStorage → Outcome ManifestError Unit × ManifestStorage
set_manifest_cid cluster wallet_pub_key cid s =
    if is_empty (trim cid)
    then (err blank_cid, s)
    else elim (canonicalize_wallet_pub_key wallet_pub_key) [
      | err e ↦ (err e, s)
      | ok pk ↦ (ok tt, set_item (scoped_key cluster pk) (trim cid) s)
    ]

unfoldable pub remove_manifest_cid :
    Option Text → Text → ManifestStorage → Outcome ManifestError Unit × ManifestStorage
remove_manifest_cid cluster wallet_pub_key s = elim (canonicalize_wallet_pub_key wallet_pub_key) [
  | err e ↦ (err e, s)
  | ok pk ↦ (
    ok tt,
    if s.can_remove
        then remove_item (scoped_key cluster pk) s
        else set_item (scoped_key cluster pk) [] s,
  )
]
