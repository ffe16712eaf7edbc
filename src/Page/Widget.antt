-- ===== src/Page/Widget.antt =====
-- apps/web/src/components/registry/RegistryPublishWidget.tsx: what it says of the registry, and its
-- two actions, publication and restore. Labels are constructors; colours are left out.
pub mod Restores
use sovereign_jedi.Prelude.{
  Bool, true, false, Option, none, some, is_some, List, [], ◌∷◌, Text, text_eq, is_empty, not, any,
  ◌&&◌, if◌then◌else◌, Outcome, ok, err,
}
use sovereign_jedi.Session.Manager.{is_key}
use sovereign_jedi.Registry.Head.{RegistryEntry, select_head}
use sovereign_jedi.Manifest.Errors.{ManifestError}
use sovereign_jedi.Manifest.Service.{World, Host, read_cid, write_cid}

pub data RegistryStatus : Type 0 where
  disconnected network_error not_published no_local_manifest : RegistryStatus
  up_to_date published_behind out_of_sync : RegistryStatus

pub data WidgetError : Type 0 where
  publish_failed : Text → WidgetError
  restore_failed : ManifestError → WidgetError

-- the component's state hooks
pub record Widget : Type 0 where
  pub loading : Bool
  pub error : Option WidgetError
  pub local_manifest_cid : Option Text

-- What the session hook gives it.
pub record WidgetSession : Type 0 where
  pub wallet_pub_key : Option Text
  pub on_chain_registry : Option (List RegistryEntry)
  pub registry_failed : Bool

-- `a === b` for texts or null
unfoldable pub same_cid : Option Text → Option Text → Bool
same_cid none none = true
same_cid (some a) (some b) = text_eq a b
same_cid _ _ = false

unfoldable pub registry_entries : Option (List RegistryEntry) → List RegistryEntry
registry_entries none = []
registry_entries (some es) = es

unfoldable pub is_published : Text → List RegistryEntry → Bool
is_published cid es = any (λ e. text_eq e.manifest_cid cid) es

module _ (at_most : Text → Text → Bool) (s : WidgetSession) where
  unfoldable pub head_cid : Option Text
  unfolding registry_entries
  head_cid = elim (select_head at_most (registry_entries s.on_chain_registry)) [
    | none ↦ none
    | some e ↦ some e.manifest_cid
  ]

  abbrev against_head : Text → RegistryStatus
  against_head cid =
      if same_cid (some cid) head_cid
      then up_to_date
      else if is_published cid (registry_entries s.on_chain_registry)
      then published_behind
      else out_of_sync

  unfoldable pub status : Option Text → RegistryStatus
  unfolding registry_entries is_published head_cid same_cid
  status local =
      if not (is_key s.wallet_pub_key)
      then disconnected
      else if s.registry_failed
      then network_error
      else elim (registry_entries s.on_chain_registry) [
        | [] ↦ not_published
        | e ∷ es ↦ elim local [
          | none ↦ no_local_manifest
          | some cid ↦ if is_empty cid then no_local_manifest else against_head cid
        ]
      ]

  unfoldable pub can_publish : Widget → Bool
  unfolding head_cid same_cid
  can_publish w =
      (is_key s.wallet_pub_key && is_key w.local_manifest_cid)
      && (not (same_cid w.local_manifest_cid head_cid) && (not w.loading && not s.registry_failed))

  -- `publish` is the hook's publishManifest: a signature or a message.
  unfoldable pub handle_publish : (Text → Outcome Text Text) → Widget → Widget
  handle_publish publish w = elim w.local_manifest_cid [
    | none ↦ w
    | some cid ↦ if is_empty cid then w else elim (publish cid) [
      | ok signature ↦ record w { loading = false; error = none }
      | err message ↦ record w { loading = false; error = some (publish_failed message) }
    ]
  ]

  -- the pointer set to a CID, and what the widget shows then
  unfoldable pub restore_to : Host → Text → Text → Widget → World → Widget × World
  restore_to h wallet cid w world =
      let (written, world') = write_cid h wallet cid world in
      elim written [
        | ok u ↦ (record { loading = false; error = none; local_manifest_cid = some cid }, world')
        | err e ↦ (record w { loading = false; error = some (restore_failed e) }, world')
      ]

  unfoldable pub handle_restore : Host → Widget → World → Widget × World
  unfolding restore_to head_cid
  handle_restore h w world = elim head_cid [
    | none ↦ (w, world)
    | some cid ↦ elim s.wallet_pub_key [
      | none ↦ (w, world)
      | some wallet ↦
          if is_empty cid
          then (w, world)
          else if is_empty wallet
          then (w, world)
          else restore_to h wallet cid w world
    ]
  ]

-- the effect on the wallet and on the event "sj:manifestCidChanged"
unfoldable pub refresh_local : Host → Option Text → Widget → World → Widget × World
refresh_local h none w world = (record w { local_manifest_cid = none }, world)
refresh_local h (some wallet) w world =
    if is_empty wallet
    then (record w { local_manifest_cid = none }, world)
    else let (found, world') = read_cid h wallet world in
      elim found [
        | ok cid ↦ (record w { local_manifest_cid = cid }, world')
        | err e ↦ (record w { local_manifest_cid = none }, world')
      ]
