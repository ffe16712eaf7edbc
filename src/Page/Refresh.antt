-- ===== src/Page/Refresh.antt =====
-- `refreshFromManifest` of pages/index.tsx. A refresh runs here with no other event between its
-- first step and its last. The display text of a size is left out.
pub mod Laws
use sovereign_jedi.Prelude.{
  ℕ, Bool, true, false, Option, none, some, List, [], ◌∷◌, ◌++◌, Text, text, text_eq, is_empty,
  is_some, or_default, not, ◌&&◌, ◌||◌, if◌then◌else◌, Outcome, ok, err, ◌>>=◌,
}
use sovereign_jedi.Json.{Json, Items, null, num, str, arr, nil, cons, get}
use sovereign_jedi.Platform.{Platform, Bytes}
use sovereign_jedi.Crypto.Unlock.{BuildUnlockResult}
use sovereign_jedi.Crypto.VaultRoot.{BuildVaultRootResult}
use sovereign_jedi.Session.Manager.{is_key}
use sovereign_jedi.Session.Hook.{SessionState}
use sovereign_jedi.Registry.Head.{RegistryEntry, select_head}
use sovereign_jedi.Manifest.Errors.{ManifestError}
use sovereign_jedi.Manifest.Service.{
  World, Host, Draws, Params, LoadManifestResult, loaded, created, restore_is_required, read_cid,
  load_manifest_or_init,
}

pub data FileStatus : Type 0 where
  ready shared pending : FileStatus

-- Values that the code takes over unread from the manifest are kept as they are.
pub record FileItem : Type 0 where
  pub id : Option Json
  pub name : Json
  pub size_bytes : Json
  pub status : FileStatus
  pub date_iso : Option Json
  pub shared_with : List Text
  pub tags : List Text
  pub cid : Option Json

pub data PageMessage : Type 0 where
  vault_root_required unlock_required access_required unreadable_entries : PageMessage
  manifest_failed : ManifestError → PageMessage

-- The list, its message, and the two refs that guard a refresh.
pub record FileList : Type 0 where
  pub files : List FileItem
  pub message : Option PageMessage
  pub in_flight : Bool
  pub last_key : Text

-- `v ?? d`
abbrev or_value : Option Json → Json → Json
or_value none d = d
or_value (some null) d = d
or_value (some v) d = v

-- An entry that is null has no properties to read.
unfoldable pub file_item : Json → Option FileItem
file_item null = none
file_item e = some (record {
  id = get "entryId" e;
  name = or_value (get "originalFileName" e) (str (text "(unknown)"));
  size_bytes = or_value (get "fileSize" e) (num 0);
  status = ready;
  date_iso = get "addedAt" e;
  shared_with = [];
  tags = [];
  cid = get "fileCid" e;
})

unfoldable pub file_items : Items → Option (List FileItem)
unfolding file_item
file_items nil = some []
file_items (cons e es) = elim (file_item e) [
  | none ↦ none
  | some f ↦ elim (file_items es) [ none ↦ none | some fs ↦ some (f ∷ fs) ]
]

-- `(manifest?.entries ?? []).map(…)`, which throws unless the entries are an array
unfoldable pub manifest_files : Json → Option (List FileItem)
unfolding file_items
manifest_files m = elim (get "entries" m) [
  | none ↦ some []
  | some v ↦ elim v [ arr es ↦ file_items es | null ↦ some [] | _ ↦ none ]
]

unfoldable pub is_session_gate_ok : SessionState → Bool
is_session_gate_ok s = (is_key s.wallet_pub_key && s.is_vault_unlocked) && is_some s.verified

module _ (at_most : Text → Text → Bool) where
  -- the CID of the newest published manifest
  unfoldable pub on_chain_latest_manifest_cid : SessionState → Option Text
  on_chain_latest_manifest_cid s = elim s.on_chain_registry [
    | none ↦ none
    | some entries ↦ elim (select_head at_most entries) [
      | none ↦ none
      | some e ↦ some e.manifest_cid
    ]
  ]

module _ (h : Host) where
  -- The pointer, or null where there is no wallet or the read throws; a read may migrate a key.
  unfoldable pub safe_get_manifest_cid : Option Text → World → Option Text × World
  safe_get_manifest_cid none w = (none, w)
  safe_get_manifest_cid (some wallet) w =
      if is_empty wallet
      then (none, w)
      else let (found, w') = read_cid h wallet w in
        elim found [ ok cid ↦ (cid, w') | err e ↦ (none, w') ]

abbrev message_of : Option BuildVaultRootResult → Text
message_of none = []
message_of (some r) = r.message_to_sign

-- wallet|local-default|cid|messageToSign|gate
unfoldable pub refresh_key : SessionState → Option Text → Text
unfolding is_session_gate_ok
refresh_key s cid =
    or_default s.wallet_pub_key []
    ++ (text "|local-default|"
        ++ (or_default cid []
            ++ (124
                ∷ (message_of s.last_vault_root
                    ++ (124 ∷ text (if is_session_gate_ok s then "1" else "0"))))))

-- the arguments of a load, if all it depends on is there
unfoldable pub load_params : SessionState → Option Text → Option Params
unfolding is_session_gate_ok
load_params s latest = elim s.wallet_pub_key [
  | none ↦ none
  | some wallet ↦ elim s.last_vault_root_signature_bytes [
    | none ↦ none
    | some signature ↦ elim s.last_unlock [
      | none ↦ none
      | some unlock ↦
          if is_session_gate_ok s
          then some (record {
            wallet_pub_key = wallet;
            signature_bytes = signature;
            unlock = some unlock;
            on_chain_latest_manifest_cid = latest;
          })
          else none
    ]
  ]
]

-- why the list is empty
unfoldable pub missing_message : SessionState → Option PageMessage
missing_message s =
    if not (is_key s.wallet_pub_key)
    then none
    else if not (is_session_gate_ok s)
    then some access_required
    else if not (is_some s.last_vault_root_signature_bytes)
    then some vault_root_required
    else if not (is_some s.last_unlock)
    then some unlock_required
    else none

unfoldable pub show_manifest : Text → Json → FileList → FileList
unfolding manifest_files
show_manifest key m l = elim (manifest_files m) [
  | none ↦ record l { message = some unreadable_entries }
  | some files ↦ record l { files = files; message = none; last_key = key }
]

unfoldable pub show_result : Text → Outcome ManifestError LoadManifestResult → FileList → FileList
unfolding show_manifest
show_result key (err e) l = record l { message = some (manifest_failed e) }
show_result key (ok restore_is_required) l = record l { files = []; message = none }
show_result key (ok (loaded m cid)) l = show_manifest key m l
show_result key (ok (created m cid)) l = show_manifest key m l

-- What differs between two refreshes: `reason === 'manual'`, the time and the random bytes.
pub record RefreshCall : Type 0 where
  pub manual : Bool
  pub now_iso : Text
  pub draws : Draws

module _ (at_most : Text → Text → Bool) (h : Host) (s : SessionState) (c : RefreshCall) where
  unfoldable pub refresh_from_manifest : FileList → World → FileList × World
  unfolding load_params missing_message show_result refresh_key
  refresh_from_manifest l w =
      let (cid, w') = safe_get_manifest_cid h s.wallet_pub_key w in
      let key = refresh_key s cid in
      elim (load_params s (on_chain_latest_manifest_cid at_most s)) [
        | none ↦ (record l { files = []; message = missing_message s }, w')
        | some p ↦
            if l.in_flight
            then (l, w')
            else if text_eq key l.last_key && not c.manual
            then (l, w')
            else let (r, w'') = load_manifest_or_init h p c.now_iso c.draws w' in
              (show_result key r l, w'')
      ]
