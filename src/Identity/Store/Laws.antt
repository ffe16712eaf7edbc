-- ===== src/Identity/Store/Laws.antt =====
-- What the storage gives back.
use sovereign_jedi.Prelude.{◌≡◌, refl, false, some, text_eq}
use sovereign_jedi.Json.{get, find_field}
use sovereign_jedi.Platform.{Platform, Lawful}
use sovereign_jedi.Identity.{Identity}
use sovereign_jedi.Identity.Store.{
  BrowserStorage, get_item, set_item, identity_key, identity_json, identity_of, safe_json_parse,
  load_identity, save_identity,
}

identity_of-identity_json : (i : Identity) → identity_of (identity_json i) ≡ some i
unfolding identity_of identity_json get find_field
identity_of-identity_json i = refl

module _ (P : Platform) (l : Lawful P) (s : BrowserStorage) where
  pub load-save :
      (i : Identity)
      → s.refuses identity_key (P.stringify (identity_json i)) ≡ false
      → load_identity P (save_identity P i (some s)) ≡ some i
  unfolding load_identity save_identity safe_json_parse get_item set_item text_eq
  load-save i room =
      rw (room, l.json_non_empty (identity_json i), l.json_opens (identity_json i))
        (identity_of-identity_json i)
