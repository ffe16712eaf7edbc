-- ===== src/Store.antt =====
-- packages/storage/src/index.ts: encrypted manifests in IndexedDB, one record for each wallet. The
-- Dexie package is modelled by what the code asks of it: tables keyed by `walletId`.
pub mod Laws
pub mod Instances
use sovereign_jedi.Prelude.{
  ℕ, suc, ◌+◌, Bool, true, false, Option, none, some, List, [], ◌∷◌, Text, text, text_eq,
  or_default, not, map, ◌==◌, if◌then◌else◌, Outcome, ok, err,
}
use sovereign_jedi.Prelude.Methods.{Method, ◌>>=◌, ◌>>◌, call, done}
use sovereign_jedi.Platform.{Platform, Bytes}

-- `ManifestRecord`, and `ManifestPayload`, which has the same properties
pub record ManifestRecord : Type 0 where
  pub wallet_id : Text
  pub encrypted_manifest_b64 : Text
  pub manifest_cid : Option Text
  pub created_at : Text
  pub updated_at : Text

pub data StorageError : Type 0 where
  no_indexed_db database_closed : StorageError

-- What `(existing as any).isOpen` gives: a call or a property that says so, neither, or a throw.
pub data OpenCheck : Type 0 where
  says : Bool → OpenCheck
  unknown throws : OpenCheck

-- `dbInstances` and `lastDbInstance`; instances are numbered, with the database each stands for, and
-- `close` marks them. `tables` is what the browser keeps.
pub record Storage : Type 0 where
  pub instances : List (Text × ℕ)
  pub last : Option ℕ
  pub made : ℕ
  pub name_of : ℕ → Text
  pub closed : ℕ → Bool
  pub tables : Text → List ManifestRecord

-- The host: whether there is an IndexedDB, and what `isOpen` gives for an instance.
pub record StorageHost : Type 0 where
  pub platform : Platform
  pub indexed_db : Bool
  pub is_open : ℕ → OpenCheck

abbrev pub default_name : Text
default_name = text "sovereign_jedi_storage"

unfoldable pub find_instance : Text → List (Text × ℕ) → Option ℕ
find_instance name [] = none
find_instance name ((k, i) ∷ rest) = if text_eq k name then some i else find_instance name rest

unfoldable pub reusable : OpenCheck → Bool
reusable (says b) = b
reusable unknown = true
reusable throws = false

-- the loop that closes and forgets the instances of other names
unfoldable pub close_others : Text → List (Text × ℕ) → Storage → Storage
close_others name [] s = s
close_others name ((k, i) ∷ rest) s =
    if text_eq k name
    then close_others name rest s
    else close_others name rest (record s { closed = λ j. if j == i then true else s.closed j })

unfoldable pub keep_name : Text → List (Text × ℕ) → List (Text × ℕ)
keep_name name [] = []
keep_name name ((k, i) ∷ rest) =
    let kept = keep_name name rest in if text_eq k name then (k, i) ∷ kept else kept

-- `dbInstances.set`
unfoldable pub set_instance : Text → ℕ → List (Text × ℕ) → List (Text × ℕ)
set_instance name i [] = (name, i) ∷ []
set_instance name i ((k, j) ∷ rest) =
    let later = set_instance name i rest in if text_eq k name then (k, i) ∷ rest else (k, j) ∷ later

unfoldable pub create_instance : Text → Storage → ℕ × Storage
unfolding close_others keep_name set_instance
create_instance name s =
    let s1 = close_others name s.instances s in
    (
      s.made,
      record s1 {
        instances = set_instance name s.made (keep_name name s.instances);
        last = some s.made;
        made = suc s.made;
        name_of = λ j. if j == s.made then name else s.name_of j;
      },
    )

unfoldable pub find_record : Text → List ManifestRecord → Option ManifestRecord
find_record wallet [] = none
find_record wallet (r ∷ rows) =
    if text_eq r.wallet_id wallet then some r else find_record wallet rows

-- Dexie's `put` and `add`
unfoldable pub put_record : ManifestRecord → List ManifestRecord → List ManifestRecord
put_record r [] = r ∷ []
put_record r (q ∷ rows) =
    let later = put_record r rows in if text_eq q.wallet_id r.wallet_id then r ∷ rows else q ∷ later

unfoldable pub delete_record : Text → List ManifestRecord → List ManifestRecord
delete_record wallet [] = []
delete_record wallet (r ∷ rows) =
    let later = delete_record wallet rows in if text_eq r.wallet_id wallet then later else r ∷ later

abbrev or_kept : Option Text → Option Text → Option Text
or_kept none kept = kept
or_kept (some cid) kept = some cid

-- the record that is written, with or without one that is there
unfoldable pub record_to_put :
    Text → Text → Option Text → Text → Option ManifestRecord → ManifestRecord
record_to_put wallet b64 cid now none = record {
  wallet_id = wallet;
  encrypted_manifest_b64 = b64;
  manifest_cid = cid;
  created_at = now;
  updated_at = now;
}
record_to_put wallet b64 cid now (some r) = record {
  wallet_id = wallet;
  encrypted_manifest_b64 = b64;
  manifest_cid = or_kept cid r.manifest_cid;
  created_at = r.created_at;
  updated_at = now;
}

-- The manifest is given in base64 or as bytes.
pub data Encrypted : Type 0 where
  base64 : Text → Encrypted
  raw : Bytes → Encrypted

module _ (h : StorageHost) where
  abbrev fresh_instance : Text → Method Storage StorageError ℕ
  fresh_instance name s =
      if h.indexed_db
      then (let (i, s') = create_instance name s in (ok i, s'))
      else (err no_indexed_db, s)

  unfoldable pub init_storage : Option Text → Method Storage StorageError ℕ
  unfolding find_instance reusable create_instance
  init_storage db_name s =
      let name = or_default db_name default_name in
      elim (find_instance name s.instances) [
        | none ↦ fresh_instance name s
        | some i ↦ if reusable (h.is_open i) then (ok i, s) else fresh_instance name s
      ]

  -- `if (!lastDbInstance) initStorage()`, and `lastDbInstance!`
  unfoldable pub last_instance : Method Storage StorageError ℕ
  unfolding init_storage
  last_instance s = elim s.last [ some i ↦ (ok i, s) | none ↦ init_storage none s ]

  abbrev open_table : ℕ → Method Storage StorageError (List ManifestRecord)
  open_table i s = if s.closed i then (err database_closed, s) else (ok (s.tables (s.name_of i)), s)

  abbrev write_table : ℕ → List ManifestRecord → Method Storage StorageError Unit
  write_table i rows s =
      (ok tt, record s { tables = λ n. if text_eq n (s.name_of i) then rows else s.tables n })

  unfoldable pub to_base64 : Encrypted → Text
  to_base64 (base64 t) = t
  to_base64 (raw b) = h.platform.to_base64 b

  unfoldable pub put_manifest :
      Text → Encrypted → Option Text → Text → Method Storage StorageError ManifestRecord
  unfolding last_instance find_record put_record record_to_put to_base64
  put_manifest wallet encrypted cid now = do
    i ← last_instance
    rows ← open_table i
    let r = record_to_put wallet (to_base64 encrypted) cid now (find_record wallet rows)
    write_table i (put_record r rows)
    done r

  unfoldable pub get_manifest : Text → Method Storage StorageError (Option ManifestRecord)
  unfolding last_instance find_record
  get_manifest wallet = do i ← last_instance; rows ← open_table i; done (find_record wallet rows)

  abbrev caught : Outcome StorageError Unit × Storage → Outcome StorageError Bool × Storage
  caught (ok u, s) = (ok true, s)
  caught (err e, s) = (ok false, s)

  abbrev delete_in : Text → ℕ → Method Storage StorageError Unit
  delete_in wallet i = do rows ← open_table i; write_table i (delete_record wallet rows)

  -- true unless the deletion throws
  unfoldable pub delete_manifest : Text → Method Storage StorageError Bool
  unfolding last_instance delete_record
  delete_manifest wallet = do i ← last_instance; λ s. caught (delete_in wallet i s)

  -- The order of `toArray` is the browser's.
  unfoldable pub list_manifests : Method Storage StorageError (List ManifestRecord)
  unfolding last_instance
  list_manifests = do i ← last_instance; open_table i

  abbrev decoded : Option ManifestRecord → Option Bytes
  decoded none = none
  decoded (some r) = some (h.platform.from_base64 r.encrypted_manifest_b64)

  unfoldable pub get_encrypted_manifest_bytes : Text → Method Storage StorageError (Option Bytes)
  unfolding get_manifest
  get_encrypted_manifest_bytes wallet = do found ← get_manifest wallet; done (decoded found)
