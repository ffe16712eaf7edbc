-- ===== src/Manifest/Service/Entry.antt =====
-- The manifest change of `appendEntryAndPersist`, packages/manifest/src/service.ts.
pub mod Merge
use sovereign_jedi.Prelude.{
  ℕ, Bool, true, false, Option, none, some, Text, or_default, ◌||◌, ◌&&◌, if◌then◌else◌, Outcome,
  ok, err, ◌>>=◌, ◌>>◌,
}
use sovereign_jedi.Json.{
  Json, Items, Fields, num, str, arr, obj, nil, end, field, get, set_field, optional, is_str,
  truthy, append, any_item,
}
use sovereign_jedi.Manifest.Errors.{
  ManifestError, blank_file_cid, missing_entry_envelope, entries_missing,
}
use sovereign_jedi.Manifest.Cipher.{is_blank}

-- The argument `entry`; the two that may be left out have defaults.
pub record NewEntry : Type 0 where
  pub entry_id : Option Text
  pub file_cid : Text
  pub added_at : Option Text
  pub envelope : Option Json
  pub original_file_name : Option Text
  pub mime_type : Option Text
  pub file_size : Option ℕ
  pub file_integrity_sha256_b64 : Option Text

-- what an append reads from its surroundings beside the random bytes: uuid(), and nowIso()
-- for a manifest created first, for the entry, and for the manifest
pub record Stamp : Type 0 where
  pub uuid : Text
  pub created_iso : Text
  pub now_iso : Text
  pub updated_iso : Text

abbrev pub text_field : Option Text → Option Json
text_field none = none
text_field (some t) = some (str t)

abbrev pub num_field : Option ℕ → Option Json
num_field none = none
num_field (some n) = some (num n)

unfoldable pub entry_id_of : NewEntry → Stamp → Text
entry_id_of e s = or_default e.entry_id s.uuid

unfoldable pub added_at_of : NewEntry → Stamp → Text
added_at_of e s = or_default e.added_at s.now_iso

unfoldable pub entry_json : NewEntry → Stamp → Json
entry_json e s = obj (
    field "entryId" (str (entry_id_of e s)) (
      field "fileCid" (str e.file_cid) (
        field "addedAt" (str (added_at_of e s)) (
          optional "envelope" e.envelope (
            optional "originalFileName" (text_field e.original_file_name) (
              optional "mimeType" (text_field e.mime_type) (
                optional "fileSize" (num_field e.file_size) (
                  optional "fileIntegritySha256B64" (text_field e.file_integrity_sha256_b64)
                    end))))))))

unfoldable pub check_entry : NewEntry → Outcome ManifestError Unit
check_entry e =
    if is_blank e.file_cid
    then err blank_file_cid
    else if truthy e.envelope
    then ok tt
    else err missing_entry_envelope

-- the test of `manifest.entries.some(…)`
unfoldable pub same_entry : NewEntry → Stamp → Json → Bool
same_entry e s x =
    is_str (get "entryId" x) (entry_id_of e s)
    || is_str (get "fileCid" x) e.file_cid && is_str (get "addedAt" x) (added_at_of e s)

-- `manifest.entries`, which the code takes for an array
unfoldable pub entries_of : Json → Outcome ManifestError Items
entries_of m = elim (get "entries" m) [
  | none ↦ err entries_missing
  | some v ↦ elim v [ arr xs ↦ ok xs | _ ↦ err entries_missing ]
]

unfoldable pub merged_entries : NewEntry → Stamp → Items → Items
merged_entries e s xs = if any_item (same_entry e s) xs then xs else append xs (entry_json e s)

-- the duplicate test, the push and the new date
unfoldable pub with_entry : NewEntry → Stamp → Json → Items → Json
with_entry e s m xs = set_field "updatedAt" (str s.updated_iso) (
    if any_item (same_entry e s) xs then m else set_field "entries" (arr (merged_entries e s xs)) m)

unfoldable pub merge_entry : NewEntry → Stamp → Json → Outcome ManifestError Json
merge_entry e s m = do check_entry e; xs ← entries_of m; ok (with_entry e s m xs)
