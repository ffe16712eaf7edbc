-- ===== src/Manifest/Service/Entry/Merge.antt =====
-- The entries that an append leaves.
use package.text.Mathlib.Text.{◌==◌ as str_eq}
use sovereign_jedi.Prelude.{
  ◌≡◌, refl, ◌∙◌, true, false, Option, some, ok, arith, text_eq_refl, Bool-cases, Returns-bind, inl,
  inr, ◌⊎◌, Returns, String, Text, List, [], ◌∷◌, ◌++◌, IsIn, All, or_default,
}
use sovereign_jedi.Json.{
  Json, Items, Fields, end, optional, null, bool, num, str, arr, obj, find_field, get, set_in,
  set_field, is_str, append, any_item,
}
use sovereign_jedi.Json.Listed.{
  listed, listed-append, any_item-append, any_item-IsIn, any_item-All, All-map,
}
use sovereign_jedi.Json.Laws.{get-set, is_str-eq, find-optional, skip-optional}
use sovereign_jedi.Manifest.Service.Entry.{
  NewEntry, Stamp, text_field, num_field, entry_id_of, added_at_of, entry_json, check_entry,
  same_entry, entries_of, merged_entries, with_entry, merge_entry,
}

module _ (e : NewEntry) (s : Stamp) where
  same_entry-entry_json : same_entry e s (entry_json e s) ≡ true
  unfolding same_entry entry_json get find_field is_str
  same_entry-entry_json = rw (text_eq_refl (entry_id_of e s)) refl

  -- The merged entries have one that is taken for the new entry, and merging the same entry again
  -- changes nothing.
  pub merged_entries-twice :
      (xs : Items)
      → (any_item (same_entry e s) (merged_entries e s xs) ≡ true)
        × (merged_entries e s (merged_entries e s xs) ≡ merged_entries e s xs)
  unfolding merged_entries
  merged_entries-twice xs =
      ground (arith, any_item-append (same_entry e s) xs (entry_json e s), same_entry-entry_json)

  -- An entry is taken for the new one if it has its id, or its CID and date.
  abbrev pub Taken : Json → Type 0
  Taken x =
      (get "entryId" x ≡ some (str (or_default e.entry_id s.uuid)))
      ⊎ ((get "fileCid" x ≡ some (str e.file_cid))
          × (get "addedAt" x ≡ some (str (or_default e.added_at s.now_iso))))

  -- the properties of a new entry
  abbrev pub Fresh : Json → Type 0
  Fresh x =
      (get "entryId" x ≡ some (str (or_default e.entry_id s.uuid)))
      × (get "fileCid" x ≡ some (str e.file_cid))
      × (get "addedAt" x ≡ some (str (or_default e.added_at s.now_iso)))
      × (get "envelope" x ≡ e.envelope)

  -- The entries stay as they are if one is taken for the new one; otherwise it follows them.
  abbrev pub Extended : List Json → List Json → Type 0
  Extended xs ys =
      ((x : Json) × IsIn x xs × Taken x × (ys ≡ xs))
      ⊎ (All (λ x. ¬ Taken x) xs × ((x : Json) × Fresh x × (ys ≡ xs ++ (x ∷ []))))

  -- what becomes of a manifest's entries and date, and what stays
  abbrev pub Merged : Json → Json → Type 0
  Merged m m' =
      (xs : Items) × (ys : Items) × (get "entries" m ≡ some (arr xs))
      × (get "entries" m' ≡ some (arr ys))
      × Extended (listed xs) (listed ys)
      × (get "updatedAt" m' ≡ some (str s.updated_iso))
      × (get "version" m' ≡ get "version" m)
      × (get "walletPubKey" m' ≡ get "walletPubKey" m)
      × (get "createdAt" m' ≡ get "createdAt" m)

  is_str-some : (v : Option Json) (t : Text) → v ≡ some (str t) → is_str v t ≡ true
  unfolding is_str
  is_str-some v t q = rw (q, text_eq_refl t) refl

  same_entry-Taken : (x : Json) → same_entry e s x ≡ true → Taken x
  unfolding same_entry entry_id_of added_at_of
  same_entry-Taken x h = elim (Bool-cases (is_str (get "entryId" x) (entry_id_of e s))) [
    | inl q ↦ inl (is_str-eq _ _ q)
    | inr q ↦ inr (is_str-eq _ _ (ground (arith, q)), is_str-eq _ _ (ground (arith, q)))
  ]

  not_same-Taken : (x : Json) → same_entry e s x ≡ false → ¬ Taken x
  unfolding same_entry entry_id_of added_at_of
  not_same-Taken x h (inl q) = absurd (ground (arith, is_str-some _ _ q))
  not_same-Taken x h (inr (q, r)) = absurd (ground (arith, is_str-some _ _ q, is_str-some _ _ r))

  entry_json-Fresh : Fresh (entry_json e s)
  unfolding entry_json entry_id_of added_at_of get find_field
  entry_json-Fresh =
      let size =
        optional "fileSize" (num_field e.file_size)
          (optional "fileIntegritySha256B64" (text_field e.file_integrity_sha256_b64) end) in
      let mime = optional "mimeType" (text_field e.mime_type) size in
      (
        refl,
        refl,
        refl,
        find-optional "envelope" e.envelope
            (optional "originalFileName" (text_field e.original_file_name) mime) refl
            (skip-optional "envelope" "originalFileName" (text_field e.original_file_name) mime refl
              ∙ (skip-optional "envelope" "mimeType" (text_field e.mime_type) size refl
                  ∙ (skip-optional "envelope" "fileSize" (num_field e.file_size)
                        (optional "fileIntegritySha256B64" (text_field e.file_integrity_sha256_b64)
                          end)
                        refl
                      ∙ skip-optional "envelope" "fileIntegritySha256B64"
                          (text_field e.file_integrity_sha256_b64) end refl))),
      )

  merged-Extended : (xs : Items) → Extended (listed xs) (listed (merged_entries e s xs))
  unfolding merged_entries
  merged-Extended xs = elim (Bool-cases (any_item (same_entry e s) xs)) [
    | inl q ↦
        let (x, found, same) = any_item-IsIn (same_entry e s) xs q in
        inl (x, found, same_entry-Taken x same, rw q refl)
    | inr q ↦ inr (
      All-map _ _ not_same-Taken (listed xs) (any_item-All (same_entry e s) xs q),
      (entry_json e s, entry_json-Fresh, rw q (listed-append xs (entry_json e s))),
    )
  ]

  get-entries_of :
      (m : Json) (xs : Items)
      → entries_of m ≡ ok xs
      → (fs : Fields) × (m ≡ obj fs) × (get "entries" (obj fs) ≡ some (arr xs))
  unfolding entries_of get
  get-entries_of (obj fs) xs q = (fs, refl, ground arith)
  get-entries_of null xs q = absurd (ground arith)
  get-entries_of (bool b) xs q = absurd (ground arith)
  get-entries_of (num n) xs q = absurd (ground arith)
  get-entries_of (str t) xs q = absurd (ground arith)
  get-entries_of (arr ys) xs q = absurd (ground arith)

  module _ (fs : Fields) (xs : Items) (found : get "entries" (obj fs) ≡ some (arr xs)) where
    abbrev now : Json
    now = str s.updated_iso

    abbrev pushed : Fields
    pushed = set_in "entries" (arr (append xs (entry_json e s))) fs

    with_entry-entries :
        get "entries" (with_entry e s (obj fs) xs) ≡ some (arr (merged_entries e s xs))
    unfolding with_entry merged_entries set_field
    with_entry-entries = elim (Bool-cases (any_item (same_entry e s) xs)) [
      | inl present ↦ rw present (get-set "updatedAt" "entries" now fs ∙ found)
      | inr absent ↦ rw absent (
          get-set "updatedAt" "entries" now pushed
          ∙ get-set "entries" "entries" (arr (append xs (entry_json e s))) fs)
    ]

    with_entry-updated : get "updatedAt" (with_entry e s (obj fs) xs) ≡ some (str s.updated_iso)
    unfolding with_entry set_field merged_entries
    with_entry-updated = elim (Bool-cases (any_item (same_entry e s) xs)) [
      | inl present ↦ rw present (get-set "updatedAt" "updatedAt" now fs)
      | inr absent ↦ rw absent (get-set "updatedAt" "updatedAt" now pushed)
    ]

    with_entry-other :
        (k : String)
        → str_eq "updatedAt" k ≡ false
        → str_eq "entries" k ≡ false
        → get k (with_entry e s (obj fs) xs) ≡ get k (obj fs)
    unfolding with_entry merged_entries set_field
    with_entry-other k d d' = elim (Bool-cases (any_item (same_entry e s) xs)) [
      | inl present ↦ rw present (get-set "updatedAt" k now fs ∙ rw d refl)
      | inr absent ↦ rw absent (
          get-set "updatedAt" k now pushed
          ∙ rw d (get-set "entries" k (arr (append xs (entry_json e s))) fs ∙ rw d' refl))
    ]

    with_entry-Merged : Merged (obj fs) (with_entry e s (obj fs) xs)
    with_entry-Merged = (
      xs,
      merged_entries e s xs,
      found,
      with_entry-entries,
      merged-Extended xs,
      with_entry-updated,
      with_entry-other "version" refl refl,
      with_entry-other "walletPubKey" refl refl,
      with_entry-other "createdAt" refl refl,
    )

  -- Where `mergeEntry` returns a manifest, its entries are those it was given, in their order, with
  -- the new one at the end unless one of them was taken for it, and its date is the time of the
  -- merge.
  pub merge_entry-Merged : (m : Json) → Returns (Merged m) (merge_entry e s m)
  unfolding merge_entry
  merge_entry-Merged m = Returns-bind (Merged m) (check_entry e) _ λ u checked.
      Returns-bind (Merged m) (entries_of m) _ λ xs q.
        let (fs, same, found) = get-entries_of m xs q in rw same (with_entry-Merged fs xs found)
