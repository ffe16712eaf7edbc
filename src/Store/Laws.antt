-- ===== src/Store/Laws.antt =====
-- The module's instance is the one last asked for, and its table is a map.
use sovereign_jedi.Prelude.{
  ℕ, ◌≡◌, refl, ap, ◌∙◌, inl, inr, Bool, true, false, Option, none, some, List, [], ◌∷◌, Text,
  text_eq, text_eq_refl, text_eq→eq, if◌then◌else◌, Outcome, ok, arith, Bool-cases,
}
use sovereign_jedi.Prelude.Methods.{◌>>=◌, ◌>>◌}
use sovereign_jedi.Store.{
  ManifestRecord, StorageError, Storage, StorageHost, Encrypted, last_instance, find_record,
  put_record, delete_record, record_to_put, to_base64, put_manifest, get_manifest, delete_manifest,
}

find-put :
    (r : ManifestRecord) (wallet : Text) (rows : List ManifestRecord)
    → find_record wallet (put_record r rows)
      ≡ (if text_eq r.wallet_id wallet then some r else find_record wallet rows)
unfolding find_record put_record
find-put r wallet [] = refl
find-put r wallet (q ∷ rows) = elim (Bool-cases (text_eq q.wallet_id r.wallet_id)) [
  | inl same ↦ ground (arith, same, text_eq→eq q.wallet_id r.wallet_id same)
  | inr other ↦ elim (Bool-cases (text_eq q.wallet_id wallet)) [
    | inl here ↦ elim (Bool-cases (text_eq r.wallet_id wallet)) [
      | inl both ↦ absurd (
          ground (
            arith,
            other,
            text_eq→eq q.wallet_id wallet here,
            text_eq→eq r.wallet_id wallet both,
            text_eq_refl wallet,
          ))
      | inr neither ↦ ground (arith, other, here, neither)
    ]
    | inr there ↦ ground (arith, other, there, find-put r wallet rows)
  ]
]

find-delete :
    (gone wallet : Text) (rows : List ManifestRecord)
    → find_record wallet (delete_record gone rows)
      ≡ (if text_eq gone wallet then none else find_record wallet rows)
unfolding find_record delete_record
find-delete gone wallet [] = ground arith
find-delete gone wallet (q ∷ rows) = elim (Bool-cases (text_eq q.wallet_id gone)) [
  | inl same ↦ ground (arith, same, text_eq→eq q.wallet_id gone same, find-delete gone wallet rows)
  | inr other ↦ elim (Bool-cases (text_eq q.wallet_id wallet)) [
    | inl here ↦ elim (Bool-cases (text_eq gone wallet)) [
      | inl both ↦ absurd (
          ground (
            arith,
            other,
            text_eq→eq q.wallet_id wallet here,
            text_eq→eq gone wallet both,
            text_eq_refl wallet,
          ))
      | inr neither ↦ ground (arith, other, here, neither)
    ]
    | inr there ↦ ground (arith, other, there, find-delete gone wallet rows)
  ]
]

-- what the module holds for each wallet, in the database of instance i
unfoldable pub view : Storage → ℕ → Text → Option ManifestRecord
view s i wallet = find_record wallet (s.tables (s.name_of i))

module _ (h : StorageHost) (i : ℕ) where
  -- the table of the instance replaced
  unfoldable pub with_rows : List ManifestRecord → Storage → Storage
  with_rows rows s = record s { tables = λ n. if text_eq n (s.name_of i) then rows else s.tables n }

  view-with_rows :
      (rows : List ManifestRecord) (s : Storage) (wallet : Text)
      → view (with_rows rows s) i wallet ≡ find_record wallet rows
  unfolding view with_rows
  view-with_rows rows s wallet = rw (text_eq_refl (s.name_of i)) refl

  get_manifest-view :
      (s : Storage) (wallet : Text)
      → s.last ≡ some i
      → s.closed i ≡ false
      → get_manifest h wallet s ≡ (ok (view s i wallet), s)
  unfolding get_manifest last_instance view ◌>>=◌
  get_manifest-view s wallet current usable = ground (arith, current, usable)

  get_manifest-with_rows :
      (s : Storage) (rows : List ManifestRecord) (wallet : Text)
      → s.last ≡ some i
      → s.closed i ≡ false
      → get_manifest h wallet (with_rows rows s) ≡ (ok (find_record wallet rows), with_rows rows s)
  unfolding with_rows
  get_manifest-with_rows s rows wallet current usable =
      get_manifest-view (with_rows rows s) wallet current usable
      ∙ ap (λ r. (ok r, with_rows rows s)) (view-with_rows rows s wallet)

  -- the record that a put writes
  unfoldable pub put_result : Storage → Text → Encrypted → Option Text → Text → ManifestRecord
  put_result s wallet encrypted cid now =
      record_to_put wallet (to_base64 h encrypted) cid now (view s i wallet)

  put_manifest-writes :
      (s : Storage) (wallet now : Text) (encrypted : Encrypted) (cid : Option Text)
      → s.last ≡ some i
      → s.closed i ≡ false
      → put_manifest h wallet encrypted cid now s ≡ (
        ok (put_result s wallet encrypted cid now),
        with_rows (put_record (put_result s wallet encrypted cid now) (s.tables (s.name_of i))) s,
      )
  unfolding put_manifest last_instance put_result with_rows view ◌>>=◌ ◌>>◌
  put_manifest-writes s wallet now encrypted cid current usable = ground (arith, current, usable)

  delete_manifest-writes :
      (s : Storage) (wallet : Text)
      → s.last ≡ some i
      → s.closed i ≡ false
      → delete_manifest h wallet s
        ≡ (ok true, with_rows (delete_record wallet (s.tables (s.name_of i))) s)
  unfolding delete_manifest last_instance with_rows ◌>>=◌
  delete_manifest-writes s wallet current usable = ground (arith, current, usable)

  put_result-wallet :
      (s : Storage) (wallet now : Text) (encrypted : Encrypted) (cid : Option Text)
      → (put_result s wallet encrypted cid now).wallet_id ≡ wallet
  unfolding put_result record_to_put
  put_result-wallet s wallet now encrypted cid = ground arith

  -- With an open last instance, the store is a map from wallets: after putManifest, getManifest
  -- returns the record written for its wallet and the old one for every other, and after
  -- deleteManifest nothing for its wallet and the old one for every other.
  pub store-map :
      (s : Storage) (wallet other now : Text) (encrypted : Encrypted) (cid : Option Text)
      → s.last ≡ some i
      → s.closed i ≡ false
      → let r = put_result s wallet encrypted cid now in
        let put = put_manifest h wallet encrypted cid now s in
        let gone = delete_manifest h wallet s in
        ((put.0 ≡ ok r)
          × ((get_manifest h other put.1).0
              ≡ ok (if text_eq wallet other then some r else view s i other)))
        × ((gone.0 ≡ ok true)
            × ((get_manifest h other gone.1).0
                ≡ ok (if text_eq wallet other then none else view s i other)))
  unfolding view
  store-map s wallet other now encrypted cid current usable =
      let rows = s.tables (s.name_of i) in
      let r = put_result s wallet encrypted cid now in
      let put = put_manifest-writes s wallet now encrypted cid current usable in
      let gone = delete_manifest-writes s wallet current usable in
      (
        (
          ap (λ x. x.0) put,
          ap (λ (x : Outcome StorageError ManifestRecord × Storage). (get_manifest h other x.1).0)
                put
              ∙ ap (λ (x : Outcome StorageError (Option ManifestRecord) × Storage). x.0)
                  (get_manifest-with_rows s (put_record r rows) other current usable)
              ∙ ap ok (find-put r other rows)
              ∙ ap (λ (k : Text). ok (if text_eq k other then some r else find_record other rows))
                  (put_result-wallet s wallet now encrypted cid),
        ),
        (
          ap (λ x. x.0) gone,
          ap (λ (x : Outcome StorageError Bool × Storage). (get_manifest h other x.1).0) gone
              ∙ ap (λ (x : Outcome StorageError (Option ManifestRecord) × Storage). x.0)
                  (get_manifest-with_rows s (delete_record wallet rows) other current usable)
              ∙ ap ok (find-delete wallet other rows),
        ),
      )
