-- ===== src/Manifest/Cipher/Accepts.antt =====
-- What `decryptManifestV1` has checked when it returns.
use package.text.Mathlib.Text.{◌==◌ as str_eq}
use sovereign_jedi.Prelude.{
  ◌≡◌, ◌≢◌, refl, ap, ◌∙◌, sym, true, false, Option, none, some, String, Text, text, ok, err, arith,
  Outcome, Returns, Returns-bind, subst, or_throw, ◌⊎◌, inl, inr, Bool-cases, Option-cases, text_eq,
  text_eq→eq, text_eq_refl,
}
use sovereign_jedi.Json.{
  Json, Fields, num, str, end, find_field, get, get_in, is_num, is_str, optional,
}
use sovereign_jedi.Json.Laws.{is_str-eq, is_num-eq, find-optional, skip-optional}
use sovereign_jedi.Platform.{Platform, Lawful, Bytes, encode_json, decode_json, decode-encode}
use sovereign_jedi.Manifest.Errors.{ManifestError, aad_mismatch, decrypt_failed, invalid_payload}
use sovereign_jedi.Manifest.Cipher.{
  aad_bytes, aad_matches, basis_of, hash_basis, compute_integrity, integrity_holds, check_encrypted,
  check_decrypted, decrypt_manifest_v1, base64_property,
}

-- the five properties that the integrity hash is made of
pub record SameHashed (a b : Json) : Type 0 where
  pub version : get "version" a ≡ get "version" b
  pub kind : get "kind" a ≡ get "kind" b
  pub header : get "header" a ≡ get "header" b
  pub payload : get "payload" a ≡ get "payload" b
  pub envelope : get "envelope" a ≡ get "envelope" b

-- The integrity property prints as base64 of the SHA-256 of the JSON of an object with just the
-- other five properties.
pub record Integrity (P : Platform) (encrypted : Json) : Type 0 where
  pub stored : Json
  pub found : get_in "sha256B64" (get "integrity" encrypted) ≡ some stored
  pub basis : Json
  pub same : SameHashed basis encrypted
  pub no_integrity : get "integrity" basis ≡ none
  pub hash : P.string_of stored ≡ P.to_base64 (P.sha256 (P.utf8_encode (P.stringify basis)))

-- The object is a manifest for this wallet, its integrity hash is that of the rest of it, and the
-- manifest that came out is one of version 1 for this wallet.
pub record Verified (P : Platform) (encrypted : Json) (wallet : Text) (manifest : Json)
    : Type 0 where
  pub version : get "version" encrypted ≡ some (num 1)
  pub kind : get "kind" encrypted ≡ some (str (text "SJ_MANIFEST"))
  pub aad_wallet : get_in "walletPubKey" (get_in "aad" (get "header" encrypted)) ≡ some (str wallet)
  pub integrity : Integrity P encrypted
  pub manifest_version : get "version" manifest ≡ some (num 1)
  pub manifest_wallet : get "walletPubKey" manifest ≡ some (str wallet)

module _ (version kind header payload envelope : Option Json) where
  abbrev f1 : Fields
  f1 = optional "envelope" envelope end

  abbrev f2 : Fields
  f2 = optional "payload" payload f1

  abbrev f3 : Fields
  f3 = optional "header" header f2

  abbrev f4 : Fields
  f4 = optional "kind" kind f3

  past_payload :
      (k : String)
      → str_eq "payload" k ≡ false
      → str_eq "envelope" k ≡ false
      → find_field k f2 ≡ none
  unfolding find_field
  past_payload k p e =
      skip-optional k "payload" payload f1 p ∙ skip-optional k "envelope" envelope end e

  past_kind :
      (k : String)
      → str_eq "kind" k ≡ false
      → str_eq "header" k ≡ false
      → find_field k f4 ≡ find_field k f2
  past_kind k d h = skip-optional k "kind" kind f3 d ∙ skip-optional k "header" header f2 h

  past_version :
      (k : String)
      → str_eq "version" k ≡ false
      → get k (hash_basis version kind header payload envelope end) ≡ find_field k f4
  unfolding hash_basis get
  past_version k d = skip-optional k "version" version f4 d

  hash_basis-parts :
      (get "version" (hash_basis version kind header payload envelope end) ≡ version)
      × (get "kind" (hash_basis version kind header payload envelope end) ≡ kind)
      × (get "header" (hash_basis version kind header payload envelope end) ≡ header)
      × (get "payload" (hash_basis version kind header payload envelope end) ≡ payload)
      × (get "envelope" (hash_basis version kind header payload envelope end) ≡ envelope)
      × (get "integrity" (hash_basis version kind header payload envelope end) ≡ none)
  unfolding hash_basis get find_field
  hash_basis-parts = (
    find-optional "version" version f4 refl
        (past_kind "version" refl refl ∙ past_payload "version" refl refl),
    past_version "kind" refl
        ∙ find-optional "kind" kind f3 refl
            (skip-optional "kind" "header" header f2 refl ∙ past_payload "kind" refl refl),
    past_version "header" refl
        ∙ (skip-optional "header" "kind" kind f3 refl
            ∙ find-optional "header" header f2 refl (past_payload "header" refl refl)),
    past_version "payload" refl
        ∙ (past_kind "payload" refl refl
            ∙ find-optional "payload" payload f1 refl
                (skip-optional "payload" "envelope" envelope end refl)),
    past_version "envelope" refl
        ∙ (past_kind "envelope" refl refl
            ∙ (skip-optional "envelope" "payload" payload f1 refl
                ∙ find-optional "envelope" envelope end refl refl)),
    past_version "integrity" refl
        ∙ (past_kind "integrity" refl refl ∙ past_payload "integrity" refl refl),
  )

basis_of-SameHashed :
    (encrypted : Json)
    → SameHashed (basis_of encrypted) encrypted × (get "integrity" (basis_of encrypted) ≡ none)
unfolding basis_of
basis_of-SameHashed encrypted =
    let (version, kind, header, payload, envelope, absent) =
      hash_basis-parts (get "version" encrypted) (get "kind" encrypted) (get "header" encrypted)
        (get "payload" encrypted) (get "envelope" encrypted) in
    (
      record {
        version = version;
        kind = kind;
        header = header;
        payload = payload;
        envelope = envelope;
      },
      absent,
    )

module _ (P : Platform) (encrypted : Json) (key : Bytes) (wallet : Text) (manifest : Json) where
  abbrev Parts : Json → Type 0
  Parts m =
      (check_encrypted P encrypted key wallet ≡ ok tt)
      × ((v : Json) × (check_decrypted wallet v ≡ ok m))

  decrypt-Returns : Returns Parts (decrypt_manifest_v1 P encrypted key wallet)
  unfolding decrypt_manifest_v1
  decrypt-Returns =
      let header = get "header" encrypted in
      Returns-bind Parts (check_encrypted P encrypted key wallet) _ λ _ checked.
        Returns-bind Parts (base64_property P "nonce" header) _ λ nonce _.
          Returns-bind Parts (base64_property P "ciphertextB64" (get "payload" encrypted)) _ λ c _.
            Returns-bind Parts (or_throw (get_in "aad" header) aad_mismatch) _ λ aad_value _.
              Returns-bind Parts (aad_bytes P aad_value) _ λ aad _.
                Returns-bind Parts (or_throw (P.aead_decrypt c aad nonce key) decrypt_failed) _
                  λ plain _.
                    Returns-bind Parts (or_throw (decode_json P plain) invalid_payload) _
                      λ v _. last v checked
    where
      last :
          (v : Json)
          → check_encrypted P encrypted key wallet ≡ ok tt
          → Returns Parts (check_decrypted wallet v)
      last v checked = after (check_decrypted wallet v) refl
        where
          after : (r : Outcome ManifestError Json) → check_decrypted wallet v ≡ r → Returns Parts r
          after (ok m) e = (checked, (v, e))
          after (err x) e = tt

  decrypt-Parts : decrypt_manifest_v1 P encrypted key wallet ≡ ok manifest → Parts manifest
  decrypt-Parts h = subst (Returns Parts) h decrypt-Returns

  check_encrypted-parts :
      check_encrypted P encrypted key wallet ≡ ok tt
      → (is_num (get "version" encrypted) 1 ≡ true)
        × (is_str (get "kind" encrypted) (text "SJ_MANIFEST") ≡ true)
        × (is_str (get_in "walletPubKey" (get_in "aad" (get "header" encrypted))) wallet ≡ true)
        × (integrity_holds P encrypted ≡ true)
  unfolding check_encrypted aad_matches
  check_encrypted-parts h = ground arith

  integrity_holds-Integrity : integrity_holds P encrypted ≡ true → Integrity P encrypted
  unfolding integrity_holds compute_integrity encode_json
  integrity_holds-Integrity h =
      elim (Option-cases (get_in "sha256B64" (get "integrity" encrypted))) [
        | inl q ↦ absurd (ground (arith, q))
        | inr (stored, q) ↦ record {
          stored = stored;
          found = q;
          basis = basis_of encrypted;
          same = (basis_of-SameHashed encrypted).0;
          no_integrity = (basis_of-SameHashed encrypted).1;
          hash = text_eq→eq _ _ (ground (arith, q));
        }
      ]

  check_decrypted-parts :
      (v : Json)
      → check_decrypted wallet v ≡ ok manifest
      → (v ≡ manifest)
        × (is_num (get "version" v) 1 ≡ true)
        × (is_str (get "walletPubKey" v) wallet ≡ true)
  unfolding check_decrypted
  check_decrypted-parts v h = ground arith

  pub decrypt-Verified :
      decrypt_manifest_v1 P encrypted key wallet ≡ ok manifest
      → Verified P encrypted wallet manifest
  decrypt-Verified h =
      let (checked, (v, opened)) = decrypt-Parts h in
      let (version, kind, aad, integrity) = check_encrypted-parts checked in
      let (same, v_version, v_wallet) = check_decrypted-parts v opened in
      record {
        version = is_num-eq _ 1 version;
        kind = is_str-eq _ (text "SJ_MANIFEST") kind;
        aad_wallet = is_str-eq _ wallet aad;
        integrity = integrity_holds-Integrity integrity;
        manifest_version = ap (get "version") (sym same) ∙ is_num-eq _ 1 v_version;
        manifest_wallet = ap (get "walletPubKey") (sym same) ∙ is_str-eq _ wallet v_wallet;
      }

some-injective : {a b : Json} → ◌≡◌ {A = Option Json} (some a) (some b) → a ≡ b
some-injective h = cc

SameHashed-through :
    (a b a' b' : Json) → a' ≡ b' → SameHashed a' a → SameHashed b' b → SameHashed a b
SameHashed-through a b a' b' q s t = record {
  version = sym s.version ∙ (ap (get "version") q ∙ t.version);
  kind = sym s.kind ∙ (ap (get "kind") q ∙ t.kind);
  header = sym s.header ∙ (ap (get "header") q ∙ t.header);
  payload = sym s.payload ∙ (ap (get "payload") q ∙ t.payload);
  envelope = sym s.envelope ∙ (ap (get "envelope") q ∙ t.envelope);
}

encode_json-injective :
    (P : Platform) → Lawful P → (a b : Json) → encode_json P a ≡ encode_json P b → a ≡ b
encode_json-injective P l a b same =
    some-injective (sym (decode-encode P l a) ∙ (ap (decode_json P) same ∙ decode-encode P l b))

-- two byte strings with one hash
abbrev pub Collision : Platform → Type 0
Collision P = (a : Bytes) × (b : Bytes) × (a ≢ b) × (P.sha256 a ≡ P.sha256 b)

-- On a lawful platform, if decryptManifestV1 accepts two objects with the same integrity property,
-- with whatever keys and wallets, then they agree in version, kind, header, payload and envelope,
-- or two different byte strings have the same SHA-256.
pub decrypt_tampered :
    (P : Platform) (l : Lawful P) (encrypted tampered : Json) (key key' : Bytes)
    (wallet wallet' : Text) (manifest manifest' : Json)
    → decrypt_manifest_v1 P encrypted key wallet ≡ ok manifest
    → decrypt_manifest_v1 P tampered key' wallet' ≡ ok manifest'
    → get_in "sha256B64" (get "integrity" tampered) ≡ get_in "sha256B64" (get "integrity" encrypted)
    → SameHashed tampered encrypted ⊎ Collision P
unfolding encode_json
decrypt_tampered P l encrypted tampered key key' wallet wallet' manifest manifest' h h' same =
    let i = (decrypt-Verified P encrypted key wallet manifest h).integrity in
    let i' = (decrypt-Verified P tampered key' wallet' manifest' h').integrity in
    let a = encode_json P i'.basis in
    let b = encode_json P i.basis in
    let stored : i'.stored ≡ i.stored = some-injective (sym i'.found ∙ (same ∙ i.found)) in
    let hashes : P.to_base64 (P.sha256 a) ≡ P.to_base64 (P.sha256 b) =
      sym i'.hash ∙ (ap P.string_of stored ∙ i.hash) in
    elim (Bool-cases (text_eq a b)) [
      | inl one ↦
          let basis = encode_json-injective P l i'.basis i.basis (text_eq→eq a b one) in
          inl (SameHashed-through tampered encrypted i'.basis i.basis basis i'.same i.same)
      | inr two ↦ inr (
        a,
        b,
        λ q. absurd (ground (arith, q, two, text_eq_refl b)),
        sym (l.base64_opens _) ∙ (ap P.from_base64 hashes ∙ l.base64_opens _),
      )
    ]
