-- ===== src/Registry/Client/Publishing.antt =====
-- What a publication sends.
use sovereign_jedi.Prelude.{
  ℕ, ◌<◌, ◌≤◌, ◌≡◌, refl, ap, ◌∙◌, true, false, ◌||◌, Option, none, some, List, [], ◌∷◌, Text, text,
  trim, ok, err, arith, Outcome,
}
use sovereign_jedi.Platform.{Platform, Bytes}
use sovereign_jedi.Registry.Head.{RegistryEntry}
use sovereign_jedi.Registry.Retry.Laws.{with_retry-ok, with_retry-err}
use sovereign_jedi.Registry.Client.{
  Chain, RegistryInstruction, init_registry, append_manifest, includes,
  create_init_registry_instruction, create_append_manifest_instruction, vault_id_hash,
  get_registry_address, is_missing, missing_as_none, fetch_registry, registry_attempt, get_registry,
  publish_transaction, publish_manifest,
}

-- Vault ids that differ in case or in blanks at their ends have one account.
pub get_registry_address-canonical :
    (P : Platform) (c : Chain) (wallet program_id : Bytes) (a b : Text)
    → c.to_lower (trim a) ≡ c.to_lower (trim b)
    → get_registry_address P c wallet a program_id ≡ get_registry_address P c wallet b program_id
unfolding get_registry_address vault_id_hash
get_registry_address-canonical P c wallet program_id a b same =
    rw (get_registry_address, vault_id_hash, same) refl

module _ (P : Platform) (c : Chain) (program_id : Bytes) (retries backoff_ms : ℕ) (key : Text)
    (wallet : Bytes) (vault_id : Text) where
  attempt-fetch :
      (i : ℕ)
      → c.public_key key ≡ some wallet
      → registry_attempt P c program_id retries backoff_ms key vault_id i
        ≡ missing_as_none (c.fetch i (get_registry_address P c wallet vault_id program_id))
  unfolding registry_attempt fetch_registry
  attempt-fetch i known = rw known refl

  -- a network error: the account is not said to be missing
  abbrev pub Broken : ℕ → Text → Type 0
  Broken i message =
      (c.fetch i (get_registry_address P c wallet vault_id program_id) ≡ err message)
      × (is_missing message ≡ false)

  Broken-Fails :
      (i : ℕ) (message : Text)
      → c.public_key key ≡ some wallet
      → Broken i message
      → registry_attempt P c program_id retries backoff_ms key vault_id i ≡ err message
  unfolding missing_as_none
  Broken-Fails i message known (failed, present) =
      attempt-fetch i known ∙ ground (arith, failed, present)

  get_registry-Broken :
      (messages : ℕ → Text)
      → c.public_key key ≡ some wallet
      → ((i : ℕ) → i ≤ retries → Broken i (messages i))
      → get_registry P c program_id retries backoff_ms key vault_id ≡ err (messages retries)
  unfolding get_registry
  get_registry-Broken messages known broken =
      ap (λ r. r.0)
        (with_retry-err (registry_attempt P c program_id retries backoff_ms key vault_id) backoff_ms
          retries (messages retries)
          (λ j small. (messages j, Broken-Fails j (messages j) known (broken j (omega arith))))
          (Broken-Fails retries (messages retries) known (broken retries (omega arith))))

  -- If every attempt to read the registry ends in a network error, nothing is sent, and the last
  -- error is thrown.
  pub publish-Broken :
      (messages : ℕ → Text) (send : List RegistryInstruction → Outcome Text Text)
      (confirm : Text → Outcome Text Unit) (manifest_cid : Text) (version : ℕ)
      → c.public_key key ≡ some wallet
      → ((i : ℕ) → i ≤ retries → Broken i (messages i))
      → publish_manifest P c program_id retries backoff_ms send confirm key wallet vault_id
          manifest_cid version
        ≡ (err (messages retries), [])
  unfolding publish_manifest
  publish-Broken messages send confirm manifest_cid version known broken =
      rw (publish_manifest, get_registry-Broken messages known broken) refl

  -- what one attempt answers after network errors
  get_registry-answer :
      (k : ℕ) (messages : ℕ → Text) (r : Option (List RegistryEntry))
      → c.public_key key ≡ some wallet
      → k ≤ retries
      → ((i : ℕ) → i < k → Broken i (messages i))
      → missing_as_none (c.fetch k (get_registry_address P c wallet vault_id program_id)) ≡ ok r
      → get_registry P c program_id retries backoff_ms key vault_id ≡ ok r
  unfolding get_registry
  get_registry-answer k messages r known bound broken answered =
      ap (λ (x : Outcome Text (Option (List RegistryEntry)) × List ℕ). x.0)
        (with_retry-ok (registry_attempt P c program_id retries backoff_ms key vault_id) backoff_ms
          retries k r (λ j small. (messages j, Broken-Fails j (messages j) known (broken j small)))
          bound (attempt-fetch k known ∙ answered))

  -- the hash of the vault id, trimmed and in lower case, and the address that it gives
  abbrev hash : Bytes
  hash = P.sha256 (P.utf8_encode (c.to_lower (trim vault_id)))

  abbrev address : Bytes
  address =
      c.find_program_address (P.utf8_encode (text "SJ_REGISTRY_V1") ∷ (wallet ∷ (hash ∷ [])))
        program_id

  -- Attempt k gives the entries of the account, or a message that says it is missing.
  abbrev pub Answered : ℕ → Option (List RegistryEntry) → Type 0
  Answered k (some entries) = c.fetch k address ≡ ok entries
  Answered k none =
      (message : Text) × (c.fetch k address ≡ err message)
      × ((includes (text "Account does not exist") message
            || includes (text "could not find") message)
          ≡ true)

  -- the instructions of the transaction: the append alone, or the creation and the append
  abbrev pub expected : Text → ℕ → Option (List RegistryEntry) → List RegistryInstruction
  expected manifest_cid version (some entries) =
      append_manifest hash manifest_cid version address wallet ∷ []
  expected manifest_cid version none =
      init_registry vault_id hash version address wallet
      ∷ (append_manifest hash manifest_cid version address wallet ∷ [])

  Answered-none :
      (k : ℕ) (r : Option (List RegistryEntry))
      → Answered k r
      → missing_as_none (c.fetch k (get_registry_address P c wallet vault_id program_id)) ≡ ok r
  unfolding missing_as_none is_missing get_registry_address vault_id_hash
  Answered-none k (some entries) found = rw (missing_as_none, found) refl
  Answered-none k none (message, failed, missing) = rw (failed, missing) refl

  publish_transaction-expected :
      (manifest_cid : Text) (version : ℕ) (r : Option (List RegistryEntry))
      → publish_transaction P c program_id retries backoff_ms wallet vault_id manifest_cid version r
        ≡ expected manifest_cid version r
  unfolding publish_transaction create_init_registry_instruction create_append_manifest_instruction
      get_registry_address vault_id_hash
  publish_transaction-expected manifest_cid version (some entries) = refl
  publish_transaction-expected manifest_cid version none = refl

  -- If the key is valid and, within the retries, an attempt to read the registry answers after
  -- network errors only, publishManifest hands the wallet one transaction: it appends the CID at
  -- the address that the wallet and the hash of the vault id give, after creating the registry
  -- there exactly if the answer was that the account is missing.
  pub publish-sends :
      (k : ℕ) (messages : ℕ → Text) (r : Option (List RegistryEntry))
      (send : List RegistryInstruction → Outcome Text Text) (confirm : Text → Outcome Text Unit)
      (manifest_cid : Text) (version : ℕ)
      → c.public_key key ≡ some wallet
      → k ≤ retries
      → ((i : ℕ) → i < k → Broken i (messages i))
      → Answered k r
      → (publish_manifest P c program_id retries backoff_ms send confirm key wallet vault_id
          manifest_cid version).1
        ≡ expected manifest_cid version r ∷ []
  unfolding publish_manifest
  publish-sends k messages r send confirm manifest_cid version known bound broken answered =
      rw
        (
          publish_manifest,
          get_registry-answer k messages r known bound broken (Answered-none k r answered),
        )
        (ap (λ (t : List RegistryInstruction). t ∷ [])
          (publish_transaction-expected manifest_cid version r))
