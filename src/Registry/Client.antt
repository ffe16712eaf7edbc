-- ===== src/Registry/Client.antt =====
-- packages/solana-registry/src/index.ts, and `getRegistry` and `publishManifest` of
-- apps/web/src/lib/solana/RegistryService.ts. Anchor, the RPC node and the wallet are parameters.
pub mod Publishing
use sovereign_jedi.Prelude.{
  ℕ, Bool, true, false, Option, none, some, List, [], ◌∷◌, Text, text, trim, ◌==◌, ◌&&◌, ◌||◌,
  if◌then◌else◌, Outcome, ok, err, ◌>>=◌, or_throw,
}
use sovereign_jedi.Platform.{Platform, Bytes}
use sovereign_jedi.Registry.Head.{RegistryEntry}
use sovereign_jedi.Registry.Retry.{with_retry}

-- `toLowerCase`, `PublicKey.findProgramAddressSync`, `new PublicKey(…)` (`none` where it throws),
-- and what attempt i of `registryAccount.fetch` gives for an address: entries or a message.
pub record Chain : Type 0 where
  pub to_lower : Text → Text
  pub find_program_address : List Bytes → Bytes → Bytes
  pub public_key : Text → Option Bytes
  pub fetch : ℕ → Bytes → Outcome Text (List RegistryEntry)

unfoldable pub starts_with : Text → Text → Bool
starts_with [] s = true
starts_with (c ∷ p) [] = false
starts_with (c ∷ p) (d ∷ s) = c == d && starts_with p s

-- `s.includes(p)`
unfoldable pub includes : Text → Text → Bool
unfolding starts_with
includes p [] = starts_with p []
includes p (c ∷ s) = starts_with p (c ∷ s) || includes p s

unfoldable pub vault_id_hash : Platform → Chain → Text → Bytes
vault_id_hash P c vault_id = P.sha256 (P.utf8_encode (c.to_lower (trim vault_id)))

unfoldable pub get_registry_address : Platform → Chain → Bytes → Text → Bytes → Bytes
unfolding vault_id_hash
get_registry_address P c wallet vault_id program_id =
    c.find_program_address
      (P.utf8_encode (text "SJ_REGISTRY_V1") ∷ (wallet ∷ (vault_id_hash P c vault_id ∷ [])))
      program_id

unfoldable pub is_missing : Text → Bool
unfolding includes
is_missing message =
    includes (text "Account does not exist") message || includes (text "could not find") message

-- a missing account is no error
unfoldable pub missing_as_none :
    Outcome Text (List RegistryEntry) → Outcome Text (Option (List RegistryEntry))
unfolding is_missing
missing_as_none (ok account) = ok (some account)
missing_as_none (err message) = if is_missing message then ok none else err message

unfoldable pub fetch_registry :
    Platform → Chain → ℕ → Bytes → Text → Bytes → Outcome Text (Option (List RegistryEntry))
unfolding missing_as_none
fetch_registry P c attempt wallet vault_id program_id =
    missing_as_none (c.fetch attempt (get_registry_address P c wallet vault_id program_id))

pub data RegistryInstruction : Type 0 where
  -- vault id, its hash, schema version; registry, wallet
  init_registry : Text → Bytes → ℕ → Bytes → Bytes → RegistryInstruction
  -- hash of the vault id, CID, schema version; registry, wallet
  append_manifest : Bytes → Text → ℕ → Bytes → Bytes → RegistryInstruction

unfoldable pub create_init_registry_instruction :
    Platform → Chain → Bytes → Text → ℕ → Bytes → RegistryInstruction
unfolding get_registry_address vault_id_hash
create_init_registry_instruction P c wallet vault_id version program_id =
    init_registry vault_id (vault_id_hash P c vault_id) version
      (get_registry_address P c wallet vault_id program_id) wallet

unfoldable pub create_append_manifest_instruction :
    Platform → Chain → Bytes → Text → Text → ℕ → Bytes → RegistryInstruction
unfolding get_registry_address vault_id_hash
create_append_manifest_instruction P c wallet vault_id manifest_cid version program_id =
    append_manifest (vault_id_hash P c vault_id) manifest_cid version
      (get_registry_address P c wallet vault_id program_id) wallet

abbrev pub invalid_key : Text
invalid_key = text "Invalid public key input"

module _ (P : Platform) (c : Chain) (program_id : Bytes) (retries backoff_ms : ℕ) where
  -- one attempt: the key is read anew each time
  unfoldable pub registry_attempt : Text → Text → ℕ → Outcome Text (Option (List RegistryEntry))
  unfolding fetch_registry
  registry_attempt wallet_pub_key vault_id i = do
    wallet ← or_throw (c.public_key wallet_pub_key) invalid_key
    fetch_registry P c i wallet vault_id program_id

  unfoldable pub get_registry : Text → Text → Outcome Text (Option (List RegistryEntry))
  unfolding registry_attempt
  get_registry wallet_pub_key vault_id =
      (with_retry (registry_attempt wallet_pub_key vault_id) backoff_ms retries).0

  abbrev init_first :
      Bytes
      → Text
      → ℕ
      → Option (List RegistryEntry)
      → List RegistryInstruction
      → List RegistryInstruction
  init_first wallet vault_id version (some account) rest = rest
  init_first wallet vault_id version none rest =
      create_init_registry_instruction P c wallet vault_id version program_id ∷ rest

  unfoldable pub publish_transaction :
      Bytes → Text → Text → ℕ → Option (List RegistryEntry) → List RegistryInstruction
  publish_transaction wallet vault_id manifest_cid version registry =
      init_first wallet vault_id version registry (
        create_append_manifest_instruction P c wallet vault_id manifest_cid version program_id ∷ [])

  -- `send` is `wallet.sendTransaction`, `confirm` is `confirmTransaction`. The transactions that
  -- reached the wallet come out beside the outcome.
  unfoldable pub publish_manifest :
      (List RegistryInstruction → Outcome Text Text)
      → (Text → Outcome Text Unit)
      → Text
      → Bytes
      → Text
      → Text
      → ℕ
      → Outcome Text Text × List (List RegistryInstruction)
  unfolding get_registry publish_transaction
  publish_manifest send confirm base58 wallet vault_id manifest_cid version =
      elim (get_registry base58 vault_id) [
        | err e ↦ (err e, [])
        | ok registry ↦
            let transaction = publish_transaction wallet vault_id manifest_cid version registry in
            (
              do signature ← send transaction; confirm signature >>= λ u. ok signature,
              transaction ∷ [],
            )
      ]
