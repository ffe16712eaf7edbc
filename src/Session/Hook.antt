-- ===== src/Session/Hook.antt =====
-- apps/web/src/lib/session/useSession.ts: the React state that mirrors the session manager, and the
-- published registry it fetches. A getter that the manager may lack has its value or null.
use sovereign_jedi.Prelude.{
  ℕ, Bool, true, false, Option, none, Text, List, Outcome, ok, err, if◌then◌else◌,
}
use sovereign_jedi.Json.{Json}
use sovereign_jedi.Platform.{Platform, Bytes}
use sovereign_jedi.Crypto.Unlock.{BuildUnlockResult}
use sovereign_jedi.Crypto.VaultRoot.{BuildVaultRootResult}
use sovereign_jedi.Session.Manager.{
  SessionManager, string, connect_wallet, disconnect_wallet, lock_vault, get_verified,
  is_wallet_connected, is_vault_unlocked, is_key,
}
use sovereign_jedi.Registry.Head.{RegistryEntry}

pub record SessionState : Type 0 where
  pub wallet_pub_key : Option Text
  pub is_vault_unlocked : Bool
  pub verified : Option Json
  pub is_wallet_connected : Bool
  pub on_chain_registry : Option (List RegistryEntry)
  pub registry_failed : Bool
  pub last_unlock : Option BuildUnlockResult
  pub last_unlock_signature_bytes : Option Bytes
  pub last_vault_root : Option BuildVaultRootResult
  pub last_vault_root_signature_bytes : Option Bytes

-- `refresh`: the manager's values, in the order they are read; `getVerified` may clear an expired
-- one.
unfoldable pub refresh :
    Platform → ℕ → SessionState → SessionManager → SessionState × SessionManager
refresh P now s m =
    let (verified, m') = get_verified P now m in
    (
      record s {
        wallet_pub_key = m.wallet_pub_key;
        is_vault_unlocked = is_vault_unlocked m;
        verified = verified;
        is_wallet_connected = is_wallet_connected m';
        last_unlock = m'.last_unlock;
        last_unlock_signature_bytes = m'.last_unlock_signature_bytes;
        last_vault_root = m'.last_vault_root;
        last_vault_root_signature_bytes = m'.last_vault_root_signature_bytes;
      },
      m',
    )

unfoldable pub hook_connect_wallet :
    Platform
    → ℕ
    → Text
    → Option Text
    → SessionState
    → SessionManager
    → SessionState × SessionManager
unfolding refresh
hook_connect_wallet P now pub_key provider s m =
    refresh P now s (connect_wallet P now (string pub_key) provider m)

unfoldable pub hook_disconnect_wallet :
    Platform → ℕ → SessionState → SessionManager → SessionState × SessionManager
unfolding refresh
hook_disconnect_wallet P now s m =
    refresh P now (record s { on_chain_registry = none }) (disconnect_wallet m)

unfoldable pub hook_lock_vault :
    Platform → ℕ → SessionState → SessionManager → SessionState × SessionManager
unfolding refresh
hook_lock_vault P now s m = refresh P now s (lock_vault m)

-- The effect on the wallet's key, once `getRegistry` has answered: an account, none, or an
-- exception.
unfoldable pub registry_effect :
    {E : Type 0} → Outcome E (Option (List RegistryEntry)) → SessionState → SessionState
registry_effect (ok r) s =
    if is_key s.wallet_pub_key
    then record s { on_chain_registry = r; registry_failed = false }
    else record s { on_chain_registry = none; registry_failed = false }
registry_effect (err e) s =
    if is_key s.wallet_pub_key
    then record s { on_chain_registry = none; registry_failed = true }
    else record s { on_chain_registry = none; registry_failed = false }
