-- ===== src/Crypto/VaultRoot.antt =====
-- SJ_VAULT_ROOT_V1, the stable message whose signature roots the manifest key:
-- `buildVaultRootMessageV1` of packages/crypto/src/index.ts.
use sovereign_jedi.Prelude.{Option, none, some, Text, text, ◌++◌, or_default, Outcome, ok, ◌>>=◌}
use sovereign_jedi.Json.{Json, null, str, obj, end, field}
use sovereign_jedi.Platform.{Platform}
use sovereign_jedi.Crypto.Errors.{CryptoError}
use sovereign_jedi.Crypto.Unlock.{canonicalize_json}

-- The wallet is null where `SessionManager` has dropped it while `unlockVault` waited.
pub record VaultRootMessageV1 : Type 0 where
  pub wallet : Option Text
  pub vault_id : Text

pub record BuildVaultRootResult : Type 0 where
  pub canonical_object : VaultRootMessageV1
  pub message_to_sign : Text

abbrev str_or_null : Option Text → Json
str_or_null none = null
str_or_null (some t) = str t

unfoldable pub vault_root_message_json : VaultRootMessageV1 → Json
vault_root_message_json m = obj (
    field "sj" (str (text "SovereignJedi")) (
      field "ver" (str (text "1")) (
        field "type" (str (text "VAULT_ROOT"))
          (field "wallet" (str_or_null m.wallet) (field "vaultId" (str m.vault_id) end)))))

unfoldable pub build_vault_root_message_v1 :
    Platform → Option Text → Option Text → Outcome CryptoError BuildVaultRootResult
unfolding canonicalize_json
build_vault_root_message_v1 P wallet vault_id = do
  let message : VaultRootMessageV1 = record {
    wallet = wallet;
    vault_id = or_default vault_id (text "local-default");
  }
  jcs ← canonicalize_json P (vault_root_message_json message)
  ok (record { canonical_object = message; message_to_sign = text "SJ_VAULT_ROOT_V1\n" ++ jcs })
