-- ===== src/Session/Signing.antt =====
-- How `unlockVault` asks for a signature: `toUint8Array` and the choice between the wallet adapter,
-- an injected signer and `window.solana`.
use sovereign_jedi.Prelude.{Option, none, some, Text, Outcome, ok, err}
use sovereign_jedi.Platform.{Bytes}
use sovereign_jedi.Crypto.Errors.{CryptoError}

pub data SessionError : Type 0 where
  wallet_not_connected no_signature no_vault_root_signature undecodable : SessionError
  signer_rejected : SessionError
  crypto : CryptoError → SessionError

pub data SignatureInput : Type 0 where
  uint8_array array_like : Bytes → SignatureInput
  string : Text → SignatureInput

-- bs58.decode and atob, `none` where they throw; `atob` and `Buffer` may be missing from the host.
pub record Decoders : Type 0 where
  pub base58_decode : Text → Option Bytes
  pub atob : Option (Text → Option Bytes)
  pub buffer_from : Option (Text → Bytes)

abbrev buffer_fallback : Option (Text → Bytes) → Text → Outcome SessionError Bytes
buffer_fallback none s = err undecodable
buffer_fallback (some decode) s = ok (decode s)

-- The Buffer fallback is in the handler of `atob`'s exception, so a host with no `atob` at all does
-- not reach it.
abbrev from_base64_text : Decoders → Text → Outcome SessionError Bytes
from_base64_text d s = elim d.atob [
  | none ↦ err undecodable
  | some decode ↦ elim (decode s) [ none ↦ buffer_fallback d.buffer_from s | some b ↦ ok b ]
]

unfoldable pub to_uint8_array : Decoders → SignatureInput → Outcome SessionError Bytes
to_uint8_array d (uint8_array b) = ok b
to_uint8_array d (array_like b) = ok b
to_uint8_array d (string s) = elim (d.base58_decode s) [
  | none ↦ from_base64_text d s
  | some b ↦ ok b
]

-- What a call of the wallet gives back: a rejected promise, an answer with no signature, or one.
pub data Reply : Type 0 where
  rejected : Reply
  empty : Reply
  signed : SignatureInput → Reply

-- `window.solana`: missing, with `signMessage`, or with `request` alone.
pub data Provider : Type 0 where
  absent : Provider
  sign_message request : (Bytes → Reply) → Provider

pub record Signers : Type 0 where
  pub wallet_adapter_signer : Option (Bytes → Outcome SessionError (Option Bytes))
  pub signer : Option (Bytes → Outcome SessionError (Option Bytes))
  pub provider : Provider
  pub decoders : Decoders

-- `if (res && res.signature) signature = toUint8Array(…)`, under `try … catch { }`
unfoldable pub provider_signature : Decoders → Reply → Option Bytes
unfolding to_uint8_array
provider_signature d rejected = none
provider_signature d empty = none
provider_signature d (signed input) = elim (to_uint8_array d input) [ ok b ↦ some b | err e ↦ none ]

unfoldable pub ask_provider : Signers → Provider → Bytes → Option Bytes
unfolding provider_signature
ask_provider s absent message = none
ask_provider s (sign_message f) message = provider_signature s.decoders (f message)
ask_provider s (request f) message = provider_signature s.decoders (f message)

unfoldable pub request_signature : Signers → Bytes → Outcome SessionError (Option Bytes)
unfolding ask_provider
request_signature s message = elim s.wallet_adapter_signer [
  | some f ↦ f message
  | none ↦ elim s.signer [ some f ↦ f message | none ↦ ok (ask_provider s s.provider message) ]
]

unfoldable pub set_signer : (Bytes → Outcome SessionError (Option Bytes)) → Signers → Signers
set_signer f s = record s { signer = some f }

-- `undefined` takes the wallet adapter's signer away.
unfoldable pub set_wallet_adapter_signer :
    Option (Bytes → Outcome SessionError (Option Bytes)) → Signers → Signers
set_wallet_adapter_signer f s = record s { wallet_adapter_signer = f }
