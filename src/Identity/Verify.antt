-- ===== src/Identity/Verify.antt =====
-- `doVerify` of apps/web/src/components/wallet/VerifyWallet.tsx: a nonce, the wallet's signature of
-- the proof message, its verification, and the identity kept in localStorage.
pub mod Outcomes
use sovereign_jedi.Prelude.{
  ℕ, Bool, true, false, Option, none, some, List, [], ◌∷◌, Text, is_empty, Outcome, ok, err, ◌>>=◌,
  ◌>>◌, or_throw, if◌then◌else◌,
}
use sovereign_jedi.Platform.{Platform, Bytes}
use sovereign_jedi.Session.Signing.{Decoders}
use sovereign_jedi.Identity.{
  Identity, IdentityError, Numeral, ProofParams, get_proof_ttl_seconds, generate_nonce,
  build_proof_message, compute_expires_at,
}
use sovereign_jedi.Identity.Store.{BrowserStorage, save_identity}
use sovereign_jedi.Identity.Signature.{
  WalletKeys, SignatureText, string, bytes, Reason, signature_to_base58,
  verify_message_signature_verbose,
}

-- What `signMessage` gives: a rejected promise, nothing usable, an object with a `signature`, bytes,
-- or a string.
pub data SignReply : Type 0 where
  rejected nothing : SignReply
  signature_field signed_bytes : Bytes → SignReply
  signed_text : Text → SignReply

pub data VerifyError : Type 0 where
  no_public_key no_signature provider_rejected : VerifyError
  verification_failed : Reason → VerifyError
  thrown : IdentityError → VerifyError

-- The adapter's `signMessage` is called once or twice; the number tells the calls apart.
pub record Wallets : Type 0 where
  pub adapter : Option (ℕ → Bytes → SignReply)
  pub solana : Option (Bytes → SignReply)

-- What the component is given: its properties, the two configured lifetimes, the clock at the start
-- and after the signature, and 24 random bytes.
pub record VerifySetting : Type 0 where
  pub keys : WalletKeys
  pub wallets : Wallets
  pub number : Text → Numeral
  pub public_ttl : Option Text
  pub internal_ttl : Option Text
  pub effective_public_key : Text
  pub domain : Text
  pub cluster : Text
  pub random : Bytes
  pub started_ms : ℕ
  pub verified_ms : ℕ

-- The state hooks, the storage, and the identities given to `onVerified`.
pub record VerifyState : Type 0 where
  pub error : Option VerifyError
  pub verifying : Bool
  pub last_identity : Option Identity
  pub storage : Option BrowserStorage
  pub reported : List Identity

-- the bytes of an object with a signature or of a Uint8Array; a string gives none
unfoldable pub reply_bytes : SignReply → Option Bytes
reply_bytes (signature_field b) = some b
reply_bytes (signed_bytes b) = some b
reply_bytes _ = none

unfoldable pub ask_adapter : Wallets → Bytes → Option Bytes
unfolding reply_bytes
ask_adapter w message = elim w.adapter [ none ↦ none | some f ↦ reply_bytes (f 0 message) ]

abbrev provider_reply : SignReply → Outcome VerifyError (Option Bytes)
provider_reply rejected = err provider_rejected
provider_reply nothing = ok none
provider_reply (signature_field b) = ok (some b)
provider_reply (signed_bytes b) = ok (some b)
provider_reply (signed_text s) = ok none

-- A rejection by the extension is not caught here.
unfoldable pub ask_solana : Wallets → Bytes → Outcome VerifyError (Option Bytes)
unfolding reply_bytes
ask_solana w message = elim w.solana [ none ↦ ok none | some f ↦ provider_reply (f message) ]

-- `new Uint8Array(Buffer.from(maybe, 'base64'))`, under `try … catch { }`
unfoldable pub text_reply : Decoders → SignReply → Option Bytes
text_reply d (signed_text s) = elim d.buffer_from [ none ↦ none | some decode ↦ some (decode s) ]
text_reply d _ = none

unfoldable pub ask_adapter_text : Decoders → Wallets → Bytes → Option Bytes
unfolding text_reply
ask_adapter_text d w message = elim w.adapter [ none ↦ none | some f ↦ text_reply d (f 1 message) ]

unfoldable pub ask_others : Decoders → Wallets → Bytes → Outcome VerifyError (Option Bytes)
unfolding ask_solana ask_adapter_text
ask_others d w message = do
  found ← ask_solana w message
  elim found [ some b ↦ ok (some b) | none ↦ ok (ask_adapter_text d w message) ]

unfoldable pub obtain_signature : Decoders → Wallets → Bytes → Outcome VerifyError (Option Bytes)
unfolding ask_adapter ask_others
obtain_signature d w message = elim (ask_adapter w message) [
  | some b ↦ ok (some b)
  | none ↦ ask_others d w message
]

abbrev or_thrown : {A : Type 0} → Outcome IdentityError A → Outcome VerifyError A
or_thrown (ok a) = ok a
or_thrown (err e) = err (thrown e)

abbrev or_failed : Outcome Reason Unit → Outcome VerifyError Unit
or_failed (ok u) = ok u
or_failed (err e) = err (verification_failed e)

abbrev proof_params : Platform → VerifySetting → ProofParams
proof_params P s = record {
  domain = s.domain;
  public_key = s.effective_public_key;
  nonce = generate_nonce s.random;
  issued_at = P.to_iso_string s.started_ms;
  cluster = s.cluster;
  statement = none;
}

unfoldable pub proof_message : Platform → VerifySetting → Text
unfolding build_proof_message
proof_message P s = build_proof_message (proof_params P s)

-- The block under `try`, up to the identity it builds.
unfoldable pub prove_control : Platform → VerifySetting → Outcome VerifyError Identity
unfolding obtain_signature
prove_control P s = do
  let message = proof_message P s
  found ← obtain_signature s.keys.decoders s.wallets (P.utf8_encode message)
  signature_bytes ← or_throw found no_signature
  signature_base58 ← or_thrown (signature_to_base58 s.keys (bytes signature_bytes))
  or_failed (
      verify_message_signature_verbose P s.keys message (bytes signature_bytes)
        s.effective_public_key)
  let verified_at = P.to_iso_string s.verified_ms
  let ttl = get_proof_ttl_seconds s.number s.public_ttl s.internal_ttl
  expires_at ← or_thrown (compute_expires_at P verified_at ttl)
  ok (record {
    public_key = s.effective_public_key;
    message = message;
    signature = signature_base58;
    issued_at = P.to_iso_string s.started_ms;
    verified_at = verified_at;
    expires_at = expires_at;
    nonce = generate_nonce s.random;
    cluster = s.cluster;
    domain = s.domain;
  })

unfoldable pub finish_verify : Platform → Outcome VerifyError Identity → VerifyState → VerifyState
finish_verify P (err e) st = record st { error = some e; verifying = false }
finish_verify P (ok i) st = record st {
  error = none;
  verifying = false;
  last_identity = some i;
  storage = save_identity P i st.storage;
  reported = i ∷ st.reported;
}

unfoldable pub do_verify : Platform → VerifySetting → VerifyState → VerifyState
unfolding finish_verify
do_verify P s st =
    if is_empty s.effective_public_key
    then record st { error = some no_public_key }
    else finish_verify P (prove_control P s) st
