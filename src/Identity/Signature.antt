-- ===== src/Identity/Signature.antt =====
-- apps/web/src/components/wallet/utils.ts: the encodings of a signature, and its verification. The
-- packages bs58, tweetnacl and @solana/web3.js are parameters.
pub mod Laws
use sovereign_jedi.Prelude.{
  ℕ, ◌*◌, ◌/◌, Bool, true, false, Option, none, some, List, [], ◌∷◌, Text, is_empty, is_some,
  length, not, ◌==◌, ◌&&◌, if◌then◌else◌, Outcome, ok, err, ◌>>=◌, ◌>>◌, throw_if, or_throw,
}
use sovereign_jedi.Platform.{Platform, Bytes}
use sovereign_jedi.Crypto.Hex.{digit_value, hex_to_bytes}
use sovereign_jedi.Session.Signing.{Decoders}
use sovereign_jedi.Identity.{
  IdentityError, undecodable_signature, invalid_message, invalid_public_key,
  invalid_public_key_size,
}

-- bs58.encode, `new PublicKey(s).toBytes()` (`none` where it throws), and
-- `nacl.sign.detached.verify` of a message, a signature and a key (`none` where it throws)
pub record WalletKeys : Type 0 where
  pub decoders : Decoders
  pub base58_encode : Bytes → Text
  pub public_key_bytes : Text → Option Bytes
  pub verify_detached : Bytes → Bytes → Bytes → Option Bool

pub data SignatureText : Type 0 where
  string : Text → SignatureText
  bytes : Bytes → SignatureText

-- bytes of the right size, if a decoder gave them
unfoldable pub sized : Option Bytes → Option Bytes
sized none = none
sized (some b) = if length b == 64 then some b else none

-- `base64ToBytes`, `none` where it throws: Buffer serves where there is no `atob`.
unfoldable pub base64_to_bytes : Decoders → Text → Option Bytes
base64_to_bytes d s = elim d.atob [
  | some decode ↦ decode s
  | none ↦ elim d.buffer_from [ some decode ↦ some (decode s) | none ↦ none ]
]

unfoldable pub all_hex : Text → Bool
all_hex [] = true
all_hex (c ∷ s) = is_some (digit_value c) && all_hex s

-- /^[0-9a-fA-F]+$/ and 128 characters
unfoldable pub decode_hex_signature : Text → Outcome IdentityError Bytes
unfolding all_hex
decode_hex_signature s =
    if (not (is_empty s) && all_hex s) && length s == 128
    then ok (hex_to_bytes s)
    else err undecodable_signature

unfoldable pub decode_signature : Decoders → SignatureText → Outcome IdentityError Bytes
unfolding sized base64_to_bytes decode_hex_signature
decode_signature d (bytes b) = if length b == 64 then ok b else err undecodable_signature
decode_signature d (string s) = elim (sized (d.base58_decode s)) [
  | some b ↦ ok b
  | none ↦ elim (sized (base64_to_bytes d s)) [ some b ↦ ok b | none ↦ decode_hex_signature s ]
]

unfoldable pub signature_to_base58 : WalletKeys → SignatureText → Outcome IdentityError Text
unfolding decode_signature
signature_to_base58 k sig = do b ← decode_signature k.decoders sig; ok (k.base58_encode b)

abbrev checked : Option Bool → Bool
checked none = false
checked (some b) = b

unfoldable pub verify_message_signature :
    Platform → WalletKeys → Text → SignatureText → Text → Outcome IdentityError Bool
unfolding decode_signature
verify_message_signature P k message signature public_key = do
  sig_bytes ← decode_signature k.decoders signature
  key ← or_throw (k.public_key_bytes public_key) invalid_public_key
  throw_if (not (length key == 32)) invalid_public_key_size
  ok (checked (k.verify_detached (P.utf8_encode message) sig_bytes key))

-- `reason`
pub data Reason : Type 0 where
  empty_message empty_signature empty_public_key : Reason
  invalid_signature_encoding invalid_key signature_mismatch internal_error : Reason

-- `!signature`: bytes are an object, so they are there even if empty
abbrev absent_signature : SignatureText → Bool
absent_signature (string s) = is_empty s
absent_signature (bytes b) = false

abbrev pub mismatch : Option Bool → Outcome Reason Unit
mismatch none = err internal_error
mismatch (some true) = ok tt
mismatch (some false) = err signature_mismatch

abbrev decoded : Outcome IdentityError Bytes → Outcome Reason Bytes
decoded (ok b) = ok b
decoded (err e) = err invalid_signature_encoding

-- `{ ok: true }`, or the reason of `{ ok: false, reason }`
unfoldable pub verify_message_signature_verbose :
    Platform → WalletKeys → Text → SignatureText → Text → Outcome Reason Unit
unfolding decode_signature
verify_message_signature_verbose P k message signature public_key = do
  throw_if (is_empty message) empty_message
  throw_if (absent_signature signature) empty_signature
  throw_if (is_empty public_key) empty_public_key
  sig_bytes ← decoded (decode_signature k.decoders signature)
  key ← or_throw (k.public_key_bytes public_key) invalid_key
  mismatch (k.verify_detached (P.utf8_encode message) sig_bytes key)
