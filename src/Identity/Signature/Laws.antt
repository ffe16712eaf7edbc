-- ===== src/Identity/Signature/Laws.antt =====
-- Decoding gives 64 bytes, and the two verifications agree.
use sovereign_jedi.Prelude.{
  ℕ, zero, suc, ◌*◌, ◌/◌, ◌%◌, ◌≡◌, refl, ap, true, false, Option, none, some, [], ◌∷◌, Text,
  length, ok, arith, is_empty, ◌<◌, Option-cases, Outcome-cases, inl, inr, is_some, All,
}
use sovereign_jedi.Platform.{Platform, Bytes}
use sovereign_jedi.Crypto.Hex.{to_hex, hex_to_bytes, hex_digit, digit_value}
use sovereign_jedi.Crypto.Hex.Laws.{hex_to_bytes-to_hex, length-to_hex, digit_value-hex_digit}
use sovereign_jedi.Session.Signing.{Decoders}
use sovereign_jedi.Identity.Signature.{
  WalletKeys, SignatureText, string, bytes, sized, base64_to_bytes, all_hex, decode_hex_signature,
  decode_signature, verify_message_signature, verify_message_signature_verbose,
}

two_by_two : (n : ℕ) (s : Text) → length s ≡ 2 * n → length (hex_to_bytes s) ≡ n
unfolding hex_to_bytes
two_by_two zero [] h = refl
two_by_two (suc n) [] h = absurd (omega arith)
two_by_two n (a ∷ []) h = absurd (omega arith)
two_by_two zero (a ∷ (b ∷ s)) h = absurd (omega arith)
two_by_two (suc n) (a ∷ (b ∷ s)) h = ap suc (two_by_two n s (omega arith))

sized-some : (o : Option Bytes) (b : Bytes) → sized o ≡ some b → length b ≡ 64
unfolding sized
sized-some none b h = cc
sized-some (some c) b h = ground arith

decode_hex_signature-ok : (s : Text) (b : Bytes) → decode_hex_signature s ≡ ok b → length b ≡ 64
unfolding decode_hex_signature
decode_hex_signature-ok s b h = ground (arith, two_by_two 64 s)

decode_string-ok :
    (d : Decoders) (s : Text) (b : Bytes) → decode_signature d (string s) ≡ ok b → length b ≡ 64
unfolding decode_signature
decode_string-ok d s b h = elim (Option-cases (sized (d.base58_decode s))) [
  | inr (c, q) ↦ ground (arith, q, sized-some (d.base58_decode s) c q)
  | inl q ↦ elim (Option-cases (sized (base64_to_bytes d s))) [
    | inr (c, r) ↦ ground (arith, q, r, sized-some (base64_to_bytes d s) c r)
    | inl r ↦ ground (arith, q, r, decode_hex_signature-ok s b)
  ]
]

pub decode_signature-size :
    (d : Decoders) (sig : SignatureText) (b : Bytes) → decode_signature d sig ≡ ok b → length b ≡ 64
unfolding decode_signature
decode_signature-size d (bytes c) b h = ground arith
decode_signature-size d (string s) b h = decode_string-ok d s b h

hex_digit-is_some : (n : ℕ) → n < 16 → is_some (digit_value (hex_digit n)) ≡ true
hex_digit-is_some n h = rw (digit_value-hex_digit n h) refl

all_hex-to_hex : (b : Bytes) → All (λ c. c < 256) b → all_hex (to_hex b) ≡ true
unfolding all_hex to_hex
all_hex-to_hex [] h = refl
all_hex-to_hex (c ∷ b) h =
    rw
      (
        hex_digit-is_some (c / 16) (omega (arith, h.0)),
        hex_digit-is_some (c % 16) (omega (arith, h.0)),
      )
      (all_hex-to_hex b h.1)

to_hex-full : (b : Bytes) → length b ≡ 64 → is_empty (to_hex b) ≡ false
unfolding to_hex
to_hex-full [] h = absurd (omega arith)
to_hex-full (c ∷ b) h = refl

-- The hexadecimal form of a signature is read back, where the decoders tried before it do not
-- happen to give 64 bytes for it.
pub decode_signature-to_hex :
    (d : Decoders) (b : Bytes)
    → length b ≡ 64
    → All (λ c. c < 256) b
    → sized (d.base58_decode (to_hex b)) ≡ none
    → sized (base64_to_bytes d (to_hex b)) ≡ none
    → decode_signature d (string (to_hex b)) ≡ ok b
unfolding decode_signature decode_hex_signature
decode_signature-to_hex d b size small no_base58 no_base64 = ground (
  arith,
  no_base58,
  no_base64,
  all_hex-to_hex b small,
  to_hex-full b size,
  length-to_hex b,
  hex_to_bytes-to_hex b small,
)

-- The two verifications agree on keys of 32 bytes.
pub verbose-agrees :
    (P : Platform) (k : WalletKeys) (message : Text) (sig : SignatureText) (public_key : Text)
    → ((key : Bytes) → k.public_key_bytes public_key ≡ some key → length key ≡ 32)
    → verify_message_signature_verbose P k message sig public_key ≡ ok tt
    → verify_message_signature P k message sig public_key ≡ ok true
unfolding verify_message_signature verify_message_signature_verbose
verbose-agrees P k message sig public_key sizes h =
    elim (Outcome-cases (decode_signature k.decoders sig)) [
      | inr (e, q) ↦ absurd (ground (arith, q))
      | inl (b, q) ↦ elim (Option-cases (k.public_key_bytes public_key)) [
        | inl r ↦ absurd (ground (arith, q, r))
        | inr (key, r) ↦ ground (arith, q, r, sizes key r)
      ]
    ]
