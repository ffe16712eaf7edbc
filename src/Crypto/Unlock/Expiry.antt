-- ===== src/Crypto/Unlock/Expiry.antt =====
-- The expiry of unlock messages (OQ-06).
use sovereign_jedi.Prelude.{
  ℕ, ◌+◌, ◌≤◌, ◌<◌, ◌≡◌, ◌↔◌, inl, inr, Option, none, some, ok, arith, Option-cases, true,
}
use sovereign_jedi.Platform.{Platform, Lawful, Bytes}
use sovereign_jedi.Crypto.Kek.{derive_kek_from_signature}
use sovereign_jedi.Crypto.Unlock.{
  BuildUnlockResult, UnlockParams, Surroundings, derive_kek_from_unlock_signature,
  build_unlock_message_v1, is_expired,
}

-- deriveKekFromUnlockSignature returns a key only if the expiry of the unlock message is a date
-- later than now, and the key is the one that the signature and the salt give.
pub derive_kek_from_unlock_signature-ok :
    (P : Platform) (signature : Bytes) (salt : Option Bytes) (unlock : BuildUnlockResult) (now : ℕ)
    (kek : Bytes)
    → derive_kek_from_unlock_signature P signature salt unlock now ≡ ok kek
    → (ts : ℕ) × (P.date_parse unlock.canonical_object.expires_at ≡ some ts)
      × (now < ts)
      × (derive_kek_from_signature P signature salt ≡ ok kek)
unfolding derive_kek_from_unlock_signature
derive_kek_from_unlock_signature-ok P signature salt unlock now kek h =
    elim (Option-cases (P.date_parse unlock.canonical_object.expires_at)) [
      | inl e ↦ absurd (ground arith)
      | inr (ts, e) ↦ (ts, e, ground arith, ground arith)
    ]

expires_at-build :
    (P : Platform) (l : Lawful P) (s : Surroundings) (p : UnlockParams) (unlock : BuildUnlockResult)
    → p.issued_at ≡ none
    → p.expires_at ≡ none
    → build_unlock_message_v1 P s p ≡ ok unlock
    → unlock.canonical_object.expires_at ≡ P.to_iso_string (s.now_ms + 600000)
unfolding build_unlock_message_v1
expires_at-build P l s p unlock ei ee built = ground (arith, l.date_opens s.now_ms)

-- On a lawful platform, a message that buildUnlockMessageV1 makes with no times given is expired
-- exactly from ten minutes after the time it was built.
pub build_unlock_message_v1-expiry :
    (P : Platform) (l : Lawful P) (s : Surroundings) (p : UnlockParams) (unlock : BuildUnlockResult)
    (now : ℕ)
    → p.issued_at ≡ none
    → p.expires_at ≡ none
    → build_unlock_message_v1 P s p ≡ ok unlock
    → (is_expired P unlock now ≡ true) ↔ (s.now_ms + 600000 ≤ now)
unfolding is_expired
build_unlock_message_v1-expiry P l s p unlock now ei ee built =
    let e = expires_at-build P l s p unlock ei ee built in
    let at = s.now_ms + 600000 in
    (
      λ h. ground (arith, l.iso_non_empty at, l.date_opens at),
      λ h. ground (arith, l.iso_non_empty at, l.date_opens at),
    )
