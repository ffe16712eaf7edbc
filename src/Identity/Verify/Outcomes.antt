-- ===== src/Identity/Verify/Outcomes.antt =====
-- What `doVerify` leaves.
use sovereign_jedi.Prelude.{
  ℕ, ◌+◌, ◌*◌, ◌≡◌, refl, ap, ◌⊎◌, inl, inr, false, Option, none, some, ◌∷◌, Text, length, is_empty,
  leb, ok, arith, Outcome, Outcome-cases, Bool-cases, Option-cases, Bool, true,
}
use sovereign_jedi.Platform.{Platform, Lawful, Bytes}
use sovereign_jedi.Identity.{Identity, get_proof_ttl_seconds, compute_expires_at, is_verified}
use sovereign_jedi.Identity.Expiry.{is_verified-compute_expires_at}
use sovereign_jedi.Identity.Store.{save_identity}
use sovereign_jedi.Identity.Signature.{
  WalletKeys, bytes, mismatch, decode_signature, signature_to_base58,
  verify_message_signature_verbose,
}
use sovereign_jedi.Identity.Verify.{
  VerifySetting, VerifyState, VerifyError, no_public_key, obtain_signature, proof_message,
  prove_control, finish_verify, do_verify,
}

-- bs58 reads back what it writes.
pub record Base58Lawful (k : WalletKeys) : Type 0 where
  pub opens : (b : Bytes) → k.decoders.base58_decode (k.base58_encode b) ≡ some b

module _ (P : Platform) (s : VerifySetting) where
  -- The signature that the identity keeps verifies its message for its key: bs58 decodes it to
  -- 64 bytes that tweetnacl accepts.
  abbrev pub Proven : Identity → Type 0
  Proven i =
      (b : Bytes) × (key : Bytes) × (s.keys.decoders.base58_decode i.signature ≡ some b)
      × (length b ≡ 64)
      × (s.keys.public_key_bytes i.public_key ≡ some key)
      × (s.keys.verify_detached (P.utf8_encode i.message) b key ≡ some true)

  ttl : Option ℕ
  ttl = get_proof_ttl_seconds s.number s.public_ttl s.internal_ttl

  message_bytes : Bytes
  message_bytes = P.utf8_encode (proof_message P s)

  obtained : Outcome VerifyError (Option Bytes)
  obtained = obtain_signature s.keys.decoders s.wallets message_bytes

  verified_bytes :
      (b : Bytes) (message public_key : Text)
      → verify_message_signature_verbose P s.keys message (bytes b) public_key ≡ ok tt
      → (key : Bytes) × (length b ≡ 64)
        × (s.keys.public_key_bytes public_key ≡ some key)
        × (s.keys.verify_detached (P.utf8_encode message) b key ≡ some true)
  unfolding verify_message_signature_verbose decode_signature
  verified_bytes b message public_key h = elim (Option-cases (s.keys.public_key_bytes public_key)) [
    | inl q ↦ absurd (ground (arith, q))
    | inr (key, q) ↦ (
      key,
      ground (arith, q),
      q,
      accepted (s.keys.verify_detached (P.utf8_encode message) b key) (ground (arith, q)),
    )
  ]
    where
      accepted : (r : Option Bool) → mismatch r ≡ ok tt → r ≡ some true
      accepted none h = cc
      accepted (some true) h = refl
      accepted (some false) h = cc

  -- what has succeeded where an identity is made
  prove_control-steps :
      (i : Identity)
      → prove_control P s ≡ ok i
      → (b : Bytes) × (obtained ≡ ok (some b))
        × (verify_message_signature_verbose P s.keys
              (proof_message P s)
              (bytes b)
              s.effective_public_key
            ≡ ok tt)
        × (compute_expires_at P (P.to_iso_string s.verified_ms) ttl ≡ ok i.expires_at)
        × (i ≡ record i {
          public_key = s.effective_public_key;
          message = proof_message P s;
          signature = s.keys.base58_encode b;
          verified_at = P.to_iso_string s.verified_ms;
        })
  unfolding prove_control ttl signature_to_base58 obtained message_bytes decode_signature
  prove_control-steps i h = elim (Outcome-cases obtained) [
    | inr (e, q) ↦ absurd (ground (arith, q))
    | inl (none, q) ↦ absurd (ground (arith, q))
    | inl (some b, q) ↦
        elim (Outcome-cases (
          verify_message_signature_verbose P s.keys (proof_message P s) (bytes b)
            s.effective_public_key)) [
              | inr (e, r) ↦ absurd (ground (arith, q, r))
              | inl (u, r) ↦
                  elim (Outcome-cases (compute_expires_at P (P.to_iso_string s.verified_ms) ttl)) [
                    | inr (e, t) ↦ absurd (ground (arith, q, r, t))
                    | inl (x, t) ↦ (b, q, r, ground (arith, q, r, t), ground (arith, q, r, t))
                  ]
            ]
  ]

  prove_control-Proven : (i : Identity) → Base58Lawful s.keys → prove_control P s ≡ ok i → Proven i
  prove_control-Proven i l h =
      let (b, _, verified, _, made) = prove_control-steps i h in
      let (key, sized_64, known, accepted) =
        verified_bytes b (proof_message P s) s.effective_public_key verified in
      (
        b,
        key,
        ground (arith, made, l.opens b),
        sized_64,
        ground (arith, made, known),
        ground (arith, made, accepted),
      )

  -- what a successful verification leaves
  abbrev pub Verified : VerifyState → VerifyState → ℕ → ℕ → Type 0
  Verified st st' lifetime now =
      (i : Identity) × Proven i
      × (i.public_key ≡ s.effective_public_key)
      × (i.message ≡ proof_message P s)
      × (is_verified P (some i) now ≡ leb now (s.verified_ms + lifetime * 1000))
      × (st' ≡ record st {
        error = none;
        verifying = false;
        last_identity = some i;
        storage = save_identity P i st.storage;
        reported = i ∷ st.reported;
      })

  -- what a failed one leaves
  abbrev pub Failed : VerifyState → VerifyState → Type 0
  Failed st st' = (e : VerifyError) × (st' ≡ record st { error = some e; verifying = false })

  -- On a lawful platform, where bs58 reads back what it writes, the configured lifetime is finite
  -- and no verification is running, doVerify either leaves an error and everything else as it was,
  -- or keeps and reports an identity for the connected key, whose stored signature bs58 decodes to
  -- 64 bytes that tweetnacl accepts for its message and the bytes of that key, and which is
  -- verified exactly until that lifetime is over.
  pub do_verify-outcome :
      (lifetime now : ℕ) (st : VerifyState)
      → Lawful P
      → Base58Lawful s.keys
      → get_proof_ttl_seconds s.number s.public_ttl s.internal_ttl ≡ some lifetime
      → st.verifying ≡ false
      → Failed st (do_verify P s st) ⊎ Verified st (do_verify P s st) lifetime now
  unfolding do_verify finish_verify ttl
  do_verify-outcome lifetime now st l b58 known idle =
      elim (Bool-cases (is_empty s.effective_public_key)) [
        | inl q ↦ inl (no_public_key, rw q (rw idle refl))
        | inr q ↦ elim (Outcome-cases (prove_control P s)) [
          | inr (e, r) ↦ inl (e, rw (q, r) refl)
          | inl (i, r) ↦
              let (b, _, verified, expires, made) = prove_control-steps i r in
              inr (
                i,
                prove_control-Proven i b58 r,
                ap (λ (j : Identity). j.public_key) made,
                ap (λ (j : Identity). j.message) made,
                is_verified-compute_expires_at P s.verified_ms lifetime now i l
                    (ap (λ (j : Identity). j.verified_at) made)
                    (ground (arith, made, known, expires)),
                rw (q, r) refl,
              )
        ]
      ]
