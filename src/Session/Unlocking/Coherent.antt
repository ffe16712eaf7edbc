-- ===== src/Session/Unlocking/Coherent.antt =====
-- The session's invariant along an `unlockVault` with nothing in between.
use sovereign_jedi.Prelude.{
  ℕ, ◌≡◌, refl, true, Option, none, some, is_some, arith, Outcome, ok, err, Text, [], ◌∷◌,
}
use sovereign_jedi.Prelude.Methods.{◌>>=◌, ◌>>◌, Ensures, Ensures-bind, call}
use sovereign_jedi.Platform.{Platform, Bytes}
use sovereign_jedi.Crypto.Errors.{CryptoError}
use sovereign_jedi.Crypto.Unlock.{
  BuildUnlockResult, UnlockParams, Surroundings, build_unlock_message_v1,
}
use sovereign_jedi.Crypto.VaultRoot.{BuildVaultRootResult, build_vault_root_message_v1}
use sovereign_jedi.Session.Manager.{SessionManager, is_key}
use sovereign_jedi.Session.Invariant.{IsCoherent, notify-SameMaterial, SameMaterial-IsCoherent}
use sovereign_jedi.Session.Signing.{Signers, SessionError, request_signature}
use sovereign_jedi.Session.Unlocking.{
  begin_unlock, store_unlock, begin_root, store_root, from_crypto, connected_key, mark_unlocked,
  unlock_vault, unlock_params, vault_id,
}

-- The message names the wallet that it was asked for.
wallet-build :
    (P : Platform) (s : Surroundings) (p : UnlockParams) (u : BuildUnlockResult)
    → build_unlock_message_v1 P s p ≡ ok u
    → u.canonical_object.wallet ≡ p.wallet
unfolding build_unlock_message_v1
wallet-build P s p u h = ground arith

-- A call of packages/crypto leaves the session alone.
Ensures-crypto :
    {A : Type 0} (Q : A → SessionManager → Type 0) (R : SessionManager → Type 0)
    (r : Outcome CryptoError A) (m : SessionManager)
    → R m
    → ((a : A) → r ≡ ok a → Q a m)
    → Ensures Q R (call (from_crypto r) m)
Ensures-crypto Q R (ok a) m h k = k a refl
Ensures-crypto Q R (err e) m h k = h

abbrev ForUnlock : BuildUnlockResult → SessionManager → Type 0
ForUnlock u m =
    IsCoherent m
    × (m.wallet_pub_key ≡ some u.canonical_object.wallet)
    × (is_key m.wallet_pub_key ≡ true)

abbrev HasUnlock : SessionManager → Type 0
HasUnlock m =
    IsCoherent m
    × (is_key m.wallet_pub_key ≡ true)
    × (is_some m.last_unlock ≡ true)
    × (is_some m.last_unlock_signature_bytes ≡ true)

abbrev ForRoot : BuildVaultRootResult → SessionManager → Type 0
ForRoot r m = HasUnlock m × (m.wallet_pub_key ≡ r.canonical_object.wallet)

IsCoherent-unlock :
    (u : BuildUnlockResult) (b : Bytes) (m : SessionManager)
    → ForUnlock u m
    → IsCoherent (record m { last_unlock = some u; last_unlock_signature_bytes = some b })
IsCoherent-unlock u b m h = record {
  unlock_wallet = λ w e. ground arith;
  root_wallet = h.0.root_wallet;
  unlocked_material = λ e. ground (arith, h.0.unlocked_material e);
}

abbrev ForKey : Text → SessionManager → Type 0
ForKey key m = IsCoherent m × (m.wallet_pub_key ≡ some key) × (is_key m.wallet_pub_key ≡ true)

connected_key-ForKey :
    (key : Option Text) (m : SessionManager)
    → m.wallet_pub_key ≡ key
    → IsCoherent m
    → Ensures ForKey IsCoherent (connected_key key, m)
unfolding connected_key is_key
connected_key-ForKey none m e v = v
connected_key-ForKey (some []) m e v = v
connected_key-ForKey (some (c ∷ key)) m e v = (v, e, ground arith)

module _ (P : Platform) where
  begin_unlock-ForUnlock :
      (s : Surroundings) (m : SessionManager)
      → IsCoherent m
      → Ensures ForUnlock IsCoherent (begin_unlock P s m)
  unfolding begin_unlock unlock_params ◌>>=◌
  begin_unlock-ForUnlock s m v =
      Ensures-bind ForKey ForUnlock IsCoherent (connected_key m.wallet_pub_key, m) _
        (connected_key-ForKey m.wallet_pub_key m refl v)
        λ key m1 h.
          Ensures-crypto ForUnlock IsCoherent (build_unlock_message_v1 P s (unlock_params P s key))
            m1 h.0 (λ u e. (h.0, ground (arith, wallet-build P s (unlock_params P s key) u e), h.2))

  store_unlock-HasUnlock :
      (now : ℕ) (salt : Bytes) (u : BuildUnlockResult) (reply : Option Bytes) (m : SessionManager)
      → ForUnlock u m
      → Ensures (λ _. HasUnlock) IsCoherent (store_unlock P now salt u reply m)
  unfolding store_unlock ◌>>=◌ ◌>>◌
  store_unlock-HasUnlock now salt u none m h = h.0
  store_unlock-HasUnlock now salt u (some b) m h =
      let v = IsCoherent-unlock u b m h in
      Ensures-crypto (λ _. HasUnlock) IsCoherent _ _ v (λ a e. (v, h.2, refl, refl))

  begin_root-ForRoot :
      (m : SessionManager) → HasUnlock m → Ensures ForRoot IsCoherent (begin_root P m)
  unfolding begin_root build_vault_root_message_v1
  begin_root-ForRoot m h =
      Ensures-crypto ForRoot IsCoherent
        (build_vault_root_message_v1 P m.wallet_pub_key (some vault_id)) m h.0
        (λ r e. (h, ground arith))

  mark_unlocked-IsCoherent :
      (now : ℕ) (r : BuildVaultRootResult) (b : Bytes) (m : SessionManager)
      → ForRoot r m
      → IsCoherent (mark_unlocked P now r b m)
  unfolding mark_unlocked
  mark_unlocked-IsCoherent now r b m h = SameMaterial-IsCoherent (notify-SameMaterial _) (record {
    unlock_wallet = h.0.0.unlock_wallet;
    root_wallet = λ w e. ground arith;
    unlocked_material = λ e. (h.0.2, h.0.3, refl, refl);
  })

  store_root-IsCoherent :
      (now : ℕ) (r : BuildVaultRootResult) (reply : Option Bytes) (m : SessionManager)
      → ForRoot r m
      → Ensures (λ _. IsCoherent) IsCoherent (store_root P now r reply m)
  unfolding store_root ◌>>=◌
  store_root-IsCoherent now r none m h = h.0.0
  store_root-IsCoherent now r (some b) m h = mark_unlocked-IsCoherent now r b m h

  -- What a signer answers does not touch the session.
  signed-Ensures :
      (Q : SessionManager → Type 0) (r : Outcome SessionError (Option Bytes)) (m : SessionManager)
      → Q m
      → IsCoherent m
      → Ensures (λ _. Q) IsCoherent (call r m)
  signed-Ensures Q (ok a) m h v = h
  signed-Ensures Q (err e) m h v = v

  pub unlock_vault-Ensures :
      (signers : Signers) (s : Surroundings) (salt : Bytes) (finished : ℕ) (m : SessionManager)
      → IsCoherent m
      → Ensures (λ _. IsCoherent) IsCoherent (unlock_vault P signers s salt finished m)
  unfolding unlock_vault ◌>>=◌ ◌>>◌
  unlock_vault-Ensures signers s salt finished m v =
      Ensures-bind ForUnlock (λ _. IsCoherent) IsCoherent (begin_unlock P s m) _
        (begin_unlock-ForUnlock s m v)
        λ u m1 h1.
          Ensures-bind (λ _. ForUnlock u) (λ _. IsCoherent) IsCoherent
            (call (request_signature signers (P.utf8_encode u.message_to_sign)) m1) _
            (signed-Ensures (ForUnlock u) _ m1 h1 h1.0)
            λ reply m2 h2.
              Ensures-bind (λ _. HasUnlock) (λ _. IsCoherent) IsCoherent
                (store_unlock P s.now_ms salt u reply m2) _
                (store_unlock-HasUnlock s.now_ms salt u reply m2 h2)
                λ kek m3 h3.
                  Ensures-bind ForRoot (λ _. IsCoherent) IsCoherent (begin_root P m3) _
                    (begin_root-ForRoot m3 h3)
                    λ r m4 h4.
                      Ensures-bind (λ _. ForRoot r) (λ _. IsCoherent) IsCoherent
                        (call (request_signature signers (P.utf8_encode r.message_to_sign)) m4) _
                        (signed-Ensures (ForRoot r) _ m4 h4 h4.0.0)
                        λ reply' m5 h5. store_root-IsCoherent finished r reply' m5 h5
