-- ===== src/Session/Unlocking/Effects.antt =====
-- What `unlockVault` changes when it succeeds and when it throws.
use sovereign_jedi.Prelude.{
  ℕ, ◌+◌, ◌*◌, ◌≡◌, refl, ap, ◌∙◌, true, Option, none, some, is_some, arith, Outcome, ok, err, ◌&&◌,
  if◌then◌else◌,
}
use sovereign_jedi.Prelude.Methods.{◌>>=◌, ◌>>◌, Ensures, Ensures-bind, call}
use sovereign_jedi.Platform.{Platform, Bytes}
use sovereign_jedi.Crypto.Unlock.{BuildUnlockResult, Surroundings}
use sovereign_jedi.Crypto.VaultRoot.{BuildVaultRootResult}
use sovereign_jedi.Session.Manager.{SessionManager, notify}
use sovereign_jedi.Session.Signing.{Signers, SessionError, request_signature}
use sovereign_jedi.Session.Unlocking.{
  begin_unlock, store_unlock, begin_root, store_root, mark_unlocked, unlock_vault, new_verified,
  connected_key,
}
use sovereign_jedi.Session.Verified.{LocalStorage, null_or, verified_json, save_verified}
use sovereign_jedi.Json.{Json, num, find_field, get}

-- Everything but the unlock message and its signature is as before.
pub record Untouched (m n : SessionManager) : Type 0 where
  pub wallet : n.wallet_pub_key ≡ m.wallet_pub_key
  pub provider : n.wallet_provider ≡ m.wallet_provider
  pub lock : n.vault_unlocked ≡ m.vault_unlocked
  pub verified : n.verified ≡ m.verified
  pub root : n.last_vault_root ≡ m.last_vault_root
  pub root_signature : n.last_vault_root_signature_bytes ≡ m.last_vault_root_signature_bytes
  pub storage : n.storage ≡ m.storage
  pub events : n.events ≡ m.events

-- A Verified signal of the connected wallet, good for 24 hours from `finished`.
pub record IsSignal (finished : ℕ) (m : SessionManager) (v : Json) : Type 0 where
  pub wallet : get "walletPubKey" v ≡ some (null_or m.wallet_pub_key)
  pub verified_at : get "verifiedAt" v ≡ some (num finished)
  pub expires_at : get "expiresAt" v ≡ some (num (finished + 24 * 60 * 60 * 1000))

-- The vault is open with both signatures, and a signal is in memory and, where there is a
-- localStorage that can be written, its JSON is in it; nothing else of localStorage has changed.
pub record Unlocked (P : Platform) (finished : ℕ) (m n : SessionManager) : Type 0 where
  pub wallet : n.wallet_pub_key ≡ m.wallet_pub_key
  pub lock : n.vault_unlocked ≡ true
  pub unlock_signature : is_some n.last_unlock_signature_bytes ≡ true
  pub root_signature : is_some n.last_vault_root_signature_bytes ≡ true
  pub value : Json
  pub signal : IsSignal finished m value
  pub verified : n.verified ≡ some value
  pub storage : n.storage ≡ (
      if m.storage.available && m.storage.writable
      then record m.storage { item = some (P.stringify value) }
      else m.storage)

new_verified-Untouched :
    (finished : ℕ) (m n : SessionManager)
    → Untouched m n
    → new_verified finished n ≡ new_verified finished m
unfolding new_verified
new_verified-Untouched finished m n h = cc (h.wallet, h.provider, h.verified)

new_verified-IsSignal :
    (finished : ℕ) (m : SessionManager) → IsSignal finished m (new_verified finished m)
unfolding new_verified verified_json get find_field
new_verified-IsSignal finished m = record { wallet = refl; verified_at = refl; expires_at = refl }

save_verified-item :
    (P : Platform) (v : Json) (ls : LocalStorage)
    → save_verified P v ls
      ≡ (if ls.available && ls.writable then record ls { item = some (P.stringify v) } else ls)
unfolding save_verified
save_verified-item P v ls = ground arith

module _ (P : Platform) (m : SessionManager) where
  abbrev Signed : SessionManager → Type 0
  Signed n = Untouched m n × (is_some n.last_unlock_signature_bytes ≡ true)

  untouched : Untouched m m
  untouched = ground arith

  call-Untouched :
      {A : Type 0} (r : Outcome SessionError A) (Q : SessionManager → Type 0) (n : SessionManager)
      → Q n
      → Untouched m n
      → Ensures (λ _. Q) (Untouched m) (call r n)
  call-Untouched (ok a) Q n h u = h
  call-Untouched (err e) Q n h u = u

  begin_unlock-Untouched :
      (s : Surroundings) → Ensures (λ _. Untouched m) (Untouched m) (begin_unlock P s m)
  unfolding begin_unlock ◌>>=◌
  begin_unlock-Untouched s =
      Ensures-bind (λ _. Untouched m) (λ _. Untouched m) (Untouched m)
        (call (connected_key m.wallet_pub_key) m) _
        (call-Untouched (connected_key m.wallet_pub_key) (Untouched m) m untouched untouched)
        λ key n h. call-Untouched _ (Untouched m) n h h

  store_unlock-Signed :
      (now : ℕ) (salt : Bytes) (u : BuildUnlockResult) (reply : Option Bytes) (n : SessionManager)
      → Untouched m n
      → Ensures (λ _. Signed) (Untouched m) (store_unlock P now salt u reply n)
  unfolding store_unlock ◌>>=◌ ◌>>◌
  store_unlock-Signed now salt u none n h = h
  store_unlock-Signed now salt u (some b) n h =
      let v : Untouched m
          (record n { last_unlock = some u; last_unlock_signature_bytes = some b }) =
        ground arith in
      call-Untouched _ Signed _ (v, refl) v

  store_root-Unlocked :
      (finished : ℕ) (r : BuildVaultRootResult) (reply : Option Bytes) (n : SessionManager)
      → Signed n
      → Ensures (λ _. Unlocked P finished m) (Untouched m) (store_root P finished r reply n)
  unfolding store_root mark_unlocked notify ◌>>=◌
  store_root-Unlocked finished r none n h = h.0
  store_root-Unlocked finished r (some b) n h =
      let v = new_verified finished m in
      let same = new_verified-Untouched finished m n h.0 in
      let stored =
        ap (λ (x : Json). save_verified P x n.storage) same
        ∙ (ap (save_verified P v) h.0.storage ∙ save_verified-item P v m.storage) in
      record {
        wallet = ground (arith, h.0.wallet);
        lock = ground arith;
        unlock_signature = ground (arith, h.1);
        root_signature = ground arith;
        value = v;
        signal = new_verified-IsSignal finished m;
        verified = ground (arith, same);
        storage = ground (arith, stored);
      }

  -- If unlockVault returns, the vault is open with both signatures, and a signal that names the
  -- wallet and expires 24 hours after the end of the call is in memory and, where there is a
  -- localStorage that can be written, its JSON is there; nothing else of localStorage has changed.
  -- If unlockVault throws, only the unlock message and its signature may have changed.
  pub unlock_vault-effects :
      (signers : Signers) (s : Surroundings) (salt : Bytes) (finished : ℕ)
      → Ensures
          (λ _. Unlocked P finished m)
          (Untouched m)
          (unlock_vault P signers s salt finished m)
  unfolding unlock_vault begin_root ◌>>=◌ ◌>>◌
  unlock_vault-effects signers s salt finished =
      Ensures-bind (λ _. Untouched m) (λ _. Unlocked P finished m) (Untouched m)
        (begin_unlock P s m) _ (begin_unlock-Untouched s)
        λ u m1 h1.
          Ensures-bind (λ _. Untouched m) (λ _. Unlocked P finished m) (Untouched m)
            (call (request_signature signers (P.utf8_encode u.message_to_sign)) m1) _
            (call-Untouched _ (Untouched m) m1 h1 h1)
            λ reply m2 h2.
              Ensures-bind (λ _. Signed) (λ _. Unlocked P finished m) (Untouched m)
                (store_unlock P s.now_ms salt u reply m2) _
                (store_unlock-Signed s.now_ms salt u reply m2 h2)
                λ kek m3 h3.
                  Ensures-bind (λ _. Signed) (λ _. Unlocked P finished m) (Untouched m)
                    (begin_root P m3) _ (call-Untouched _ Signed m3 h3 h3.0)
                    λ r m4 h4.
                      Ensures-bind (λ _. Signed) (λ _. Unlocked P finished m) (Untouched m)
                        (call (request_signature signers (P.utf8_encode r.message_to_sign)) m4) _
                        (call-Untouched _ Signed m4 h4 h4.0)
                        λ reply' m5 h5. store_root-Unlocked finished r reply' m5 h5
