-- ===== src/Session/Interleaving.antt =====
-- The session as the event loop runs it: while `unlockVault` waits for the wallet, other calls and
-- other `unlockVault`s go on.
use sovereign_jedi.Prelude.{
  ℕ, ◌≡◌, refl, true, false, Option, none, some, is_some, arith, Outcome, ok, err, List, ◌∷◌, ◌++◌,
  Text, subst,
}
use sovereign_jedi.Prelude.Methods.{◌>>=◌, ◌>>◌}
use sovereign_jedi.Platform.{Platform, Bytes}
use sovereign_jedi.Crypto.Unlock.{BuildUnlockResult, Surroundings}
use sovereign_jedi.Crypto.VaultRoot.{BuildVaultRootResult}
use sovereign_jedi.Session.Manager.{
  SessionManager, PubKeyInput, connect_wallet, lock_vault, get_verified, disconnect_wallet, notify,
  clear_on_switch, is_key,
}
use sovereign_jedi.Session.Signing.{SessionError}
use sovereign_jedi.Session.Unlocking.{
  begin_unlock, store_unlock, begin_root, store_root, mark_unlocked, connected_key,
}
use sovereign_jedi.Session.Invariant.{IsCoherent, connected, connected-SameMaterial}

-- Where one `unlockVault` waits, with what it holds in local variables.
pub data Wait : Type 0 where
  for_unlock_signature : Surroundings → BuildUnlockResult → Wait
  for_kek : Wait
  for_root_signature : BuildVaultRootResult → Wait

pub record Tab : Type 0 where
  pub manager : SessionManager
  pub waiting : List Wait

-- One turn of the event loop. A wait may end in any order, and with any answer of the wallet; a
-- call that throws is gone from `waiting`, with what it wrote before.
pub data Turn (P : Platform) : Tab → Tab → Type 0 where
  connects :
      (t : Tab) (now : ℕ) (pub_key : PubKeyInput) (provider : Option Text)
      → Turn P t (record t { manager = connect_wallet P now pub_key provider t.manager })
  locks : (t : Tab) → Turn P t (record t { manager = lock_vault t.manager })
  disconnects : (t : Tab) → Turn P t (record t { manager = disconnect_wallet t.manager })
  reads_verified :
      (t : Tab) (now : ℕ) → Turn P t (record t { manager = (get_verified P now t.manager).1 })
  unlock_begins :
      (t : Tab) (s : Surroundings) (u : BuildUnlockResult) (m : SessionManager)
      → begin_unlock P s t.manager ≡ (ok u, m)
      → Turn P t (record { manager = m; waiting = for_unlock_signature s u ∷ t.waiting })
  unlock_signed :
      (t : Tab) (before after : List Wait) (s : Surroundings) (u : BuildUnlockResult) (salt : Bytes)
      (reply : Option Bytes) (kek : Bytes) (m : SessionManager)
      → t.waiting ≡ before ++ for_unlock_signature s u ∷ after
      → store_unlock P s.now_ms salt u reply t.manager ≡ (ok kek, m)
      → Turn P t (record { manager = m; waiting = before ++ for_kek ∷ after })
  unlock_throws :
      (t : Tab) (before after : List Wait) (s : Surroundings) (u : BuildUnlockResult) (salt : Bytes)
      (reply : Option Bytes) (e : SessionError) (m : SessionManager)
      → t.waiting ≡ before ++ for_unlock_signature s u ∷ after
      → store_unlock P s.now_ms salt u reply t.manager ≡ (err e, m)
      → Turn P t (record { manager = m; waiting = before ++ after })
  root_begins :
      (t : Tab) (before after : List Wait) (r : BuildVaultRootResult) (m : SessionManager)
      → t.waiting ≡ before ++ for_kek ∷ after
      → begin_root P t.manager ≡ (ok r, m)
      → Turn P t (record { manager = m; waiting = before ++ for_root_signature r ∷ after })
  root_signed :
      (t : Tab) (before after : List Wait) (r : BuildVaultRootResult) (now : ℕ)
      (reply : Option Bytes) (m : SessionManager)
      → t.waiting ≡ before ++ for_root_signature r ∷ after
      → store_root P now r reply t.manager ≡ (ok tt, m)
      → Turn P t (record { manager = m; waiting = before ++ after })
  wait_fails :
      (t : Tab) (before after : List Wait) (w : Wait)
      → t.waiting ≡ before ++ w ∷ after
      → Turn P t (record t { waiting = before ++ after })

pub data Turns (P : Platform) (t : Tab) : Tab → Type 0 where
  here : Turns P t t
  next : {u v : Tab} → Turns P t u → Turn P u v → Turns P t v

-- An unlocked vault has its vault-root message and the signature of it.
pub record IsRooted (m : SessionManager) : Type 0 where
  pub rooted :
      m.vault_unlocked ≡ true
      → (is_some m.last_vault_root ≡ true) × (is_some m.last_vault_root_signature_bytes ≡ true)

module _ (P : Platform) where
  connect_wallet-IsRooted :
      (now : ℕ) (pub_key : PubKeyInput) (provider : Option Text) (m : SessionManager)
      → IsRooted (connect_wallet P now pub_key provider m)
  unfolding connect_wallet connected notify clear_on_switch
  connect_wallet-IsRooted now pub_key provider m =
      let same = connected-SameMaterial P now pub_key provider m in
      record { rooted = λ e. ground (arith, same) }

  get_verified-IsRooted :
      (now : ℕ) (m : SessionManager) → IsRooted m → IsRooted (get_verified P now m).1
  unfolding get_verified
  get_verified-IsRooted now m v = record { rooted = v.rooted }

  begin_unlock-IsRooted :
      (s : Surroundings) (m : SessionManager) → IsRooted m → IsRooted (begin_unlock P s m).1
  unfolding begin_unlock connected_key ◌>>=◌
  begin_unlock-IsRooted s m v = record { rooted = λ h. ground (arith, v.rooted) }

  store_unlock-IsRooted :
      (now : ℕ) (salt : Bytes) (u : BuildUnlockResult) (reply : Option Bytes) (m : SessionManager)
      → IsRooted m
      → IsRooted (store_unlock P now salt u reply m).1
  unfolding store_unlock ◌>>=◌ ◌>>◌
  store_unlock-IsRooted now salt u reply m v = record { rooted = λ h. ground (arith, v.rooted) }

  begin_root-IsRooted : (m : SessionManager) → IsRooted m → IsRooted (begin_root P m).1
  unfolding begin_root
  begin_root-IsRooted m v = v

  store_root-IsRooted :
      (now : ℕ) (r : BuildVaultRootResult) (reply : Option Bytes) (m : SessionManager)
      → IsRooted m
      → IsRooted (store_root P now r reply m).1
  unfolding store_root mark_unlocked notify ◌>>=◌
  store_root-IsRooted now r reply m v = record { rooted = λ h. ground (arith, v.rooted) }

  lock_vault-IsRooted : (m : SessionManager) → IsRooted (lock_vault m)
  unfolding lock_vault
  lock_vault-IsRooted m = record { rooted = λ h. ground arith }

  disconnect_wallet-IsRooted : (m : SessionManager) → IsRooted (disconnect_wallet m)
  unfolding disconnect_wallet
  disconnect_wallet-IsRooted m = record { rooted = λ h. ground arith }

  after_call :
      {A : Type 0} {r r' : Outcome SessionError A × SessionManager}
      → r ≡ r'
      → IsRooted r.1
      → IsRooted r'.1
  after_call e v = subst (λ r. IsRooted r.1) e v

  Turn-IsRooted : {t u : Tab} → Turn P t u → IsRooted t.manager → IsRooted u.manager
  Turn-IsRooted (connects t now pub_key provider) v =
      connect_wallet-IsRooted now pub_key provider t.manager
  Turn-IsRooted (locks t) v = lock_vault-IsRooted t.manager
  Turn-IsRooted (disconnects t) v = disconnect_wallet-IsRooted t.manager
  Turn-IsRooted (reads_verified t now) v = get_verified-IsRooted now t.manager v
  Turn-IsRooted (unlock_begins t s u m e) v = after_call e (begin_unlock-IsRooted s t.manager v)
  Turn-IsRooted (unlock_signed t before after s u salt reply kek m w e) v =
      after_call e (store_unlock-IsRooted s.now_ms salt u reply t.manager v)
  Turn-IsRooted (unlock_throws t before after s u salt reply x m w e) v =
      after_call e (store_unlock-IsRooted s.now_ms salt u reply t.manager v)
  Turn-IsRooted (root_begins t before after r m w e) v =
      after_call e (begin_root-IsRooted t.manager v)
  Turn-IsRooted (root_signed t before after r now reply m w e) v =
      after_call e (store_root-IsRooted now r reply t.manager v)
  Turn-IsRooted (wait_fails t before after w e) v = v

  -- However the calls of a session interleave with pending unlockVault calls, an unlocked vault
  -- has the vault-root message and its signature, if it had them at the start.
  pub Turns-IsRooted : {t u : Tab} → IsRooted t.manager → Turns P t u → IsRooted u.manager
  Turns-IsRooted v here = v
  Turns-IsRooted v (next ts turn) = Turn-IsRooted turn (Turns-IsRooted v ts)

  -- From any tab in which an unlockVault waits for its second signature, a disconnectWallet leaves
  -- a locked session with no wallet, and the signature that arrives next leads to an open vault
  -- with the signature and no wallet, which is not a coherent session.
  pub disconnect_while_unlocking :
      (t : Tab) (before after : List Wait) (r : BuildVaultRootResult) (now : ℕ) (signature : Bytes)
      → t.waiting ≡ before ++ for_root_signature r ∷ after
      → (gone : Tab) × (u : Tab) × (gone ≡ record t { manager = disconnect_wallet t.manager })
        × Turn P t gone
        × (gone.manager.wallet_pub_key ≡ none)
        × (gone.manager.vault_unlocked ≡ false)
        × (u.manager ≡ (store_root P now r (some signature) gone.manager).1)
        × Turn P gone u
        × (u.manager.vault_unlocked ≡ true)
        × (u.manager.last_vault_root_signature_bytes ≡ some signature)
        × (u.manager.wallet_pub_key ≡ none)
        × ¬ IsCoherent u.manager
  unfolding disconnect_wallet store_root mark_unlocked notify is_key ◌>>=◌
  disconnect_while_unlocking t before after r now signature w =
      let gone : Tab = record t { manager = disconnect_wallet t.manager } in
      let u : Tab = record {
        manager = (store_root P now r (some signature) gone.manager).1;
        waiting = before ++ after;
      } in
      (
        gone,
        u,
        refl,
        disconnects t,
        ground arith,
        ground arith,
        refl,
        root_signed gone before after r now (some signature) u.manager w refl,
        ground arith,
        ground arith,
        ground arith,
        λ v. ground (arith, v.root_wallet r),
      )
