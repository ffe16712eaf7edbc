-- ===== src/Session/Switching.antt =====
-- What `connectWallet` guarantees, and what it leaves behind.
use sovereign_jedi.Prelude.{ℕ, ◌≡◌, ◌≢◌, sym, ◌∙◌, true, false, Option, none, some, arith, Text}
use sovereign_jedi.Json.{Json}
use sovereign_jedi.Platform.{Platform}
use sovereign_jedi.Session.Verified.{load_verified}
use sovereign_jedi.Session.Manager.{
  SessionManager, PubKeyInput, normalize_pub_key, belongs_to, is_key, notify, drop_foreign_verified,
  adopt_verified, clear_on_switch, connect_wallet, get_verified,
}
use sovereign_jedi.Session.Invariant.{connected, connected-SameMaterial, same_key-eq}
use sovereign_jedi.Session.Persistence.{load_verified-some}

abbrev NoForeign : Option Text → SessionManager → Type 0
NoForeign key m = (v : Json) → m.verified ≡ some v → belongs_to key v ≡ true

drop-NoForeign :
    (key : Option Text) (m : SessionManager) → NoForeign key (drop_foreign_verified key m)
unfolding drop_foreign_verified
drop-NoForeign key m v e = ground arith

adopt-NoForeign :
    (P : Platform) (now : ℕ) (key : Option Text) (m : SessionManager)
    → NoForeign key m
    → NoForeign key (adopt_verified P now key m)
unfolding adopt_verified
adopt-NoForeign P now key m h v e = ground (arith, h v)

verified-rest :
    (prev key : Option Text) (m : SessionManager)
    → (notify (clear_on_switch prev key m)).verified ≡ m.verified
unfolding notify clear_on_switch
verified-rest prev key m = ground arith

module _ (P : Platform) (now : ℕ) (pub_key : PubKeyInput) (provider : Option Text)
    (m : SessionManager) where
  -- After connectWallet, a Verified signal in memory names the normalised key.
  pub connect_wallet-verified :
      (v : Json)
      → (connect_wallet P now pub_key provider m).verified ≡ some v
      → belongs_to (normalize_pub_key pub_key) v ≡ true
  unfolding connect_wallet
  connect_wallet-verified v e =
      let key = normalize_pub_key pub_key in
      adopt-NoForeign P now key _ (drop-NoForeign key _) v
        (sym (verified-rest m.wallet_pub_key key _) ∙ e)

  connect_wallet-locked :
      ((connect_wallet P now pub_key provider m).vault_unlocked ≡ false)
      × ((connect_wallet P now pub_key provider m).wallet_pub_key ≡ normalize_pub_key pub_key)
  unfolding connect_wallet connected notify clear_on_switch
  connect_wallet-locked =
      let same = connected-SameMaterial P now pub_key provider m in ground (arith, same)

  cleared :
      is_key m.wallet_pub_key ≡ true
      → m.wallet_pub_key ≢ normalize_pub_key pub_key
      → ((connect_wallet P now pub_key provider m).last_unlock ≡ none)
        × ((connect_wallet P now pub_key provider m).last_unlock_signature_bytes ≡ none)
        × ((connect_wallet P now pub_key provider m).last_vault_root ≡ none)
        × ((connect_wallet P now pub_key provider m).last_vault_root_signature_bytes ≡ none)
  unfolding connect_wallet notify clear_on_switch
  cleared connected_before differs =
      ground (arith, same_key-eq m.wallet_pub_key (normalize_pub_key pub_key))

  -- Where another non-empty key was connected, connectWallet leaves the vault locked with the new
  -- key, and has forgotten both messages and both signatures.
  pub connect_wallet-switch :
      is_key m.wallet_pub_key ≡ true
      → m.wallet_pub_key ≢ normalize_pub_key pub_key
      → ((connect_wallet P now pub_key provider m).vault_unlocked ≡ false)
        × ((connect_wallet P now pub_key provider m).wallet_pub_key ≡ normalize_pub_key pub_key)
        × ((connect_wallet P now pub_key provider m).last_unlock ≡ none)
        × ((connect_wallet P now pub_key provider m).last_unlock_signature_bytes ≡ none)
        × ((connect_wallet P now pub_key provider m).last_vault_root ≡ none)
        × ((connect_wallet P now pub_key provider m).last_vault_root_signature_bytes ≡ none)
  connect_wallet-switch connected_before differs =
      let (unlock, unlock_signature, root, root_signature) = cleared connected_before differs in
      (
        connect_wallet-locked.0, connect_wallet-locked.1, unlock, unlock_signature, root,
        root_signature,
      )

  storage-rest :
      (key prev : Option Text) (k : SessionManager)
      → (notify (clear_on_switch prev key k)).storage ≡ k.storage
  unfolding notify clear_on_switch
  storage-rest key prev k = ground arith

  -- A signal of another wallet that is stored while none is in memory, and still valid, survives
  -- connectWallet to a key it does not name, and the next getVerified returns it.
  pub connect_wallet-stale :
      (v : Json)
      → m.verified ≡ none
      → (load_verified P now m.storage).0 ≡ some v
      → belongs_to (normalize_pub_key pub_key) v ≡ false
      → let n = connect_wallet P now pub_key provider m in
        (n.verified ≡ none) × ((get_verified P now n).0 ≡ some v)
  unfolding connect_wallet get_verified notify clear_on_switch drop_foreign_verified adopt_verified
  connect_wallet-stale v fresh stored foreign =
      let kept = (load_verified-some P now m.storage v stored).1 in ground (arith, kept)
