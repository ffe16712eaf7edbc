-- ===== src/Session/Invariant.antt =====
-- What holds of the session between calls, when no `unlockVault` is waiting.
use sovereign_jedi.Prelude.{
  ℕ, ◌≡◌, refl, ap, Bool, true, false, Option, none, some, Text, is_some, arith, ◌⊎◌, inl, inr,
  text_eq→eq, ◌&&◌, not, Bool-cases,
}
use sovereign_jedi.Platform.{Platform}
use sovereign_jedi.Crypto.Unlock.{BuildUnlockResult}
use sovereign_jedi.Crypto.VaultRoot.{BuildVaultRootResult}
use sovereign_jedi.Session.Verified.{LocalStorage}
use sovereign_jedi.Session.Manager.{
  SessionManager, PubKeyInput, new_session_manager, normalize_pub_key, same_key, is_key, notify,
  drop_foreign_verified, adopt_verified, clear_on_switch, connect_wallet, or_null, lock_vault,
  get_verified, disconnect_wallet,
}

-- Key material that is in memory was signed by the connected wallet; an unlocked vault has both
-- messages with their signatures.
pub record IsCoherent (m : SessionManager) : Type 0 where
  pub unlock_wallet :
      (u : BuildUnlockResult)
      → m.last_unlock ≡ some u
      → (m.wallet_pub_key ≡ some u.canonical_object.wallet) × (is_key m.wallet_pub_key ≡ true)
  pub root_wallet :
      (r : BuildVaultRootResult)
      → m.last_vault_root ≡ some r
      → (m.wallet_pub_key ≡ r.canonical_object.wallet) × (is_key m.wallet_pub_key ≡ true)
  pub unlocked_material :
      m.vault_unlocked ≡ true
      → (is_some m.last_unlock ≡ true)
        × (is_some m.last_unlock_signature_bytes ≡ true)
        × (is_some m.last_vault_root ≡ true)
        × (is_some m.last_vault_root_signature_bytes ≡ true)

pub new_session_manager-IsCoherent :
    (P : Platform) (now : ℕ) (window : Bool) (ls : LocalStorage)
    → IsCoherent (new_session_manager P now window ls)
unfolding new_session_manager
new_session_manager-IsCoherent P now window ls = record {
  unlock_wallet = λ u e. cc;
  root_wallet = λ r e. cc;
  unlocked_material = λ e. cc;
}

pub lock_vault-IsCoherent : (m : SessionManager) → IsCoherent (lock_vault m)
unfolding lock_vault
lock_vault-IsCoherent m = ground arith

pub disconnect_wallet-IsCoherent : (m : SessionManager) → IsCoherent (disconnect_wallet m)
unfolding disconnect_wallet
disconnect_wallet-IsCoherent m = ground arith

-- The wallet, the lock and the key material are the same in both.
pub record SameMaterial (m n : SessionManager) : Type 0 where
  pub wallet : n.wallet_pub_key ≡ m.wallet_pub_key
  pub lock : n.vault_unlocked ≡ m.vault_unlocked
  pub unlock : n.last_unlock ≡ m.last_unlock
  pub unlock_signature : n.last_unlock_signature_bytes ≡ m.last_unlock_signature_bytes
  pub root : n.last_vault_root ≡ m.last_vault_root
  pub root_signature : n.last_vault_root_signature_bytes ≡ m.last_vault_root_signature_bytes

pub notify-SameMaterial : (m : SessionManager) → SameMaterial m (notify m)
unfolding notify
notify-SameMaterial m = ground arith

pub drop_foreign_verified-SameMaterial :
    (key : Option Text) (m : SessionManager) → SameMaterial m (drop_foreign_verified key m)
unfolding drop_foreign_verified
drop_foreign_verified-SameMaterial key m = ground arith

pub adopt_verified-SameMaterial :
    (P : Platform) (now : ℕ) (key : Option Text) (m : SessionManager)
    → SameMaterial m (adopt_verified P now key m)
unfolding adopt_verified
adopt_verified-SameMaterial P now key m = ground arith

-- Two keys that `===` takes for one are one.
pub same_key-eq : (a b : Option Text) → same_key a b ≡ true → a ≡ b
unfolding same_key
same_key-eq none none h = refl
same_key-eq none (some b) h = cc
same_key-eq (some a) none h = cc
same_key-eq (some a) (some b) h = ap some (text_eq→eq a b h)

SameMaterial-trans :
    {m n o : SessionManager} → SameMaterial m n → SameMaterial n o → SameMaterial m o
SameMaterial-trans h k = ground arith

-- The state that `connectWallet` reaches before its test for a switch of the wallet.
unfoldable pub connected :
    Platform → ℕ → PubKeyInput → Option Text → SessionManager → SessionManager
connected P now pub_key provider m =
    let key = normalize_pub_key pub_key in
    adopt_verified P now key (
      drop_foreign_verified key (record m {
        wallet_pub_key = key;
        wallet_provider = or_null provider;
        vault_unlocked = false;
      }))

pub connected-SameMaterial :
    (P : Platform) (now : ℕ) (pub_key : PubKeyInput) (provider : Option Text) (m : SessionManager)
    → SameMaterial
        (record m {
          wallet_pub_key = normalize_pub_key pub_key;
          wallet_provider = or_null provider;
          vault_unlocked = false;
        })
        (connected P now pub_key provider m)
unfolding connected
connected-SameMaterial P now pub_key provider m =
    let key = normalize_pub_key pub_key in
    let m1 : SessionManager = record m {
      wallet_pub_key = key;
      wallet_provider = or_null provider;
      vault_unlocked = false;
    } in
    SameMaterial-trans (drop_foreign_verified-SameMaterial key m1)
      (adopt_verified-SameMaterial P now key (drop_foreign_verified key m1))

pub SameMaterial-IsCoherent :
    {m n : SessionManager} → SameMaterial m n → IsCoherent m → IsCoherent n
SameMaterial-IsCoherent h v = record {
  unlock_wallet = λ u e. ground (arith, v.unlock_wallet u);
  root_wallet = λ r e. ground (arith, v.root_wallet r);
  unlocked_material = λ e. ground arith;
}

-- The test for a switch: either it clears the material, or the wallet stays or there was none.
switch_cases :
    (prev key : Option Text)
    → ((is_key prev && not (same_key prev key)) ≡ true)
      ⊎ (((is_key prev && not (same_key prev key)) ≡ false)
          × ((is_key prev ≡ false) ⊎ (prev ≡ key)))
switch_cases prev key = elim (Bool-cases (is_key prev)) [
  | inl a ↦ elim (Bool-cases (same_key prev key)) [
    | inl b ↦ inr (ground arith, inr (same_key-eq prev key b))
    | inr b ↦ inl (ground arith)
  ]
  | inr a ↦ inr (ground arith, inl a)
]

module _ (m n : SessionManager) (key provider : Option Text) (v : IsCoherent m)
    (same : SameMaterial
      (record m { wallet_pub_key = key; wallet_provider = provider; vault_unlocked = false })
      n) where
  clear_on_switch-IsCoherent : IsCoherent (clear_on_switch m.wallet_pub_key key n)
  unfolding clear_on_switch
  clear_on_switch-IsCoherent = elim (switch_cases m.wallet_pub_key key) [
    | inl e ↦ rw e (ground arith)
    | inr (e, why) ↦ rw e (record {
      unlock_wallet = λ u h. ground (arith, v.unlock_wallet u);
      root_wallet = λ r h. ground (arith, v.root_wallet r);
      unlocked_material = λ h. ground arith;
    })
  ]

pub connect_wallet-IsCoherent :
    (P : Platform) (now : ℕ) (pub_key : PubKeyInput) (provider : Option Text) (m : SessionManager)
    → IsCoherent m
    → IsCoherent (connect_wallet P now pub_key provider m)
unfolding connect_wallet connected
connect_wallet-IsCoherent P now pub_key provider m v =
    SameMaterial-IsCoherent (notify-SameMaterial _) (
      clear_on_switch-IsCoherent m _ (normalize_pub_key pub_key) (or_null provider) v
        (connected-SameMaterial P now pub_key provider m))

pub get_verified-IsCoherent :
    (P : Platform) (now : ℕ) (m : SessionManager)
    → IsCoherent m
    → IsCoherent (get_verified P now m).1
unfolding get_verified
get_verified-IsCoherent P now m v = record {
  unlock_wallet = v.unlock_wallet;
  root_wallet = v.root_wallet;
  unlocked_material = v.unlocked_material;
}
