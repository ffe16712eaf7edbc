-- ===== src/Session/Persistence.antt =====
-- The Verified signal across saves, loads and expiry.
use sovereign_jedi.Prelude.{
  ℕ, ◌+◌, ◌*◌, ◌<◌, ◌≡◌, refl, ap, ◌∙◌, true, false, Option, none, some, arith, ok, Text, ltb,
  if◌then◌else◌, inl, inr, Option-cases, [], ◌∷◌, is_empty, subst,
}
use sovereign_jedi.Prelude.Methods.{Ensures}
use sovereign_jedi.Json.{Json, null, bool, num, str, arr, obj, get, find_field, truthy}
use sovereign_jedi.Platform.{Platform, Lawful, Bytes}
use sovereign_jedi.Crypto.Unlock.{Surroundings}
use sovereign_jedi.Session.Verified.{
  LocalStorage, VerifiedState, verified_json, expiry_of, load_verified, load_raw, check_expiry,
  save_verified,
}
use sovereign_jedi.Session.Manager.{SessionManager, get_verified}
use sovereign_jedi.Session.Signing.{Signers}
use sovereign_jedi.Session.Unlocking.{unlock_vault}
use sovereign_jedi.Session.Unlocking.Effects.{Unlocked, Untouched, IsSignal, unlock_vault-effects}

-- loadVerified returns a value only if its expiresAt is a number later than now, and then leaves
-- localStorage as it was.
pub load_verified-some :
    (P : Platform) (now : ℕ) (ls : LocalStorage) (v : Json)
    → (load_verified P now ls).0 ≡ some v
    → ((t : ℕ) × (expiry_of v ≡ some t) × (now < t)) × ((load_verified P now ls).1 ≡ ls)
unfolding load_verified load_raw check_expiry
load_verified-some P now ls v h = elim (Option-cases (expiry_of v)) [
  | inl e ↦ absurd (ground arith)
  | inr (t, e) ↦ ((t, e, ground arith), ground arith)
]

load_raw-parsed :
    (P : Platform) (now : ℕ) (ls : LocalStorage) (raw : Text) (v : Json)
    → is_empty raw ≡ false
    → P.parse raw ≡ some v
    → load_raw P now ls (some raw) ≡ check_expiry now ls v
unfolding load_raw
load_raw-parsed P now ls [] v h e = cc
load_raw-parsed P now ls (c ∷ raw) v h e = rw (e, load_raw) refl

check_expiry-verified :
    (now : ℕ) (ls : LocalStorage) (v : VerifiedState)
    → (check_expiry now ls (verified_json v)).0
      ≡ (if ltb now v.expires_at then some (verified_json v) else none)
unfolding check_expiry expiry_of verified_json get find_field truthy
check_expiry-verified now ls v = ground arith

-- On a lawful platform, with a localStorage that is there and can be written, what saveVerified
-- writes, loadVerified returns until it expires, and no longer.
pub load-save :
    (P : Platform) (l : Lawful P) (now : ℕ) (ls : LocalStorage) (v : VerifiedState)
    → ls.available ≡ true
    → ls.writable ≡ true
    → (load_verified P now (save_verified P (verified_json v) ls)).0
      ≡ (if ltb now v.expires_at then some (verified_json v) else none)
unfolding load_verified save_verified
load-save P l now ls v available writable =
    rw (available, writable)
      (ap (λ (r : Option Json × LocalStorage). r.0)
          (load_raw-parsed P now _ (P.stringify (verified_json v)) (verified_json v)
            (l.json_non_empty (verified_json v)) (l.json_opens (verified_json v)))
        ∙ check_expiry-verified now _ v)

load-stored :
    (P : Platform) (now : ℕ) (ls : LocalStorage) (raw : Text)
    → ls.available ≡ true
    → ls.item ≡ some raw
    → load_verified P now ls ≡ load_raw P now ls (some raw)
unfolding load_verified
load-stored P now ls raw available there = rw (available, there) refl

IsSignal-check :
    (finished now : ℕ) (m : SessionManager) (ls : LocalStorage) (v : Json)
    → IsSignal finished m v
    → (check_expiry now ls v).0
      ≡ (if ltb now (finished + 24 * 60 * 60 * 1000) then some v else none)
unfolding check_expiry expiry_of get truthy
IsSignal-check finished now m ls (obj fs) h = ground (arith, h.expires_at)
IsSignal-check finished now m ls null h = absurd (ground (arith, h.expires_at))
IsSignal-check finished now m ls (bool b) h = absurd (ground (arith, h.expires_at))
IsSignal-check finished now m ls (num n) h = absurd (ground (arith, h.expires_at))
IsSignal-check finished now m ls (str t) h = absurd (ground (arith, h.expires_at))
IsSignal-check finished now m ls (arr xs) h = absurd (ground (arith, h.expires_at))

-- On a lawful platform, after an unlockVault that returned, with a localStorage that is there and
-- can be written, getVerified returns, for exactly the next 24 hours and no longer, a signal that
-- names the wallet and has the time of the unlock and the end of the 24 hours.
pub get_verified-unlock_vault :
    (P : Platform) (l : Lawful P) (signers : Signers) (s : Surroundings) (salt : Bytes)
    (finished now : ℕ) (m n : SessionManager)
    → m.storage.available ≡ true
    → m.storage.writable ≡ true
    → unlock_vault P signers s salt finished m ≡ (ok tt, n)
    → (v : Json) × IsSignal finished m v
      × ((get_verified P now n).0
          ≡ (if ltb now (finished + 24 * 60 * 60 * 1000) then some v else none))
unfolding get_verified
get_verified-unlock_vault P l signers s salt finished now m n available writable e =
    let opened : Unlocked P finished m n =
      subst (Ensures (λ _. Unlocked P finished m) (Untouched m)) e
        (unlock_vault-effects P m signers s salt finished) in
    let v = opened.value in
    let ls : LocalStorage = record m.storage { item = some (P.stringify v) } in
    let stored : n.storage ≡ ls = ground (arith, opened.storage, available, writable) in
    (
      v,
      opened.signal,
      ap (λ (x : LocalStorage). (load_verified P now x).0) stored
          ∙ (ap (λ (r : Option Json × LocalStorage). r.0)
                (load-stored P now ls (P.stringify v) available refl
                  ∙ load_raw-parsed P now ls (P.stringify v) v (l.json_non_empty v)
                      (l.json_opens v))
              ∙ IsSignal-check finished now m ls v opened.signal),
    )
