-- ===== src/Guards.antt =====
-- apps/web/src/lib/session/vaultGuards.ts: a vault action needs a verified identity and an unlocked
-- vault. Nothing they call throws, so their `try … catch` is left out.
use sovereign_jedi.Prelude.{
  ℕ, ◌≡◌, ◌↔◌, Bool, true, false, Option, none, some, not, ◌&&◌, Outcome, ok, ◌>>◌, throw_if, arith,
}
use sovereign_jedi.Platform.{Platform}
use sovereign_jedi.Session.Manager.{
  SessionManager, lock_vault, notify, clear_material, is_vault_unlocked,
}
use sovereign_jedi.Identity.{Identity, is_verified}
use sovereign_jedi.Identity.Store.{BrowserStorage, load_identity}

pub data GuardError : Type 0 where
  identity_not_verified vault_locked : GuardError

abbrev given_or_loaded : Platform → Option BrowserStorage → Option Identity → Option Identity
given_or_loaded P s none = load_identity P s
given_or_loaded P s (some i) = some i

module _ (P : Platform) (now : ℕ) (s : Option BrowserStorage) (m : SessionManager) where
  unfoldable pub has_identity_verified : Option Identity → Bool
  has_identity_verified i = is_verified P (given_or_loaded P s i) now

  unfoldable pub can_perform_vault_actions : Option Identity → Bool
  unfolding has_identity_verified
  can_perform_vault_actions i = has_identity_verified i && is_vault_unlocked m

  unfoldable pub assert_can_perform_vault_actions : Option Identity → Outcome GuardError Unit
  unfolding has_identity_verified
  assert_can_perform_vault_actions i = do
    throw_if (not (has_identity_verified i)) identity_not_verified
    throw_if (not (is_vault_unlocked m)) vault_locked

  -- identityVerified and vaultUnlocked
  unfoldable pub vault_guard_status : Option Identity → Bool × Bool
  unfolding has_identity_verified
  vault_guard_status i = (has_identity_verified i, is_vault_unlocked m)

  -- The guard that throws lets through what the guard that answers allows, and nothing else.
  pub assert-can :
      (i : Option Identity)
      → (assert_can_perform_vault_actions i ≡ ok tt) ↔ (can_perform_vault_actions i ≡ true)
  unfolding assert_can_perform_vault_actions can_perform_vault_actions
  assert-can i = ground arith

-- A locked vault allows no action, whatever identity is presented.
pub locked-denies :
    (P : Platform) (now : ℕ) (s : Option BrowserStorage) (m : SessionManager) (i : Option Identity)
    → can_perform_vault_actions P now s (lock_vault m) i ≡ false
unfolding can_perform_vault_actions lock_vault notify clear_material is_vault_unlocked
locked-denies P now s m i = ground arith
