-- ===== src/Session.antt =====
-- apps/web/src/lib/session/SessionManager.ts: the wallet session of one tab.
pub mod Hook
pub mod Verified
pub mod Manager
pub mod Signing
pub mod Unlocking
pub mod Invariant
pub mod History
pub mod Persistence
pub mod Switching
pub mod Interleaving
