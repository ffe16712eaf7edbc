-- ===== src/Registry.antt =====
-- apps/web/src/lib: the retry loop around network calls, and the choice of the newest published
-- manifest.
pub mod Retry
pub mod Head
pub mod Config
pub mod Client
pub mod Content
