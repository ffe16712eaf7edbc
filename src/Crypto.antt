-- ===== src/Crypto.antt =====
-- packages/crypto/src: key derivation, the two messages that a wallet signs, and file encryption.
pub mod Errors
pub mod Hkdf
pub mod Hex
pub mod Kek
pub mod Unlock
pub mod VaultRoot
pub mod Files
