-- ===== src/Manifest.antt =====
-- packages/manifest/src: the encrypted manifest, its key, its local pointer and the service.
pub mod Errors
pub mod Cipher
pub mod Mutex
pub mod Wrap
pub mod Pointer
pub mod Service
