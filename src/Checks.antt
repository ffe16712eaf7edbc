-- ===== src/Checks.antt =====
-- Concrete runs: sample surroundings, and each theorem with hypotheses applied where they hold.
pub mod Codec
pub mod JsonCodec
pub mod Samples
pub mod Manifest
pub mod Cipher
pub mod Session
pub mod Registry
pub mod Races
pub mod Clients
pub mod Pages
