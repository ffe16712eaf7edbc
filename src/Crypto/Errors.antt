-- ===== src/Crypto/Errors.antt =====
-- What the functions of packages/crypto/src throw, one constructor for each message.
pub data CryptoError : Type 0 where
  -- index.ts
  invalid_length unlock_expired odd_hex : CryptoError
  canonicalization_failed : CryptoError
  -- v0_local_encryption/localEncryption.ts
  nonce_size invalid_date salt_size missing_bytes : CryptoError
  file_key_size wallet_required salt_required file_id_required unwrap_failed decrypt_failed :
      CryptoError
