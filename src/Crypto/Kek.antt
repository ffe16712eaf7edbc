-- ===== src/Crypto/Kek.antt =====
-- The key encryption key: `deriveKekFromSignature` of v0_local_encryption/localEncryption.ts and
-- its two public callers in index.ts.
use sovereign_jedi.Prelude.{ℕ, Option, none, some, [], ◌∷◌, text, Outcome}
use sovereign_jedi.Platform.{Platform, Bytes}
use sovereign_jedi.Crypto.Errors.{CryptoError}
use sovereign_jedi.Crypto.Hkdf.{derive_key_hkdf}

-- utf8Encode('SJ-KEK-v1')
abbrev pub kek_info : Platform → Bytes
kek_info P = P.utf8_encode (text "SJ-KEK-v1")

abbrev pub kek_length : ℕ
kek_length = 32

-- `saltBytes && saltBytes.length > 0 ? saltBytes : null`
unfoldable pub non_empty_salt : Option Bytes → Option Bytes
non_empty_salt none = none
non_empty_salt (some []) = none
non_empty_salt (some (b ∷ salt)) = some (b ∷ salt)

unfoldable pub derive_kek_from_signature :
    Platform → Bytes → Option Bytes → Outcome CryptoError Bytes
unfolding non_empty_salt
derive_kek_from_signature P signature_bytes salt_bytes =
    derive_key_hkdf P (P.sha256 signature_bytes) (non_empty_salt salt_bytes) (some (kek_info P))
      kek_length

unfoldable pub derive_vault_root_kek_from_signature : Platform → Bytes → Outcome CryptoError Bytes
derive_vault_root_kek_from_signature P signature_bytes =
    derive_kek_from_signature P signature_bytes none
