-- ===== src/Manifest/Errors.antt =====
-- What the functions of packages/manifest/src throw.
use sovereign_jedi.Prelude.{Outcome, ok, err}
use sovereign_jedi.Crypto.Errors.{CryptoError}

pub data ManifestError : Type 0 where
  -- crypto.ts
  empty_kek blank_wallet key_size not_manifest_v1 wallet_mismatch : ManifestError
  missing_envelope envelope_wallet_mismatch canonicalization_failed : ManifestError
  invalid_object aad_mismatch integrity_failed decrypt_failed invalid_payload : ManifestError
  -- service.ts
  invalid_kek invalid_salt legacy_format unsupported_template missing_wrap unwrap_failed :
      ManifestError
  missing_unlock invalid_json restore_required pointer_missing blank_file_cid : ManifestError
  missing_entry_envelope entries_missing ipfs_failed : ManifestError
  -- storage.ts
  key_has_space blank_cid : ManifestError
  -- @sj/crypto
  crypto : CryptoError → ManifestError

abbrev pub from_crypto : {A : Type 0} → Outcome CryptoError A → Outcome ManifestError A
from_crypto (ok a) = ok a
from_crypto (err e) = err (crypto e)
