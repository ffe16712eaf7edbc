-- ===== src/Upload.antt =====
-- apps/web/src/lib/ipfs/uploadEncryptedToIpfs.ts with its default dependencies: a file is encrypted
-- under a key from the stored proof of control, hashed, and uploaded.
pub mod Result
use sovereign_jedi.Prelude.{
  ℕ, ◌+◌, ◌*◌, Bool, true, false, Option, none, some, List, [], ◌∷◌, Text, text, is_empty, trim,
  length, ltb, not, ◌||◌, if◌then◌else◌, Outcome, ok, err, throw_if, or_throw,
}
use sovereign_jedi.Prelude.Methods.{Method, ◌>>=◌, ◌>>◌, call, done}
use sovereign_jedi.Json.{Json, Fields, num, str, obj, end, field, get, optional}
use sovereign_jedi.Platform.{Platform, Bytes, encode_json}
use sovereign_jedi.Crypto.Errors.{CryptoError}
use sovereign_jedi.Crypto.Unlock.{
  BuildUnlockResult, Surroundings, build_unlock_message_v1, derive_kek_from_unlock_signature,
}
use sovereign_jedi.Crypto.Files.{EncryptOptions, FileDraws, encrypt_file}
use sovereign_jedi.Session.Signing.{Decoders}
use sovereign_jedi.Session.Manager.{SessionManager}
use sovereign_jedi.Identity.{Identity, IdentityError}
use sovereign_jedi.Identity.Store.{BrowserStorage, load_identity}
use sovereign_jedi.Identity.Signature.{string, decode_signature}
use sovereign_jedi.Guards.{can_perform_vault_actions}
use sovereign_jedi.Ipfs.{IpfsError, Node, IpfsClientConfig}
use sovereign_jedi.Ipfs.Config.{Sources}
use sovereign_jedi.Ipfs.Context.{Context}
use sovereign_jedi.Ipfs.Client.{add_encrypted_package}

pub data UploadError : Type 0 where
  no_wallet denied too_big no_signature : UploadError
  identity : IdentityError → UploadError
  crypto : CryptoError → UploadError
  ipfs : IpfsError → UploadError

-- `File`: its content, name and type
pub record UploadFile : Type 0 where
  pub content : Bytes
  pub name : Text
  pub mime_type : Text

pub record UploadResult : Type 0 where
  pub cid : Text
  pub integrity_sha256_b64 : Text
  pub object : Json

-- What one call reads: the host, the IPFS node with its configuration, the browser's storage, the
-- session, the clock, the page, and the random bytes drawn.
pub record UploadSetting : Type 0 where
  pub platform : Platform
  pub decoders : Decoders
  pub node : Node
  pub sources : Sources
  pub storage : Option BrowserStorage
  pub session : SessionManager
  pub now_ms : ℕ
  pub page_origin : Text
  pub salt : Bytes
  pub unlock_nonce : Bytes
  pub draws : FileDraws

abbrev pub max_mvp_file_bytes : ℕ
max_mvp_file_bytes = 100 * 1024 * 1024

unfoldable pub signature_text : Option Identity → Option Text
signature_text none = none
signature_text (some i) = if is_empty i.signature then none else some i.signature

-- `identity?.expiresAt ?? …`, ten minutes from now without an identity
unfoldable pub unlock_expiry : Platform → ℕ → Option Identity → Text
unlock_expiry P now_ms none = P.to_iso_string (now_ms + 10 * 60 * 1000)
unlock_expiry P now_ms (some i) = i.expires_at

abbrev pub file_type : Text → Text
file_type [] = text "application/octet-stream"
file_type (c ∷ s) = c ∷ s

-- `{ version, header, envelope, payload }`, before what `rest` adds
unfoldable pub package_json : Json → Json → Fields → Json
package_json encrypted_file envelope rest = obj (
    field "version" (num 1) (
      field "header" encrypted_file (
        field "envelope" envelope (
          field "payload" (obj (optional "ciphertextB64" (get "ciphertext" encrypted_file) end))
            rest))))

unfoldable pub hash_basis : Json → Json → Json
unfolding package_json
hash_basis encrypted_file envelope = package_json encrypted_file envelope end

unfoldable pub build_encrypted_ipfs_object_v1 : Json → Json → Text → Json
unfolding package_json
build_encrypted_ipfs_object_v1 encrypted_file envelope sha256_b64 =
    package_json encrypted_file envelope
      (field "integrity" (obj (field "sha256B64" (str sha256_b64) end)) end)

unfoldable pub integrity_of : Platform → Json → Json → Text
unfolding hash_basis
integrity_of P encrypted_file envelope =
    P.to_base64 (P.sha256 (encode_json P (hash_basis encrypted_file envelope)))

abbrev lift : {E A : Type 0} → (E → UploadError) → Outcome E A → Outcome UploadError A
lift f (ok a) = ok a
lift f (err e) = err (f e)

unfoldable pub upload_options : UploadSetting → UploadFile → Text → Bytes → EncryptOptions
upload_options s file wallet kek = record {
  file_key = none;
  kek = kek;
  salt = s.salt;
  wallet_pub_key = wallet;
  file_id = none;
  filename = some file.name;
  mime_type = some (file_type file.mime_type);
}

-- The guards, in the code's order, and the signature they let through.
unfoldable pub check_upload :
    UploadSetting → Option Identity → UploadFile → Text → Outcome UploadError Text
unfolding signature_text
check_upload s i file wallet =
    if is_empty wallet || is_empty (trim wallet)
    then err no_wallet
    else if not (can_perform_vault_actions s.platform s.now_ms s.storage s.session i)
    then err denied
    else if ltb max_mvp_file_bytes (length file.content)
    then err too_big
    else or_throw (signature_text i) no_signature

-- `buildUnlockMessageV1` and `deriveKekFromUnlockSignature`
unfoldable pub upload_kek :
    UploadSetting → Option Identity → Text → Bytes → Outcome CryptoError Bytes
unfolding unlock_expiry
upload_kek s i wallet signature_bytes =
    elim (build_unlock_message_v1 s.platform
      (record { page_origin = s.page_origin; now_ms = s.now_ms; random_nonce = s.unlock_nonce })
      (record {
        origin = some s.page_origin;
        wallet = wallet;
        vault_id = some (text "local-default");
        nonce_bytes = none;
        issued_at = some (s.platform.to_iso_string s.now_ms);
        expires_at = some (unlock_expiry s.platform s.now_ms i);
      })) [
        | err e ↦ err e
        | ok unlock ↦
            derive_kek_from_unlock_signature s.platform signature_bytes (some s.salt) unlock
              s.now_ms
      ]

abbrev lift_method : {E S A : Type 0} → (E → UploadError) → Method S E A → Method S UploadError A
lift_method f m s = (lift f (m s).0, (m s).1)

abbrev pub no_config : IpfsClientConfig
no_config = record { bootstrap_multiaddrs = none; timeout_ms = none; max_bytes = none }

-- from the identity that was loaded on
unfoldable pub upload_as :
    UploadSetting → Option Identity → UploadFile → Text → Method Context UploadError UploadResult
unfolding check_upload upload_kek integrity_of
upload_as s i file wallet = do
  signature ← call (check_upload s i file wallet)
  signature_bytes ← call (lift identity (decode_signature s.decoders (string signature)))
  kek ← call (lift crypto (upload_kek s i wallet signature_bytes))
  made ← call (
      lift crypto (encrypt_file s.platform file.content (upload_options s file wallet kek) s.draws))
  let sha256_b64 = integrity_of s.platform made.0 made.1
  let object = build_encrypted_ipfs_object_v1 made.0 made.1 sha256_b64
  cid ← lift_method ipfs (add_encrypted_package s.platform s.node s.sources no_config object)
  done (record { cid = cid; integrity_sha256_b64 = sha256_b64; object = object })

unfoldable pub upload_encrypted_to_ipfs_or_throw :
    UploadSetting → UploadFile → Text → Method Context UploadError UploadResult
upload_encrypted_to_ipfs_or_throw s file wallet =
    upload_as s (load_identity s.platform s.storage) file wallet
