-- ===== src/Ipfs/Client.antt =====
-- `addBytes`, `catBytes` and `addEncryptedPackage`.
pub mod Laws
use sovereign_jedi.Prelude.{
  ℕ, Bool, true, false, Option, none, some, List, [], ◌∷◌, Text, trim, is_empty, length, leb, ltb,
  not, ◌&&◌, ◌||◌, if◌then◌else◌, Outcome, ok, err, throw_if, or_throw,
}
use sovereign_jedi.Prelude.Methods.{Method, ◌>>=◌, ◌>>◌, call, done}
use sovereign_jedi.Json.{Json, get, is_num}
use sovereign_jedi.Platform.{Platform, Bytes, encode_json}
use sovereign_jedi.Ipfs.{
  IpfsError, too_large, add_timed_out, blank_cid, invalid_cid, invalid_package, Helia, Node,
  IpfsClientConfig,
}
use sovereign_jedi.Ipfs.Config.{Sources, get_kubo_api_url}
use sovereign_jedi.Ipfs.Kubo.{AddBytesResult, add_bytes_via_kubo, cat_bytes_via_kubo}
use sovereign_jedi.Ipfs.Context.{Context, get_ipfs_context, cat_stream}

-- `typeof max === 'number' && max > 0 && bytes.byteLength > max`
unfoldable pub exceeds : Option ℕ → Bytes → Bool
exceeds none bytes = false
exceeds (some max) bytes = ltb 0 max && ltb max (length bytes)

module _ (P : Platform) (n : Node) (s : Sources) (config : IpfsClientConfig) where
  unfoldable pub add_bytes_via_helia : Bytes → Method Context IpfsError AddBytesResult
  add_bytes_via_helia bytes = do
    helia ← get_ipfs_context P n s config.bootstrap_multiaddrs
    cid ← call (or_throw (helia.add bytes) add_timed_out)
    done (record { cid = cid; size = length bytes })

  unfoldable pub add_bytes : Bytes → Method Context IpfsError AddBytesResult
  unfolding get_kubo_api_url exceeds
  add_bytes bytes = do
    call (throw_if (exceeds config.max_bytes bytes) too_large)
    let kubo_api = get_kubo_api_url P s
    if is_empty kubo_api
        then add_bytes_via_helia bytes
        else call (add_bytes_via_kubo P n kubo_api config.timeout_ms bytes)

  unfoldable pub cat_bytes_via_helia : Text → Method Context IpfsError Bytes
  cat_bytes_via_helia cid = do
    helia ← get_ipfs_context P n s config.bootstrap_multiaddrs
    parsed ← call (or_throw (n.parse_cid (trim cid)) invalid_cid)
    call (cat_stream (helia.cat parsed))

  unfoldable pub cat_bytes : Text → Method Context IpfsError Bytes
  cat_bytes cid = do
    call (throw_if (is_empty cid || is_empty (trim cid)) blank_cid)
    let kubo_api = get_kubo_api_url P s
    if is_empty kubo_api
        then cat_bytes_via_helia cid
        else call (cat_bytes_via_kubo n kubo_api config.timeout_ms (trim cid))

  unfoldable pub add_encrypted_package : Json → Method Context IpfsError Text
  add_encrypted_package pkg = do
    call (throw_if (not (is_num (get "version" pkg) 1)) invalid_package)
    added ← add_bytes (encode_json P pkg)
    done added.cid
