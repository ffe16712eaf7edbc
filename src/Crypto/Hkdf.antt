-- ===== src/Crypto/Hkdf.antt =====
-- packages/crypto/src/index.ts: HKDF (RFC 5869) over HMAC-SHA256.
pub mod Rfc
use sovereign_jedi.Prelude.{
  ℕ, zero, suc, ◌+◌, ◌*◌, ◌/◌, ◌%◌, Option, none, some, List, [], ◌∷◌, ◌++◌, length, take, drop,
  replicate, ltb, leb, ◌==◌, ◌||◌, if◌then◌else◌, or_default, Outcome, ok, err,
}
use sovereign_jedi.Platform.{Platform, Bytes}
use sovereign_jedi.Crypto.Errors.{CryptoError, invalid_length}

unfoldable pub normalize_salt : Option Bytes → Bytes
normalize_salt none = replicate 32 0
normalize_salt (some []) = replicate 32 0
normalize_salt (some (b ∷ salt)) = b ∷ salt

unfoldable pub hkdf_extract : Platform → Option Bytes → Bytes → Bytes
unfolding normalize_salt
hkdf_extract P salt ikm = P.hmac_sha256 (normalize_salt salt) ikm

-- `array.set(part, offset)`
unfoldable pub set_at : ℕ → Bytes → Bytes → Bytes
set_at offset part array = take offset array ++ (part ++ drop (offset + length part) array)

-- T(i-1) || info || i, the last in a byte
unfoldable pub block_input : Bytes → Bytes → ℕ → Bytes
block_input t info i = t ++ (info ++ (i % 256) ∷ [])

-- `for (let i = …; i <= n; i++)` with `rounds` rounds left
unfoldable pub expand_parts : Platform → Bytes → Bytes → Bytes → ℕ → ℕ → List Bytes
unfolding block_input
expand_parts P prk info t i zero = []
expand_parts P prk info t i (suc rounds) =
    let t' = P.hmac_sha256 prk (block_input t info i) in
    t' ∷ expand_parts P prk info t' (i + 1) rounds

-- `for (const part of okmParts)`
unfoldable pub write_parts : List Bytes → ℕ → Bytes → Bytes
unfolding set_at
write_parts [] offset okm = okm
write_parts (part ∷ parts) offset okm =
    write_parts parts (offset + length part) (set_at offset part okm)

unfoldable pub hkdf_expand : Platform → Bytes → Option Bytes → ℕ → Outcome CryptoError Bytes
unfolding expand_parts write_parts
hkdf_expand P prk info size =
    if size == 0 || ltb (255 * 32) size
    then err invalid_length
    else let n = (size + 31) / 32 in
      ok (
        take size
          (write_parts (expand_parts P prk (or_default info []) [] 1 n) 0 (replicate (n * 32) 0)))

unfoldable pub derive_key_hkdf :
    Platform → Bytes → Option Bytes → Option Bytes → ℕ → Outcome CryptoError Bytes
unfolding hkdf_extract hkdf_expand
derive_key_hkdf P ikm salt info size = hkdf_expand P (hkdf_extract P salt ikm) info size
