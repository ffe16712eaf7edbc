-- ===== src/Platform.antt =====
-- What the program calls and does not implement: Web Crypto, libsodium, the `canonicalize` package,
-- the host's JSON, UTF-8, base64 and dates. `Platform` holds the operations, `Lawful` what the
-- program relies on. Byte arrays are lists of numbers.
use sovereign_jedi.Prelude.{ℕ, ◌≡◌, ◌∙◌, ap, Option, some, List, Text, length, is_empty, false}
use sovereign_jedi.Json.{Json, str}

abbrev pub Bytes : Type 0
Bytes = List ℕ

pub record Platform : Type 0 where
  -- subtle.digest("SHA-256", …) and subtle.sign("HMAC", …), the key first
  pub sha256 : Bytes → Bytes
  pub hmac_sha256 : Bytes → Bytes → Bytes
  -- crypto_aead_xchacha20poly1305_ietf_encrypt and …_decrypt: message or ciphertext, additional
  -- data, nonce, key; `none` where decryption throws
  pub aead_encrypt : Bytes → Bytes → Bytes → Bytes → Bytes
  pub aead_decrypt : Bytes → Bytes → Bytes → Bytes → Option Bytes
  -- btoa and atob, or Buffer
  pub to_base64 : Bytes → Text
  pub from_base64 : Text → Bytes
  -- canonicalize(v); `none` where it returns no string
  pub canonicalize : Json → Option Text
  -- JSON.stringify and JSON.parse, `none` where that throws
  pub stringify : Json → Text
  pub parse : Text → Option Json
  -- TextEncoder and TextDecoder
  pub utf8_encode : Text → Bytes
  pub utf8_decode : Bytes → Text
  -- String(v)
  pub string_of : Json → Text
  -- new Date(ms).toISOString() and Date.parse, `none` for NaN
  pub to_iso_string : ℕ → Text
  pub date_parse : Text → Option ℕ

pub record Lawful (P : Platform) : Type 0 where
  pub sha256_non_empty : (b : Bytes) → is_empty (P.sha256 b) ≡ false
  pub hmac_size : (key message : Bytes) → length (P.hmac_sha256 key message) ≡ 32
  pub aead_opens :
      (m aad nonce key : Bytes)
      → P.aead_decrypt (P.aead_encrypt m aad nonce key) aad nonce key ≡ some m
  pub base64_non_empty : (b : Bytes) → is_empty b ≡ false → is_empty (P.to_base64 b) ≡ false
  pub base64_opens : (b : Bytes) → P.from_base64 (P.to_base64 b) ≡ b
  pub json_non_empty : (j : Json) → is_empty (P.stringify j) ≡ false
  pub json_opens : (j : Json) → P.parse (P.stringify j) ≡ some j
  -- `JSON.stringify` writes no lone surrogate, so its text survives UTF-8
  pub utf8_opens : (j : Json) → P.utf8_decode (P.utf8_encode (P.stringify j)) ≡ P.stringify j
  pub string_of_text : (t : Text) → P.string_of (str t) ≡ t
  pub iso_non_empty : (ms : ℕ) → is_empty (P.to_iso_string ms) ≡ false
  pub date_opens : (ms : ℕ) → P.date_parse (P.to_iso_string ms) ≡ some ms

-- new TextEncoder().encode(JSON.stringify(v))
unfoldable pub encode_json : Platform → Json → Bytes
encode_json P v = P.utf8_encode (P.stringify v)

-- JSON.parse(new TextDecoder().decode(bytes))
unfoldable pub decode_json : Platform → Bytes → Option Json
decode_json P bytes = P.parse (P.utf8_decode bytes)

pub decode-encode :
    (P : Platform) → Lawful P → (v : Json) → decode_json P (encode_json P v) ≡ some v
unfolding decode_json encode_json
decode-encode P l v = ap P.parse (l.utf8_opens v) ∙ l.json_opens v
