-- ===== src/Checks/Samples.antt =====
-- Sample surroundings in which everything the program relies on holds: an encryption that writes key,
-- nonce and associated data in front, an IPFS node that keeps everything, a wallet that signs with
-- its own bytes.
use sovereign_jedi.Prelude.{
  ℕ, Text, ◌≡◌, refl, true, false, Option, none, some, [], ◌∷◌, length, replicate, is_empty, trim,
  trim-trim, text_eq, text_eq_refl, if◌then◌else◌,
}
use sovereign_jedi.Json.{Json, str, arr, nil, cons}
use sovereign_jedi.Platform.{Platform, Lawful, Bytes}
use sovereign_jedi.Manifest.Service.{Host}
use sovereign_jedi.Manifest.Service.Reopen.{LawfulHost}
use sovereign_jedi.Checks.Codec.{put_text, get_text, get_text-put_text}
use sovereign_jedi.Checks.JsonCodec.{stringify, parse, parse-stringify}

abbrev seal : Bytes → Bytes → Bytes → Bytes → Bytes
seal m aad nonce key = put_text key (put_text nonce (put_text aad m))

-- the rest behind an expected text
abbrev pub expect : Text → Option (Text × Bytes) → Option Bytes
expect t none = none
expect t (some (s, r)) = if text_eq t s then some r else none

abbrev pub and_open : Option Bytes → (Bytes → Option Bytes) → Option Bytes
and_open none f = none
and_open (some b) f = f b

unfoldable pub unseal : Bytes → Bytes → Bytes → Bytes → Option Bytes
unseal c aad nonce key =
    and_open (expect key (get_text c))
      λ r. and_open (expect nonce (get_text r)) λ r'. expect aad (get_text r')

unseal-seal : (m aad nonce key : Bytes) → unseal (seal m aad nonce key) aad nonce key ≡ some m
unfolding unseal
unseal-seal m aad nonce key =
    rw
      (
        get_text-put_text key (put_text nonce (put_text aad m)),
        text_eq_refl key,
        get_text-put_text nonce (put_text aad m),
        text_eq_refl nonce,
        get_text-put_text aad m,
        text_eq_refl aad,
      )
      refl

abbrev date_of : Text → Option ℕ
date_of (c ∷ (ms ∷ [])) = some ms
date_of _ = none

-- `String` of a list of one string is that string.
abbrev text_of : Json → Text
text_of (str t) = t
text_of (arr (cons (str t) nil)) = t
text_of v = stringify v

abbrev pub platform : Platform
platform = record {
  sha256 = λ b. length b ∷ b;
  hmac_sha256 = λ k m. replicate 32 (length k);
  aead_encrypt = seal;
  aead_decrypt = unseal;
  to_base64 = λ b. b;
  from_base64 = λ t. t;
  canonicalize = λ v. some (stringify v);
  stringify = stringify;
  parse = parse;
  utf8_encode = λ t. t;
  utf8_decode = λ b. b;
  string_of = text_of;
  to_iso_string = λ ms. 84 ∷ (ms ∷ []);
  date_parse = date_of;
}

stringify_full : (j : Json) → is_empty (stringify j) ≡ false
unfolding stringify
stringify_full j = refl

pub platform-Lawful : Lawful platform
platform-Lawful = record {
  sha256_non_empty = λ b. refl;
  hmac_size = λ k m. refl;
  aead_opens = unseal-seal;
  base64_non_empty = λ b h. h;
  base64_opens = λ b. refl;
  json_non_empty = stringify_full;
  json_opens = parse-stringify;
  utf8_opens = λ j. refl;
  string_of_text = λ t. refl;
  iso_non_empty = λ ms. refl;
  date_opens = λ ms. refl;
}

abbrev pub host : Host
host = record {
  platform = platform;
  cluster = none;
  cid_of = λ b. trim b;
  accepts = λ b. true;
  serves = λ c. true;
}

pub host-LawfulHost : LawfulHost host
host-LawfulHost = record { platform = platform-Lawful; cid_trimmed = λ b. trim-trim b }
