-- ===== src/Crypto/Hex.antt =====
-- packages/crypto/src/index.ts: `toHex` and `fromHex`.
pub mod Laws
use sovereign_jedi.Prelude.{
  ℕ, ◌+◌, ◌-◌, ◌*◌, ◌/◌, ◌%◌, Bool, true, false, Option, none, some, List, [], ◌∷◌, Text, leb, ◌==◌,
  ◌&&◌, length, is_space, if◌then◌else◌, Outcome, ok, err,
}
use sovereign_jedi.Platform.{Bytes}
use sovereign_jedi.Crypto.Errors.{CryptoError, odd_hex}

-- a digit of `toString(16)`
unfoldable pub hex_digit : ℕ → ℕ
hex_digit n = if leb n 9 then 48 + n else 87 + n

-- `b.toString(16).padStart(2, "0")` for a byte, and the digits joined
unfoldable pub to_hex : Bytes → Text
unfolding hex_digit
to_hex [] = []
to_hex (b ∷ bs) = hex_digit (b / 16) ∷ (hex_digit (b % 16) ∷ to_hex bs)

unfoldable pub digit_value : ℕ → Option ℕ
digit_value c =
    if leb 48 c && leb c 57
    then some (c - 48)
    else if leb 97 c && leb c 102
    then some (c - 87)
    else if leb 65 c && leb c 70
    then some (c - 55)
    else none

-- `parseInt(s, 16)` of a single character behind `sign` or a blank; NaN becomes 0 in a Uint8Array.
abbrev after_sign : ℕ → Option ℕ → ℕ
after_sign a none = 0
after_sign a (some v) =
    if a == 43 then v else if a == 45 then (256 - v) % 256 else if is_space a then v else 0

-- `parseInt(s, 16)` of two characters, stored in a Uint8Array
unfoldable pub parse_pair : ℕ → ℕ → ℕ
unfolding digit_value
parse_pair a b = elim (digit_value a) [
  | some high ↦ elim (digit_value b) [ some low ↦ 16 * high + low | none ↦ high ]
  | none ↦ after_sign a (digit_value b)
]

-- the loop of `hexToBytes` and `fromHex`
unfoldable pub hex_to_bytes : Text → Bytes
unfolding parse_pair
hex_to_bytes [] = []
hex_to_bytes (a ∷ []) = []
hex_to_bytes (a ∷ (b ∷ hex)) = parse_pair a b ∷ hex_to_bytes hex

unfoldable pub from_hex : Text → Outcome CryptoError Bytes
unfolding hex_to_bytes
from_hex hex = if length hex % 2 == 0 then ok (hex_to_bytes hex) else err odd_hex
