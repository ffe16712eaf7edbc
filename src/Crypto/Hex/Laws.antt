-- ===== src/Crypto/Hex/Laws.antt =====
-- Bytes across their hexadecimal form.
use sovereign_jedi.Prelude.{ℕ, ◌*◌, ◌/◌, ◌%◌, ◌<◌, ◌≡◌, refl, some, [], ◌∷◌, length, All, arith, ok}
use sovereign_jedi.Platform.{Bytes}
use sovereign_jedi.Crypto.Hex.{hex_digit, to_hex, digit_value, parse_pair, hex_to_bytes, from_hex}

pub digit_value-hex_digit : (n : ℕ) → n < 16 → digit_value (hex_digit n) ≡ some n
unfolding digit_value hex_digit
digit_value-hex_digit n h = ground arith

parse_pair-to_hex : (b : ℕ) → b < 256 → parse_pair (hex_digit (b / 16)) (hex_digit (b % 16)) ≡ b
unfolding parse_pair
parse_pair-to_hex b h =
    rw
      (
        parse_pair,
        digit_value-hex_digit (b / 16) (omega arith),
        digit_value-hex_digit (b % 16) (omega arith),
      )
      (omega arith)

pub length-to_hex : (bs : Bytes) → length (to_hex bs) ≡ 2 * length bs
unfolding to_hex
length-to_hex [] = refl
length-to_hex (b ∷ bs) = omega (arith, length-to_hex bs)

pub hex_to_bytes-to_hex : (bs : Bytes) → All (λ b. b < 256) bs → hex_to_bytes (to_hex bs) ≡ bs
unfolding hex_to_bytes to_hex
hex_to_bytes-to_hex [] small = refl
hex_to_bytes-to_hex (b ∷ bs) small =
    rw (parse_pair-to_hex b small.0, hex_to_bytes-to_hex bs small.1) refl

-- `fromHex` reads back what `toHex` writes for bytes below 256.
pub from_hex-to_hex : (bs : Bytes) → All (λ b. b < 256) bs → from_hex (to_hex bs) ≡ ok bs
unfolding from_hex
from_hex-to_hex bs small = ground (arith, length-to_hex bs, hex_to_bytes-to_hex bs small)
