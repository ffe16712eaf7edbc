-- ===== src/Identity.antt =====
-- apps/web/src/components/wallet/types.ts: the proof of control that the browser keeps, its
-- message, its expiry, and the helpers on localStorage.
pub mod Store
pub mod Expiry
pub mod Signature
pub mod Verify
use sovereign_jedi.Prelude.{
  ℕ, ◌+◌, ◌-◌, ◌*◌, Bool, true, false, Option, none, some, List, [], ◌∷◌, ◌++◌, Text, text, take,
  drop, length, is_empty, or_default, not, ◌||◌, leb, ltb, if◌then◌else◌, Outcome, ok, err, ◌>>=◌,
  or_throw,
}
use sovereign_jedi.Json.{Json, str, obj, end, field, get, as_text}
use sovereign_jedi.Platform.{Platform, Bytes}
use sovereign_jedi.Crypto.Hex.{to_hex}

pub record Identity : Type 0 where
  pub public_key : Text
  pub message : Text
  pub signature : Text
  pub issued_at : Text
  pub verified_at : Text
  pub expires_at : Text
  pub nonce : Text
  pub cluster : Text
  pub domain : Text

pub data IdentityError : Type 0 where
  invalid_time undecodable_signature invalid_message : IdentityError
  invalid_public_key invalid_public_key_size : IdentityError

-- `Number(raw)` of a configured text: NaN, at most 0, above 0 with its floor, or Infinity
pub data Numeral : Type 0 where
  nan not_positive infinity : Numeral
  positive : ℕ → Numeral

abbrev pub default_proof_ttl_seconds : ℕ
default_proof_ttl_seconds = 24 * 60 * 60

-- A number of seconds, `none` for Infinity.
unfoldable pub ttl_of : Numeral → Option ℕ
ttl_of nan = some default_proof_ttl_seconds
ttl_of not_positive = some default_proof_ttl_seconds
ttl_of infinity = none
ttl_of (positive n) = some n

-- `fromPublic ?? fromInternal`, read by `Number`
unfoldable pub get_proof_ttl_seconds : (Text → Numeral) → Option Text → Option Text → Option ℕ
unfolding ttl_of
get_proof_ttl_seconds number (some raw) internal = ttl_of (number raw)
get_proof_ttl_seconds number none (some raw) = ttl_of (number raw)
get_proof_ttl_seconds number none none = some default_proof_ttl_seconds

-- The nonce is the hexadecimal form of random bytes.
unfoldable pub generate_nonce : Bytes → Text
generate_nonce random = to_hex random

pub record ProofParams : Type 0 where
  pub domain : Text
  pub public_key : Text
  pub nonce : Text
  pub issued_at : Text
  pub cluster : Text
  pub statement : Option Text

-- `lines.join('\n')`
unfoldable pub join_lines : List Text → Text
join_lines [] = []
join_lines (l ∷ []) = l
join_lines (l ∷ (k ∷ ls)) = l ++ (10 ∷ join_lines (k ∷ ls))

-- U+2014 stands between the title's two halves.
unfoldable pub build_proof_message : ProofParams → Text
unfolding join_lines
build_proof_message p = join_lines (
    (text "Sovereign Jedi " ++ (8212 ∷ text " Proof of Control"))
    ∷ (text "domain: " ++ p.domain)
    ∷ (text "publicKey: " ++ p.public_key)
    ∷ (text "statement: "
        ++ or_default p.statement (text "Prove you control this wallet for Sovereign Jedi"))
    ∷ (text "nonce: " ++ p.nonce)
    ∷ (text "issuedAt: " ++ p.issued_at)
    ∷ (text "chain: solana:" ++ p.cluster)
    ∷ text "purpose: proof_of_control"
    ∷ [])

-- the last time a Date can hold, in milliseconds
abbrev pub max_date : ℕ
max_date = 8640000000000000

-- `new Date(base + ttl * 1000).toISOString()`, which throws on NaN and beyond the last time
unfoldable pub compute_expires_at : Platform → Text → Option ℕ → Outcome IdentityError Text
compute_expires_at P verified_at none = err invalid_time
compute_expires_at P verified_at (some ttl) = elim (P.date_parse verified_at) [
  | none ↦ err invalid_time
  | some base ↦
      if leb (base + ttl * 1000) max_date
      then ok (P.to_iso_string (base + ttl * 1000))
      else err invalid_time
]

abbrev pub expired_at : Option ℕ → ℕ → Bool
expired_at none now = true
expired_at (some expires) now = ltb expires now

unfoldable pub is_identity_expired : Platform → Option Identity → ℕ → Bool
is_identity_expired P none now = true
is_identity_expired P (some i) now =
    if is_empty i.expires_at then true else expired_at (P.date_parse i.expires_at) now

unfoldable pub is_verified : Platform → Option Identity → ℕ → Bool
unfolding is_identity_expired
is_verified P none now = false
is_verified P (some i) now =
    if is_empty i.verified_at || is_empty i.expires_at
    then false
    else not (is_identity_expired P (some i) now)

unfoldable pub truncate_address : Text → ℕ → ℕ → Text
truncate_address addr start stop =
    if leb (length addr) (start + stop + 3)
    then addr
    else take start addr ++ (text "..." ++ drop (length addr - stop) addr)
