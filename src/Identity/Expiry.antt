-- ===== src/Identity/Expiry.antt =====
-- For how long a proof of control counts as verified.
use sovereign_jedi.Prelude.{ℕ, ◌+◌, ◌*◌, ◌≡◌, some, leb, ok, arith}
use sovereign_jedi.Platform.{Platform, Lawful}
use sovereign_jedi.Identity.{Identity, compute_expires_at, is_identity_expired, is_verified}

-- The identity of a verification at `ms` with a lifetime of `ttl` seconds is verified until then
-- and no longer.
pub is_verified-compute_expires_at :
    (P : Platform) (ms ttl now : ℕ) (i : Identity)
    → Lawful P
    → i.verified_at ≡ P.to_iso_string ms
    → compute_expires_at P i.verified_at (some ttl) ≡ ok i.expires_at
    → is_verified P (some i) now ≡ leb now (ms + ttl * 1000)
unfolding compute_expires_at is_identity_expired is_verified
is_verified-compute_expires_at P ms ttl now i l verified expires = ground (
  arith,
  l.iso_non_empty ms,
  l.date_opens ms,
  l.iso_non_empty (ms + ttl * 1000),
  l.date_opens (ms + ttl * 1000),
)
