-- ===== src/Ipfs.antt =====
-- packages/ipfs/src/client.ts: the errors of the client and what it calls. Children: configuration,
-- the two back ends, and the exported functions.
pub mod Config
pub mod Kubo
pub mod Context
pub mod Client
use sovereign_jedi.Prelude.{ℕ, Bool, Option, List, Text}
use sovereign_jedi.Json.{Json}
use sovereign_jedi.Platform.{Bytes}

pub data IpfsError : Type 0 where
  bootstrap_missing bootstrap_empty no_multiaddrs invalid_multiaddr helia_failed : IpfsError
  too_large request_failed add_refused add_unparsed add_without_cid : IpfsError
  cat_refused cat_empty add_timed_out blank_cid invalid_cid cat_timed_out cat_failed : IpfsError
  invalid_package : IpfsError

-- An HTTP answer: no answer in time, or one with `res.ok` and a body.
pub data Answer (A : Type 0) : Type 0 where
  failed : Answer A
  answered : Bool → A → Answer A

-- What `for await` over `fs.cat` gives: chunks, with whether the timer has fired when each arrives,
-- and an end or an exception.
pub data Stream : Type 0 where
  done broken : Stream
  chunk : Bytes → Bool → Stream → Stream

-- A started Helia: `fs.addBytes`, `none` where it fails or takes more than its time, and `fs.cat`.
pub record Helia : Type 0 where
  pub add : Bytes → Option Text
  pub cat : Text → Stream

-- The hosts of IPFS: Kubo's two endpoints (base URL, time allowed in milliseconds, argument), the
-- packages multiaddr, libp2p with helia, and CID, `none` where they throw, and `String(v)` of a
-- value that is no string.
pub record Node : Type 0 where
  pub kubo_add : Text → ℕ → Bytes → Answer Text
  pub kubo_cat : Text → ℕ → Text → Answer Bytes
  pub multiaddr : Text → Option Text
  pub create_helia : List Text → Option Helia
  pub parse_cid : Text → Option Text
  pub string_of : Json → Text

-- `IpfsClientConfig['bootstrapMultiaddrs']`
pub data Addresses : Type 0 where
  csv : Text → Addresses
  listed : List Text → Addresses

-- `Partial<IpfsClientConfig>`
pub record IpfsClientConfig : Type 0 where
  pub bootstrap_multiaddrs : Option Addresses
  pub timeout_ms : Option ℕ
  pub max_bytes : Option ℕ
