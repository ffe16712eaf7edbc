-- ===== src/Registry/Content.antt =====
-- getManifestFromIpfs of apps/web/src/lib/solana/RegistryService.ts. The abort controller that it
-- makes is not given to catBytes and has no part in the model. Attempt `i` meets the hosts `nodes i`.
pub mod Stuck
use sovereign_jedi.Prelude.{ℕ, zero, suc, none, List, Text, Outcome}
use sovereign_jedi.Platform.{Platform, Bytes}
use sovereign_jedi.Ipfs.{IpfsError, Node, IpfsClientConfig}
use sovereign_jedi.Ipfs.Config.{Sources}
use sovereign_jedi.Ipfs.Context.{Context}
use sovereign_jedi.Ipfs.Client.{cat_bytes}
use sovereign_jedi.Registry.Retry.{with_retry}

-- `catBytes(manifestCid)`, without a configuration
abbrev pub default_call : IpfsClientConfig
default_call = record { bootstrap_multiaddrs = none; timeout_ms = none; max_bytes = none }

module _ (P : Platform) (nodes : ℕ → Node) (s : Sources) where
  -- the singleton when attempt `i` begins
  unfoldable pub context_at : Text → Context → ℕ → Context
  context_at cid c zero = c
  context_at cid c (suc i) = (cat_bytes P (nodes i) s default_call cid (context_at cid c i)).1

  unfoldable pub cat_attempt : Text → Context → ℕ → Outcome IpfsError Bytes
  unfolding context_at
  cat_attempt cid c i = (cat_bytes P (nodes i) s default_call cid (context_at cid c i)).0

  unfoldable pub get_manifest_from_ipfs : ℕ → ℕ → Text → Context → Outcome IpfsError Bytes × List ℕ
  unfolding cat_attempt
  get_manifest_from_ipfs retries backoff_ms cid c =
      with_retry (cat_attempt cid c) backoff_ms retries
