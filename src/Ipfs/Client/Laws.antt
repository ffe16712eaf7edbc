-- ===== src/Ipfs/Client/Laws.antt =====
-- The size that `addBytes` reports and accepts.
use sovereign_jedi.Prelude.{
  ℕ, ◌≡◌, ◌≤◌, ◌⊎◌, inl, inr, false, some, Text, is_empty, length, ok, arith, Bool-cases,
}
use sovereign_jedi.Prelude.Methods.{◌>>=◌, ◌>>◌}
use sovereign_jedi.Platform.{Platform, Bytes}
use sovereign_jedi.Ipfs.{Node, IpfsClientConfig}
use sovereign_jedi.Ipfs.Config.{Sources, get_kubo_api_url}
use sovereign_jedi.Ipfs.Kubo.{AddBytesResult, add_bytes_via_kubo}
use sovereign_jedi.Ipfs.Context.{Context}
use sovereign_jedi.Ipfs.Client.{exceeds, add_bytes, add_bytes_via_helia}

exceeds-bound :
    (max : ℕ) (bytes : Bytes) → exceeds (some max) bytes ≡ false → (max ≡ 0) ⊎ (length bytes ≤ max)
unfolding exceeds
exceeds-bound max bytes h = ground arith

module _ (P : Platform) (n : Node) (s : Sources) (config : IpfsClientConfig) where
  add_bytes_via_kubo-size :
      (base : Text) (bytes : Bytes) (r : AddBytesResult)
      → add_bytes_via_kubo P n base config.timeout_ms bytes ≡ ok r
      → r.size ≡ length bytes
  unfolding add_bytes_via_kubo
  add_bytes_via_kubo-size base bytes r h = ground arith

  add_bytes_via_helia-size :
      (bytes : Bytes) (c c' : Context) (r : AddBytesResult)
      → add_bytes_via_helia P n s config bytes c ≡ (ok r, c')
      → r.size ≡ length bytes
  unfolding add_bytes_via_helia ◌>>=◌
  add_bytes_via_helia-size bytes c c' r h = ground arith

  pub add_bytes-size :
      (bytes : Bytes) (max : ℕ) (c c' : Context) (r : AddBytesResult)
      → config.max_bytes ≡ some max
      → add_bytes P n s config bytes c ≡ (ok r, c')
      → (r.size ≡ length bytes) × ((max ≡ 0) ⊎ (length bytes ≤ max))
  unfolding add_bytes exceeds ◌>>=◌ ◌>>◌
  add_bytes-size bytes max c c' r limit h =
      let within = exceeds-bound max bytes (ground (arith, limit)) in
      elim (Bool-cases (exceeds config.max_bytes bytes)) [
        | inl q ↦ absurd (ground (arith, q))
        | inr q ↦ elim (Bool-cases (is_empty (get_kubo_api_url P s))) [
          | inl e ↦ (add_bytes_via_helia-size bytes c c' r (ground (arith, q, e)), within)
          | inr e ↦ (
            add_bytes_via_kubo-size (get_kubo_api_url P s) bytes r (ground (arith, q, e)),
            within,
          )
        ]
      ]
