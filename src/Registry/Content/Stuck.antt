-- ===== src/Registry/Content/Stuck.antt =====
-- What the retries do once Helia could not start.
use sovereign_jedi.Prelude.{
  ℕ, zero, suc, ◌≡◌, refl, ap, ◌∙◌, true, false, some, none, Text, trim, is_empty, err,
}
use sovereign_jedi.Prelude.Methods.{◌>>=◌, ◌>>◌}
use sovereign_jedi.Platform.{Platform}
use sovereign_jedi.Ipfs.{IpfsError, Node}
use sovereign_jedi.Ipfs.Config.{Sources, get_kubo_api_url}
use sovereign_jedi.Ipfs.Context.{create_helia_context, get_ipfs_context}
use sovereign_jedi.Ipfs.Client.{cat_bytes, cat_bytes_via_helia}
use sovereign_jedi.Registry.Retry.Laws.{waits, with_retry-err}
use sovereign_jedi.Registry.Content.{default_call, context_at, cat_attempt, get_manifest_from_ipfs}

module _ (P : Platform) (nodes : ℕ → Node) (s : Sources) (cid : Text) (e : IpfsError)
    (full : is_empty cid ≡ false) (visible : is_empty (trim cid) ≡ false)
    (no_kubo : is_empty (get_kubo_api_url P s) ≡ true) where
  cat_bytes-rejected :
      (n : Node) → cat_bytes P n s default_call cid (some (err e)) ≡ (err e, some (err e))
  unfolding cat_bytes cat_bytes_via_helia get_ipfs_context ◌>>=◌ ◌>>◌
  cat_bytes-rejected n = rw (full, visible, no_kubo) refl

  cat_bytes-first :
      (n : Node)
      → create_helia_context P n s none ≡ err e
      → cat_bytes P n s default_call cid none ≡ (err e, some (err e))
  unfolding cat_bytes cat_bytes_via_helia get_ipfs_context ◌>>=◌ ◌>>◌
  cat_bytes-first n down = rw (full, visible, no_kubo, down) refl

  module _ (down : create_helia_context P (nodes 0) s none ≡ err e) where
    context_at-rejected : (i : ℕ) → context_at P nodes s cid none (suc i) ≡ some (err e)
    unfolding context_at
    context_at-rejected zero = ap (λ r. r.1) (cat_bytes-first (nodes 0) down)
    context_at-rejected (suc i) =
        ap (λ c. (cat_bytes P (nodes (suc i)) s default_call cid c).1) (context_at-rejected i)
        ∙ ap (λ r. r.1) (cat_bytes-rejected (nodes (suc i)))

    cat_attempt-rejected : (i : ℕ) → cat_attempt P nodes s cid none i ≡ err e
    unfolding cat_attempt context_at
    cat_attempt-rejected zero = ap (λ r. r.0) (cat_bytes-first (nodes 0) down)
    cat_attempt-rejected (suc i) =
        ap (λ c. (cat_bytes P (nodes (suc i)) s default_call cid c).0) (context_at-rejected i)
        ∙ ap (λ r. r.0) (cat_bytes-rejected (nodes (suc i)))

    -- If no Kubo is configured, the CID is not blank and Helia cannot be started at the first
    -- attempt, getManifestFromIpfs throws the error of that attempt after all its waits, even if
    -- Helia could be started later.
    pub get_manifest_from_ipfs-stuck :
        (retries backoff_ms : ℕ)
        → get_manifest_from_ipfs P nodes s retries backoff_ms cid none
          ≡ (err e, waits backoff_ms retries 0)
    unfolding get_manifest_from_ipfs
    get_manifest_from_ipfs-stuck retries backoff_ms =
        with_retry-err (cat_attempt P nodes s cid none) backoff_ms retries e
          (λ j small. (e, cat_attempt-rejected j)) (cat_attempt-rejected retries)
