-- ===== src/Ipfs/Context.antt =====
-- The Helia back end: the singleton of `getIpfsContext`, and the chunks of `catBytes` put together.
pub mod Laws
use sovereign_jedi.Prelude.{
  ℕ, zero, suc, ◌+◌, Bool, true, false, Option, none, some, List, [], ◌∷◌, ◌++◌, Text, length, take,
  drop, replicate, ◌==◌, if◌then◌else◌, Outcome, ok, err, ◌>>=◌, ◌>>◌, or_throw,
}
use sovereign_jedi.Platform.{Platform, Bytes}
use sovereign_jedi.Ipfs.{
  IpfsError, no_multiaddrs, invalid_multiaddr, helia_failed, cat_empty, cat_timed_out, cat_failed,
  Stream, done, broken, chunk, Helia, Node, Addresses, IpfsClientConfig,
}
use sovereign_jedi.Ipfs.Config.{Sources, get_bootstrap_multiaddrs, normalize_bootstrap_multiaddrs}

unfoldable pub parse_all : Node → List Text → Option (List Text)
parse_all n [] = some []
parse_all n (a ∷ rest) = elim (n.multiaddr a) [
  | none ↦ none
  | some m ↦ elim (parse_all n rest) [ none ↦ none | some ms ↦ some (m ∷ ms) ]
]

unfoldable pub to_multiaddrs_or_throw : Node → List Text → Outcome IpfsError (List Text)
unfolding parse_all
to_multiaddrs_or_throw n [] = err no_multiaddrs
to_multiaddrs_or_throw n (a ∷ rest) = or_throw (parse_all n (a ∷ rest)) invalid_multiaddr

unfoldable pub bootstrap_strings :
    Platform → Sources → Option Addresses → Outcome IpfsError (List Text)
bootstrap_strings P s (some addresses) = ok (normalize_bootstrap_multiaddrs addresses)
bootstrap_strings P s none = get_bootstrap_multiaddrs P s

unfoldable pub create_helia_context :
    Platform → Node → Sources → Option Addresses → Outcome IpfsError Helia
unfolding bootstrap_strings to_multiaddrs_or_throw
create_helia_context P n s addresses = do
  strings ← bootstrap_strings P s addresses
  addrs ← to_multiaddrs_or_throw n strings
  or_throw (n.create_helia addrs) helia_failed

-- `_ctxPromise`: absent, or the promise with what it settles to
abbrev pub Context : Type 0
Context = Option (Outcome IpfsError Helia)

unfoldable pub get_ipfs_context :
    Platform → Node → Sources → Option Addresses → Context → Outcome IpfsError Helia × Context
unfolding create_helia_context
get_ipfs_context P n s addresses (some settled) = (settled, some settled)
get_ipfs_context P n s addresses none =
    let settled = create_helia_context P n s addresses in (settled, some settled)

unfoldable pub reset_ipfs_context : Context → Context
reset_ipfs_context c = none

abbrev pub push_chunk :
    Bytes → Outcome IpfsError (List Bytes × ℕ) → Outcome IpfsError (List Bytes × ℕ)
push_chunk c (ok (chunks, total)) = ok (c ∷ chunks, length c + total)
push_chunk c (err e) = err e

-- the loop over `fs.cat`: the chunks and their total size
unfoldable pub read_chunks : Stream → Outcome IpfsError (List Bytes × ℕ)
read_chunks done = ok ([], 0)
read_chunks broken = err cat_failed
read_chunks (chunk bytes late rest) =
    if late then err cat_timed_out else push_chunk bytes (read_chunks rest)

-- `out.set(c, offset)`
unfoldable pub set_at : ℕ → Bytes → Bytes → Bytes
set_at offset c out = take offset out ++ (c ++ drop (offset + length c) out)

unfoldable pub copy_chunks : ℕ → List Bytes → Bytes → Bytes
unfolding set_at
copy_chunks offset [] out = out
copy_chunks offset (c ∷ cs) out = copy_chunks (offset + length c) cs (set_at offset c out)

unfoldable pub assemble : Outcome IpfsError (List Bytes × ℕ) → Outcome IpfsError Bytes
unfolding copy_chunks
assemble (err e) = err e
assemble (ok (chunks, total)) =
    if total == 0 then err cat_empty else ok (copy_chunks 0 chunks (replicate total 0))

unfoldable pub cat_stream : Stream → Outcome IpfsError Bytes
unfolding read_chunks assemble
cat_stream s = assemble (read_chunks s)
