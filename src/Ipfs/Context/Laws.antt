-- ===== src/Ipfs/Context/Laws.antt =====
-- What the Helia back end gives: the concatenated chunks, and the first answer of the singleton.
use sovereign_jedi.Prelude.{
  ℕ, zero, suc, ◌+◌, ◌≡◌, refl, sym, ap, ◌∙◌, true, false, Option, none, some, List, [], ◌∷◌, ◌++◌,
  length, drop, replicate, length-append, take-append, is_empty, ◌==◌, arith, ok, err, Outcome,
  if◌then◌else◌,
}
use sovereign_jedi.Platform.{Platform, Bytes}
use sovereign_jedi.Ipfs.{
  IpfsError, Stream, done, broken, chunk, Node, Addresses, cat_empty, cat_timed_out, cat_failed,
}
use sovereign_jedi.Ipfs.Config.{Sources}
use sovereign_jedi.Ipfs.Context.{
  create_helia_context, get_ipfs_context, read_chunks, set_at, copy_chunks, cat_stream, push_chunk,
  assemble,
}

-- the bytes of a stream that ends in time, one chunk after another
abbrev prepend : Bytes → Outcome IpfsError Bytes → Outcome IpfsError Bytes
prepend c (ok b) = ok (c ++ b)
prepend c (err e) = err e

unfoldable pub stream_bytes : Stream → Outcome IpfsError Bytes
stream_bytes done = ok []
stream_bytes broken = err cat_failed
stream_bytes (chunk c late rest) = if late then err cat_timed_out else prepend c (stream_bytes rest)

abbrev pub not_blank : Outcome IpfsError Bytes → Outcome IpfsError Bytes
not_blank (ok b) = if is_empty b then err cat_empty else ok b
not_blank (err e) = err e

joined : List Bytes → Bytes
joined [] = []
joined (c ∷ cs) = c ++ joined cs

append_nil : (a : Bytes) → a ++ [] ≡ a
append_nil [] = refl
append_nil (x ∷ a) = ap (λ (t : Bytes). x ∷ t) (append_nil a)

append_append : (a b c : Bytes) → (a ++ b) ++ c ≡ a ++ (b ++ c)
append_append [] b c = refl
append_append (x ∷ a) b c = ap (λ (t : Bytes). x ∷ t) (append_append a b c)

drop_add : (a rest : Bytes) (n m : ℕ) → n ≡ length a + m → drop n (a ++ rest) ≡ drop m rest
drop_add [] rest n m h = ap (λ k. drop k rest) (omega (arith, h))
drop_add (x ∷ a) rest zero m h = absurd (omega arith)
drop_add (x ∷ a) rest (suc n) m h = drop_add a rest n m (omega arith)

length-drop : (n : ℕ) (out : Bytes) (m : ℕ) → length out ≡ n + m → length (drop n out) ≡ m
length-drop zero out m h = omega (arith, h)
length-drop (suc n) [] m h = absurd (omega arith)
length-drop (suc n) (x ∷ out) m h = length-drop n out m (omega arith)

-- writing a chunk behind what is already written
set_at-append :
    (a c rest : Bytes) → set_at (length a) c (a ++ rest) ≡ (a ++ c) ++ drop (length c) rest
unfolding set_at
set_at-append a c rest =
    rw (take-append a rest, drop_add a rest (length a + length c) (length c) refl)
      (sym (append_append a c (drop (length c) rest)))

copy_chunks-joined :
    (cs : List Bytes) (n : ℕ) (a rest : Bytes)
    → n ≡ length a
    → length rest ≡ length (joined cs)
    → copy_chunks n cs (a ++ rest) ≡ a ++ joined cs
unfolding copy_chunks joined
copy_chunks-joined [] n a [] e h = refl
copy_chunks-joined [] n a (x ∷ rest) e h = absurd (omega arith)
copy_chunks-joined (c ∷ cs) n a rest e h = rw e (
    rw (set_at-append a c rest) (
      copy_chunks-joined cs (length a + length c) (a ++ c) (drop (length c) rest)
        (sym (length-append a c))
        (length-drop (length c) rest (length (joined cs)) (h ∙ length-append c (joined cs)))
      ∙ append_append a c (joined cs)))

length-replicate : (n : ℕ) → length (replicate {A = ℕ} n 0) ≡ n
length-replicate zero = refl
length-replicate (suc n) = ap suc (length-replicate n)

-- what the loop has read against the bytes of the stream
abbrev Agree : Outcome IpfsError (List Bytes × ℕ) → Outcome IpfsError Bytes → Type 0
Agree (ok (cs, total)) r = (r ≡ ok (joined cs)) × (total ≡ length (joined cs))
Agree (err e) r = r ≡ err e

push_chunk-Agree :
    (c : Bytes) (r : Outcome IpfsError (List Bytes × ℕ)) (b : Outcome IpfsError Bytes)
    → Agree r b
    → Agree (push_chunk c r) (prepend c b)
unfolding joined
push_chunk-Agree c (ok (cs, total)) b h =
    (ap (prepend c) h.0, ap (λ k. length c + k) h.1 ∙ sym (length-append c (joined cs)))
push_chunk-Agree c (err e) b h = ap (prepend c) h

read_chunks-Agree : (s : Stream) → Agree (read_chunks s) (stream_bytes s)
unfolding read_chunks stream_bytes joined
read_chunks-Agree done = (refl, refl)
read_chunks-Agree broken = refl
read_chunks-Agree (chunk c true rest) = refl
read_chunks-Agree (chunk c false rest) =
    push_chunk-Agree c (read_chunks rest) (stream_bytes rest) (read_chunks-Agree rest)

is_empty-length : (b : Bytes) → is_empty b ≡ (length b == 0)
is_empty-length [] = refl
is_empty-length (x ∷ b) = ground arith

copied :
    (cs : List Bytes) (total : ℕ)
    → total ≡ length (joined cs)
    → copy_chunks 0 cs (replicate total 0) ≡ joined cs
copied cs total h = copy_chunks-joined cs 0 [] (replicate total 0) refl (length-replicate total ∙ h)

assembled :
    (r : Outcome IpfsError (List Bytes × ℕ)) (b : Outcome IpfsError Bytes)
    → Agree r b
    → assemble r ≡ not_blank b
unfolding assemble
assembled (err e) b h = rw h refl
assembled (ok (cs, total)) b h =
    rw (h.0, copied cs total h.1, is_empty-length (joined cs), sym h.1) refl

-- For every stream of chunks, what catBytes copies together is the chunks one after another; it
-- throws where the stream is empty, breaks, or has a chunk after the time is over.
pub cat_stream-stream_bytes : (s : Stream) → cat_stream s ≡ not_blank (stream_bytes s)
unfolding cat_stream
cat_stream-stream_bytes s = assembled (read_chunks s) (stream_bytes s) (read_chunks-Agree s)

-- The singleton keeps its first answer: after a failure, every later call fails the same way,
-- whatever configuration it is given, until the test helper resets it.
pub get_ipfs_context-first :
    (P : Platform) (n : Node) (s s' : Sources) (first later : Option Addresses) (e : IpfsError)
    → create_helia_context P n s first ≡ err e
    → get_ipfs_context P n s' later (get_ipfs_context P n s first none).1 ≡ (err e, some (err e))
unfolding get_ipfs_context
get_ipfs_context-first P n s s' first later e h = rw h refl
