-- ===== src/Crypto/Hkdf/Rfc.antt =====
-- The expansion loop against RFC 5869, and the size of its output.
use mathlib.Core.List.{append-nil, append_assoc}
use mathlib.Core.Path.{ap₂}
use sovereign_jedi.Prelude.{
  ℕ, zero, suc, ◌+◌, ◌*◌, ◌/◌, ◌%◌, ◌≤◌, ◌<◌, ◌≡◌, refl, sym, ap, ◌∙◌, Option, List, [], ◌∷◌, ◌++◌,
  length, take, drop, replicate, or_default, ok, err, arith, length-append, length-take,
  take-append, drop-append, ◌⊎◌, ◌↔◌,
}
use sovereign_jedi.Platform.{Platform, Lawful, Bytes}
use sovereign_jedi.Crypto.Errors.{invalid_length}
use sovereign_jedi.Crypto.Hkdf.{set_at, block_input, expand_parts, write_parts, hkdf_expand}

-- T(1) || T(2) || … || T(n) of RFC 5869, section 2.3, from T(i-1) = t on.
pub rfc_stream : Platform → Bytes → Bytes → Bytes → ℕ → ℕ → Bytes
rfc_stream P prk info t i zero = []
rfc_stream P prk info t i (suc n) =
    let t' = P.hmac_sha256 prk (t ++ (info ++ i ∷ [])) in t' ++ rfc_stream P prk info t' (i + 1) n

zeros : ℕ → Bytes
zeros n = replicate n 0

flatten : List Bytes → Bytes
flatten [] = []
flatten (part ∷ parts) = part ++ flatten parts

drop_all : (n : ℕ) → drop n (zeros n) ≡ []
unfolding zeros
drop_all zero = refl
drop_all (suc n) = drop_all n

drop-nil : (n : ℕ) → drop n (let e : Bytes = [] in e) ≡ []
drop-nil zero = refl
drop-nil (suc n) = refl

drop-add : (a b : ℕ) (xs : Bytes) → drop (a + b) xs ≡ drop b (drop a xs)
drop-add zero b xs = ap (λ (n : ℕ). drop n xs) (omega arith)
drop-add (suc a) b [] = drop-nil (suc a + b) ∙ sym (drop-nil b)
drop-add (suc a) b (x ∷ xs) =
    let e : suc a + b ≡ suc (a + b) = omega arith in
    ap (λ (n : ℕ). drop n (x ∷ xs)) e ∙ drop-add a b xs

set_at-append :
    (written part rest : Bytes)
    → set_at (length written) part (written ++ rest) ≡ written ++ (part ++ drop (length part) rest)
unfolding set_at
set_at-append written part rest =
    rw (take-append written rest, drop-add (length written), drop-append written rest) refl

-- The writes leave what was written before and put the parts one behind another.
write_parts-flatten :
    (parts : List Bytes) (written rest : Bytes)
    → write_parts parts (length written) (written ++ rest)
      ≡ written ++ (flatten parts ++ drop (length (flatten parts)) rest)
unfolding write_parts flatten
write_parts-flatten [] written rest = refl
write_parts-flatten (part ∷ parts) written rest =
    let here = set_at-append written part rest in
    let size = length-append written part in
    let next = write_parts-flatten parts (written ++ part) (drop (length part) rest) in
    ap₂ (λ (n : ℕ) (b : Bytes). write_parts parts n b) (sym size)
      (here ∙ sym (append_assoc written part _))
    ∙ next
    ∙ append_assoc written part _
    ∙ ap (λ (b : Bytes). written ++ b)
        (sym (
          append_assoc part (flatten parts) _
          ∙ ap (λ (b : Bytes). part ++ (flatten parts ++ b))
              (ap (λ (n : ℕ). drop n rest) (length-append part (flatten parts))
                ∙ drop-add (length part) (length (flatten parts)) rest)))

module _ (P : Platform) (l : Lawful P) (prk info : Bytes) where
  length-rfc : (n i : ℕ) (t : Bytes) → length (rfc_stream P prk info t i n) ≡ n * 32
  unfolding rfc_stream
  length-rfc zero i t = refl
  length-rfc (suc n) i t =
      let t' = P.hmac_sha256 prk (t ++ (info ++ i ∷ [])) in
      omega (
        arith,
        length-append t' (rfc_stream P prk info t' (i + 1) n),
        l.hmac_size prk (t ++ (info ++ i ∷ [])),
        length-rfc n (i + 1) t',
      )

  flatten-expand :
      (n i : ℕ) (t : Bytes)
      → i + n ≤ 256
      → flatten (expand_parts P prk info t i n) ≡ rfc_stream P prk info t i n
  unfolding flatten expand_parts rfc_stream block_input
  flatten-expand zero i t h = refl
  flatten-expand (suc n) i t h =
      let byte : i % 256 ≡ i = omega arith in
      rw byte (
        ap (λ (b : Bytes). P.hmac_sha256 prk (t ++ (info ++ i ∷ [])) ++ b)
          (flatten-expand n (i + 1) _ (omega arith)))

  write_parts-rfc :
      (n : ℕ)
      → n ≤ 255
      → write_parts (expand_parts P prk info [] 1 n) 0 (zeros (n * 32))
        ≡ rfc_stream P prk info [] 1 n
  unfolding zeros
  write_parts-rfc n h =
      let stream = rfc_stream P prk info [] 1 n in
      let flat = flatten-expand n 1 [] (omega arith) in
      write_parts-flatten (expand_parts P prk info [] 1 n) [] (zeros (n * 32))
      ∙ ap (λ (b : Bytes). b ++ drop (length b) (zeros (n * 32))) flat
      ∙ ap (λ (k : ℕ). stream ++ drop k (zeros (n * 32))) (length-rfc n 1 [])
      ∙ ap (λ (b : Bytes). stream ++ b) (drop_all (n * 32))
      ∙ append-nil stream

module _ (P : Platform) (l : Lawful P) (prk : Bytes) (info : Option Bytes) (size : ℕ) where
  -- On a lawful platform, whose HMAC has 32 bytes, for a length from 1 to 255 * 32, hkdfExpand
  -- returns exactly the first bytes of the RFC 5869 stream, and as many as asked.
  pub hkdf_expand-rfc :
      1 ≤ size
      → size ≤ 255 * 32
      → (hkdf_expand P prk info size
          ≡ ok (take size (rfc_stream P prk (or_default info []) [] 1 ((size + 31) / 32))))
        × (length (take size (rfc_stream P prk (or_default info []) [] 1 ((size + 31) / 32)))
            ≡ size)
  unfolding hkdf_expand zeros
  hkdf_expand-rfc low high =
      let n = (size + 31) / 32 in
      let written = write_parts-rfc P l prk (or_default info []) n (omega arith) in
      let size_of = length-rfc P l prk (or_default info []) n 1 [] in
      (
        ground (arith, written),
        length-take size (rfc_stream P prk (or_default info []) [] 1 n) (omega (arith, size_of)),
      )

-- hkdfExpand throws on length 0 and on a length above 255 * 32, and on no other.
pub hkdf_expand-err :
    (P : Platform) (prk : Bytes) (info : Option Bytes) (size : ℕ)
    → (hkdf_expand P prk info size ≡ err invalid_length) ↔ ((size ≡ 0) ⊎ (255 * 32 < size))
unfolding hkdf_expand
hkdf_expand-err P prk info size = (λ e. ground arith, λ h. ground arith)
