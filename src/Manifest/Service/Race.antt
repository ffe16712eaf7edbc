-- ===== src/Manifest/Service/Race.antt =====
-- `loadManifestOrInit` does not take the mutex of `appendEntryAndPersist`: what runs while it waits
-- for IPFS may be an append.
use sovereign_jedi.Prelude.{
  ◌≡◌, refl, subst, sym, ap, ◌∙◌, false, true, none, some, Text, ok, arith,
}
use sovereign_jedi.Prelude.Methods.{Method, ◌>>=◌, ◌>>◌, call, Ensures}
use sovereign_jedi.Json.{Json, arr, nil, get, find_field}
use sovereign_jedi.Manifest.Errors.{ManifestError}
use sovereign_jedi.Manifest.Service.{
  World, Host, Draws, Params, LoadManifestResult, loaded, created, given, check_params, read_cid,
  empty_manifest, init_manifest, load_or_init_at, load_manifest_or_init,
}
use sovereign_jedi.Manifest.Service.Reopen.{LawfulHost}
use sovereign_jedi.Manifest.Service.Loads.{Reopens, at-Reopens, load-Holds}
use sovereign_jedi.Manifest.Service.Entry.{NewEntry, Stamp}
use sovereign_jedi.Manifest.Service.Append.{append_entry_and_persist}

-- A load, with what else happens between its reading of the pointer and the rest.
unfoldable pub load_overtaken :
    {A : Type 0}
    → Host
    → Params
    → Text
    → Draws
    → Method World ManifestError A
    → Method World ManifestError LoadManifestResult
load_overtaken h p now_iso d meanwhile = do
  wallet ← call (check_params p)
  existing_cid ← read_cid h wallet
  meanwhile
  load_or_init_at h p wallet now_iso d existing_cid

init-empty :
    (h : Host) (p : Params) (wallet now_iso cid : Text) (m : Json) (d : Draws) (w w' : World)
    → given p.on_chain_latest_manifest_cid ≡ false
    → load_or_init_at h p wallet now_iso d none w ≡ (ok (created m cid), w')
    → m ≡ empty_manifest h wallet now_iso
unfolding load_or_init_at init_manifest ◌>>=◌
init-empty h p wallet now_iso cid m d w w' nowhere q = ground arith

no_entries :
    (h : Host) (wallet now_iso : Text)
    → get "entries" (empty_manifest h wallet now_iso) ≡ some (arr nil)
unfolding empty_manifest get find_field
no_entries h wallet now_iso = refl

overtaken-rest :
    {A : Type 0} (h : Host) (p : Params) (wallet now_iso : Text) (d : Draws)
    (meanwhile : Method World ManifestError A) (a : A) (w w1 : World)
    → check_params p ≡ ok wallet
    → read_cid h wallet w ≡ (ok none, w)
    → meanwhile w ≡ (ok a, w1)
    → load_overtaken h p now_iso d meanwhile w ≡ load_or_init_at h p wallet now_iso d none w1
unfolding load_overtaken ◌>>=◌ ◌>>◌
overtaken-rest h p wallet now_iso d meanwhile a w w1 checked missing done =
    rw (checked, missing, done) refl

-- On a lawful host, if a load with no CID from the chain finds no pointer, and an append returns
-- before the load goes on and creates a manifest that IPFS serves, every later load with the same
-- arguments returns that manifest, which has no entries.
pub load_overtaken-loses :
    (h : Host) (l : LawfulHost h) (p : Params) (entry : NewEntry) (s : Stamp)
    (wallet now_iso later cid cid' : Text) (m m' : Json) (first d d' d'' : Draws) (w w1 w2 : World)
    → check_params p ≡ ok wallet
    → given p.on_chain_latest_manifest_cid ≡ false
    → read_cid h wallet w ≡ (ok none, w)
    → append_entry_and_persist h p entry s first d w ≡ (ok (m, cid), w1)
    → load_overtaken h p now_iso d' (append_entry_and_persist h p entry s first d) w
      ≡ (ok (created m' cid'), w2)
    → h.serves cid' ≡ true
    → (load_manifest_or_init h p later d'' w2 ≡ (ok (loaded m' cid'), w2))
      × (get "entries" m' ≡ some (arr nil))
load_overtaken-loses h l p entry s wallet now_iso later cid cid' m m' first d d' d'' w w1 w2 checked
      nowhere missing appended overtaken served =
    let rest : load_or_init_at h p wallet now_iso d' none w1 ≡ (ok (created m' cid'), w2) =
      sym (
        overtaken-rest h p wallet now_iso d' (append_entry_and_persist h p entry s first d) (m, cid)
          w w1 checked missing appended)
      ∙ overtaken in
    let (found, (key, held)) =
      subst (Ensures (Reopens h l p wallet checked) (λ _. Unit)) rest
        (at-Reopens h l p wallet checked now_iso d' none w1) in
    (
      load-Holds h l p wallet cid' later m' key d'' w2 checked found held served,
      ap (get "entries") (init-empty h p wallet now_iso cid' m' d' w1 w2 nowhere rest)
          ∙ no_entries h wallet now_iso,
    )
