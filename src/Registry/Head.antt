-- ===== src/Registry/Head.antt =====
-- apps/web/src/lib/solana/RegistryService.ts: `selectHead`.
pub mod Newest
use sovereign_jedi.Prelude.{
  ℕ, Bool, true, false, Option, none, some, is_some, Text, List, [], ◌∷◌, ◌++◌, ltb, ◌==◌, not,
  if◌then◌else◌, Outcome, ok, err, ◌>>=◌,
}

-- what the head selection reads of a `RegistryEntry`
pub record RegistryEntry : Type 0 where
  pub manifest_cid : Text
  pub published_at : ℕ

-- `at_most a b` is `a.localeCompare(b) <= 0`, which is the host's.
module _ (at_most : Text → Text → Bool) where
  -- whether the comparator of (a, b) is positive: a comes after b
  unfoldable pub comes_after : RegistryEntry → RegistryEntry → Bool
  comes_after a b =
      if a.published_at == b.published_at
      then not (at_most b.manifest_cid a.manifest_cid)
      else ltb a.published_at b.published_at

  -- `sort` is stable: an entry stays before those it does not come after.
  unfoldable pub insert : RegistryEntry → List RegistryEntry → List RegistryEntry
  unfolding comes_after
  insert x [] = x ∷ []
  insert x (y ∷ ys) = let rest = insert x ys in if comes_after x y then y ∷ rest else x ∷ (y ∷ ys)

  unfoldable pub sort : List RegistryEntry → List RegistryEntry
  unfolding insert
  sort [] = []
  sort (x ∷ xs) = insert x (sort xs)

  abbrev first : List RegistryEntry → Option RegistryEntry
  first [] = none
  first (x ∷ xs) = some x

  unfoldable pub select_head : List RegistryEntry → Option RegistryEntry
  unfolding sort
  select_head [] = none
  select_head (x ∷ xs) = first (sort (x ∷ xs))
