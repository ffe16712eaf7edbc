-- ===== src/Registry/Head/Newest.antt =====
-- The head against the order of the entries.
use sovereign_jedi.Prelude.{
  ◌≡◌, ◌<◌, ◌⊎◌, refl, sym, ◌∙◌, Bool, true, false, Option, some, Text, List, [], ◌∷◌, All, arith,
  Bool-cases, inl, inr, subst, IsIn,
}
use sovereign_jedi.Registry.Head.{RegistryEntry, comes_after, insert, sort, first, select_head}

-- `localeCompare` orders the CIDs.
pub record IsOrder (at_most : Text → Text → Bool) : Type 0 where
  pub total : (a b : Text) → at_most a b ≡ false → at_most b a ≡ true
  pub transitive : (a b c : Text) → at_most a b ≡ true → at_most b c ≡ true → at_most a c ≡ true
  pub antisymmetric : (a b : Text) → at_most a b ≡ true → at_most b a ≡ true → a ≡ b

some_injective : {a b : RegistryEntry} → ◌≡◌ {A = Option RegistryEntry} (some a) (some b) → a ≡ b
some_injective h = cc

module _ (at_most : Text → Text → Bool) (o : IsOrder at_most) where
  -- `h` was published later than `e`, or at the same time under a CID that is not smaller
  abbrev pub Precedes : RegistryEntry → RegistryEntry → Type 0
  Precedes h e =
      (e.published_at < h.published_at)
      ⊎ ((h.published_at ≡ e.published_at) × (at_most e.manifest_cid h.manifest_cid ≡ true))

  abbrev pub Newest : RegistryEntry → List RegistryEntry → Type 0
  Newest h es = All (λ e. Precedes h e) es

  -- no entry of the list ought to stand before `h`, by the comparator
  abbrev Foremost : RegistryEntry → List RegistryEntry → Type 0
  Foremost h es = All (λ e. comes_after at_most h e ≡ false) es

  comes_after_trans :
      (x y e : RegistryEntry)
      → comes_after at_most x y ≡ false
      → comes_after at_most y e ≡ false
      → comes_after at_most x e ≡ false
  unfolding comes_after
  comes_after_trans x y e h h' =
      ground (arith, o.transitive e.manifest_cid y.manifest_cid x.manifest_cid)

  comes_after_total :
      (x y : RegistryEntry) → comes_after at_most x y ≡ true → comes_after at_most y x ≡ false
  unfolding comes_after
  comes_after_total x y h = ground (arith, o.total y.manifest_cid x.manifest_cid)

  comes_after_refl : (x : RegistryEntry) → comes_after at_most x x ≡ false
  unfolding comes_after
  comes_after_refl x = elim (Bool-cases (at_most x.manifest_cid x.manifest_cid)) [
    | inl yes_it_is ↦ ground (arith, yes_it_is)
    | inr not_so ↦ ground (arith, not_so, o.total x.manifest_cid x.manifest_cid)
  ]

  All-trans :
      (x y : RegistryEntry) (es : List RegistryEntry)
      → comes_after at_most x y ≡ false
      → Foremost y es
      → Foremost x es
  All-trans x y [] h newest = tt
  All-trans x y (e ∷ es) h newest =
      (comes_after_trans x y e h newest.0, All-trans x y es h newest.1)

  All-at :
      (x e : RegistryEntry) (es : List RegistryEntry)
      → Foremost x es
      → IsIn e es
      → comes_after at_most x e ≡ false
  All-at x e [] newest m = absurd m
  All-at x e (y ∷ es) newest (inl same) =
      subst (λ z. comes_after at_most x z ≡ false) (sym same) newest.0
  All-at x e (y ∷ es) newest (inr m) = All-at x e es newest.1 m

  -- the first of the sorted entries is one of them and the newest
  abbrev Heads : List RegistryEntry → List RegistryEntry → Type 0
  Heads [] es = es ≡ []
  Heads (y ∷ ys) es = Foremost y es × IsIn y es

  insert-Heads :
      (x : RegistryEntry) (ys xs : List RegistryEntry)
      → Heads ys xs
      → Heads (insert at_most x ys) (x ∷ xs)
  unfolding insert
  insert-Heads x [] xs none_left = rw none_left ((comes_after_refl x, tt), inl refl)
  insert-Heads x (y ∷ ys) xs (newest, m) = elim (Bool-cases (comes_after at_most x y)) [
    | inl after ↦ rw after ((comes_after_total x y after, newest), inr m)
    | inr before ↦ rw before ((comes_after_refl x, All-trans x y xs before newest), inl refl)
  ]

  sort-Heads : (es : List RegistryEntry) → Heads (sort at_most es) es
  unfolding sort
  sort-Heads [] = refl
  sort-Heads (x ∷ xs) = insert-Heads x (sort at_most xs) xs (sort-Heads xs)

  first-Heads :
      (x : RegistryEntry) (xs ys : List RegistryEntry)
      → Heads ys (x ∷ xs)
      → (h : RegistryEntry) × (first at_most ys ≡ some h) × Foremost h (x ∷ xs) × IsIn h (x ∷ xs)
  first-Heads x xs [] clash = absurd (cc)
  first-Heads x xs (y ∷ ys) (newest, m) = (y, refl, newest, m)

  select_head-Foremost :
      (x : RegistryEntry) (xs : List RegistryEntry)
      → (h : RegistryEntry) × (select_head at_most (x ∷ xs) ≡ some h)
        × Foremost h (x ∷ xs)
        × IsIn h (x ∷ xs)
  unfolding select_head
  select_head-Foremost x xs = first-Heads x xs (sort at_most (x ∷ xs)) (sort-Heads (x ∷ xs))

  found :
      (es : List RegistryEntry) (h : RegistryEntry)
      → select_head at_most es ≡ some h
      → Foremost h es × IsIn h es
  unfolding select_head
  found [] h q = absurd (cc)
  found (x ∷ xs) h q =
      let (h', q', newest, m) = select_head-Foremost x xs in
      let same : h' ≡ h = some_injective (sym q' ∙ q) in
      subst (λ (k : RegistryEntry). Foremost k (x ∷ xs) × IsIn k (x ∷ xs)) same (newest, m)

  -- Two lists of the same entries, in whatever order, have heads with the same CID and publication
  -- time, where localeCompare orders the CIDs.
  pub select_head-order :
      (es es' : List RegistryEntry) (h h' : RegistryEntry)
      → ((e : RegistryEntry) → IsIn e es → IsIn e es')
      → ((e : RegistryEntry) → IsIn e es' → IsIn e es)
      → select_head at_most es ≡ some h
      → select_head at_most es' ≡ some h'
      → (h.manifest_cid ≡ h'.manifest_cid) × (h.published_at ≡ h'.published_at)
  unfolding comes_after
  select_head-order es es' h h' into back q q' =
      let (newest, m) = found es h q in
      let (newest', m') = found es' h' q' in
      let one = All-at h h' es newest (back h' m') in
      let two = All-at h' h es' newest' (into h m) in
      (
        ground (arith, one, two, o.antisymmetric h.manifest_cid h'.manifest_cid),
        ground (arith, one, two),
      )
