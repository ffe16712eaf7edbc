-- ===== src/Store/Instances.antt =====
-- The instances that `initStorage` keeps.
use sovereign_jedi.Prelude.{
  ℕ, suc, ◌<◌, ◌≤◌, ◌≡◌, refl, sym, ap, ◌∙◌, ◌⊎◌, subst, true, false, Option, some, List, [], ◌∷◌,
  Text, text_eq, text_eq_refl, text_eq→eq, or_default, ◌==◌, if◌then◌else◌, ok, arith, Bool-cases,
  Option-cases, inl, inr, All,
}
use sovereign_jedi.Store.{
  Storage, StorageHost, default_name, find_instance, reusable, close_others, keep_name,
  set_instance, create_instance, init_storage,
}

-- Every instance that the module keeps is the last one and has the name it is kept under; the last
-- one is open; no instance is closed before it is made.
pub record IsCurrent (s : Storage) : Type 0 where
  pub known :
      (name : Text) (i : ℕ)
      → find_instance name s.instances ≡ some i
      → (s.last ≡ some i) × (s.name_of i ≡ name)
  pub open_last : (i : ℕ) → s.last ≡ some i → s.closed i ≡ false
  pub unmade : (i : ℕ) → s.made ≤ i → s.closed i ≡ false
  pub below : All (λ (p : Text × ℕ). p.1 < s.made) s.instances

find-set :
    (name other : Text) (i : ℕ) (l : List (Text × ℕ))
    → find_instance other (set_instance name i l)
      ≡ (if text_eq name other then some i else find_instance other l)
unfolding find_instance set_instance
find-set name other i [] = refl
find-set name other i ((k, j) ∷ rest) = elim (Bool-cases (text_eq k name)) [
  | inl same ↦ ground (arith, same, text_eq→eq k name same)
  | inr differs ↦ elim (Bool-cases (text_eq k other)) [
    | inl here ↦ elim (Bool-cases (text_eq name other)) [
      | inl both ↦ absurd (
          ground (
            arith,
            differs,
            text_eq→eq k other here,
            text_eq→eq name other both,
            text_eq_refl other,
          ))
      | inr neither ↦ ground (arith, differs, here, neither)
    ]
    | inr there ↦ ground (arith, differs, there, find-set name other i rest)
  ]
]

find-keep :
    (name other : Text) (i : ℕ) (l : List (Text × ℕ))
    → find_instance other (keep_name name l) ≡ some i
    → name ≡ other
unfolding find_instance keep_name
find-keep name other i [] h = absurd (ground arith)
find-keep name other i ((k, j) ∷ rest) h = elim (Bool-cases (text_eq k name)) [
  | inr gone ↦ find-keep name other i rest (ground (arith, gone))
  | inl kept ↦ elim (Bool-cases (text_eq k other)) [
    | inl here ↦ sym (text_eq→eq k name kept) ∙ text_eq→eq k other here
    | inr there ↦ find-keep name other i rest (ground (arith, kept, there))
  ]
]

close_others-closed :
    (name : Text) (n j : ℕ) (l : List (Text × ℕ)) (s : Storage)
    → All (λ (p : Text × ℕ). p.1 < n) l
    → n ≤ j
    → (close_others name l s).closed j ≡ s.closed j
unfolding close_others
close_others-closed name n j [] s small above = refl
close_others-closed name n j ((k, i) ∷ rest) s small above = elim (Bool-cases (text_eq k name)) [
  | inl same ↦ rw same (close_others-closed name n j rest s small.1 above)
  | inr other ↦ rw other (
      close_others-closed name n j rest
        (record s { closed = λ m. if m == i then true else s.closed m }) small.1 above
      ∙ ground (arith, small.0, above))
]

keep_name-All :
    (name : Text) (n : ℕ) (l : List (Text × ℕ))
    → All (λ (p : Text × ℕ). p.1 < n) l
    → All (λ (p : Text × ℕ). p.1 < suc n) (keep_name name l)
unfolding keep_name
keep_name-All name n [] small = tt
keep_name-All name n ((k, i) ∷ rest) small = elim (Bool-cases (text_eq k name)) [
  | inl same ↦ rw same (omega (arith, small.0), keep_name-All name n rest small.1)
  | inr other ↦ rw other (keep_name-All name n rest small.1)
]

set_instance-All :
    (name : Text) (n i : ℕ) (l : List (Text × ℕ))
    → i < n
    → All (λ (p : Text × ℕ). p.1 < n) l
    → All (λ (p : Text × ℕ). p.1 < n) (set_instance name i l)
unfolding set_instance
set_instance-All name n i [] small rest = (small, tt)
set_instance-All name n i ((k, j) ∷ l) small rest = elim (Bool-cases (text_eq k name)) [
  | inl same ↦ rw same (small, rest.1)
  | inr other ↦ rw other (rest.0, set_instance-All name n i l small rest.1)
]

-- the only instance kept after a creation
find-created :
    (name other : Text) (made i : ℕ) (l : List (Text × ℕ))
    → find_instance other (set_instance name made (keep_name name l)) ≡ some i
    → (i ≡ made) × (name ≡ other)
find-created name other made i l h = elim (Bool-cases (text_eq name other)) [
  | inl same ↦ (
    ground (arith, find-set name other made (keep_name name l), same),
    text_eq→eq name other same,
  )
  | inr differs ↦
      let kept : find_instance other (keep_name name l) ≡ some i =
        ground (arith, find-set name other made (keep_name name l), differs) in
      let same = find-keep name other i l kept in
      absurd (ground (arith, differs, same, text_eq_refl other))
]

create_instance-IsCurrent :
    (name : Text) (s : Storage)
    → IsCurrent s
    → IsCurrent (create_instance name s).1
      × ((create_instance name s).1.last ≡ some (create_instance name s).0)
      × ((create_instance name s).1.name_of (create_instance name s).0 ≡ name)
unfolding create_instance
create_instance-IsCurrent name s c = (
  record {
    known = λ other i h.
        let (same, named) = find-created name other s.made i s.instances h in
        (ap some (sym same), ground (arith, same, named));
    open_last = λ i h.
        close_others-closed name s.made i s.instances s c.below (ground arith)
        ∙ c.unmade i (ground arith);
    unmade = λ i h.
        close_others-closed name s.made i s.instances s c.below (omega (arith, h))
        ∙ c.unmade i (omega (arith, h));
    below =
        set_instance-All name (suc s.made) s.made (keep_name name s.instances) (omega arith)
          (keep_name-All name s.made s.instances c.below);
  },
  refl,
  ground arith,
)

init_storage-cases :
    (h : StorageHost) (db_name : Option Text) (i : ℕ) (s s' : Storage)
    → init_storage h db_name s ≡ (ok i, s')
    → ((create_instance (or_default db_name default_name) s) ≡ (i, s'))
      ⊎ ((find_instance (or_default db_name default_name) s.instances ≡ some i) × (s ≡ s'))
unfolding init_storage
init_storage-cases h db_name i s s' made =
    let name = or_default db_name default_name in
    elim (Option-cases (find_instance name s.instances)) [
      | inl missing ↦ inl (ground (arith, missing))
      | inr (j, found) ↦ elim (Bool-cases (reusable (h.is_open j))) [
        | inl again ↦ inr (ground (arith, found, again), ground (arith, found, again))
        | inr anew ↦ inl (ground (arith, found, anew))
      ]
    ]

-- the invariant, with instance i in use for the name
abbrev pub Ready : Text → ℕ × Storage → Type 0
Ready name (i, s) = IsCurrent s × (s.last ≡ some i) × (s.name_of i ≡ name) × (s.closed i ≡ false)

create_instance-Ready :
    (name : Text) (s : Storage) → IsCurrent s → Ready name (create_instance name s)
unfolding create_instance
create_instance-Ready name s c =
    let (current, last, named) = create_instance-IsCurrent name s c in
    (current, last, named, current.open_last s.made last)

-- `initStorage` keeps the invariant, and leaves the instance it returns as the last one, open and of
-- the name asked for.
pub init_storage-Ready :
    (h : StorageHost) (db_name : Option Text) (i : ℕ) (s s' : Storage)
    → IsCurrent s
    → init_storage h db_name s ≡ (ok i, s')
    → Ready (or_default db_name default_name) (i, s')
init_storage-Ready h db_name i s s' c made =
    let name = or_default db_name default_name in
    elim (init_storage-cases h db_name i s s' made) [
      | inl created ↦ subst (Ready name) created (create_instance-Ready name s c)
      | inr (found, same) ↦
          let (last, named) = c.known name i found in
          subst (λ t. Ready name (i, t)) same (c, last, named, c.open_last i last)
    ]
