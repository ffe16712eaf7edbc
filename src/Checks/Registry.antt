-- ===== src/Checks/Registry.antt =====
-- The head of the registry on samples.
use sovereign_jedi.Registry.Head.{comes_after, insert, sort, select_head, RegistryEntry}
use sovereign_jedi.Prelude.{
  ◌≡◌, refl, Bool, true, false, some, Text, text, [], ◌∷◌, ltb, ◌==◌, if◌then◌else◌,
}
use sovereign_jedi.Registry.Head.Newest.{Newest}

-- CIDs ordered by their code units
unfoldable at_most : Text → Text → Bool
at_most [] t = true
at_most (a ∷ s) [] = false
at_most (a ∷ s) (b ∷ t) = if a == b then at_most s t else ltb a b

abbrev old_entry : RegistryEntry
old_entry = record { manifest_cid = text "b"; published_at = 1 }

abbrev new_entry : RegistryEntry
new_entry = record { manifest_cid = text "a"; published_at = 2 }

one_way : select_head at_most (old_entry ∷ (new_entry ∷ [])) ≡ some new_entry
unfolding comes_after insert sort select_head at_most
one_way = refl

other_way : select_head at_most (new_entry ∷ (old_entry ∷ [])) ≡ some new_entry
unfolding comes_after insert sort select_head at_most
other_way = refl
