-- ===== src/Storage/Sets.antt =====
-- Rust's HashSet as a list, for elements with an equality of their own, and maps from iterators.
use wadm.Prelude.{
  Option, none, some, Bool, not, List, [], ◌∷◌, Map, insert, any, filter, if◌then◌else◌, ◌==◌,
}
use wadm.Event.{ProviderInfo}
use wadm.Event.Matching.{map_eq}
use wadm.Storage.{WadmComponentInfo}

-- The impls of `PartialEq`: by the annotations, and by the identifier.
abbrev pub same_info : WadmComponentInfo → WadmComponentInfo → Bool
same_info a b = map_eq a.annotations b.annotations

abbrev pub same_provider : ProviderInfo → ProviderInfo → Bool
same_provider a b = a.provider_id == b.provider_id

module _ {A : Type 0} (same : A → A → Bool) where
  -- `HashSet::insert` keeps an equal element.
  unfoldable pub set_insert : A → List A → List A
  set_insert a s = if any (same a) s then s else a ∷ s

  -- `HashSet::get`
  abbrev pub set_get : A → List A → Option A
  set_get a [] = none
  set_get a (b ∷ s) = let rest = set_get a s in if same a b then some b else rest

  -- `HashSet::remove`, given the test for the element.
  unfoldable pub set_remove : A → List A → List A
  set_remove a s = filter (λ b. not (same a b)) s

  -- `HashSet::replace`
  unfoldable pub set_replace : A → List A → List A
  unfolding set_remove
  set_replace a s = a ∷ set_remove a s

  unfoldable pub set_from_iter : List A → List A → List A
  set_from_iter acc [] = acc
  set_from_iter acc (a ∷ rest) = set_from_iter (set_insert a acc) rest

-- `HashMap::from_iter`
unfoldable pub map_from_iter : {A : Type 0} → Map A → Map A → Map A
map_from_iter acc [] = acc
map_from_iter acc ((k, a) ∷ rest) = map_from_iter (insert k a acc) rest
