-- ===== src/Manifest/Validation/Dangling.antt =====
-- The check for dangling links.
use wadm.Prelude.{
  ◌≡◌, ◌↔◌, refl, ◌∙◌, arith, Bool, true, false, Option, none, some, List, [], ◌∷◌, ◌++◌, Map,
  contains_key, any, filter, All, All-append, Message, flat_map, Bool-cases, inl, inr,
  if◌then◌else◌,
}
use wadm.External.{External}
use wadm.Manifest.{Manifest, Component, Trait, TraitProperty, link, spread_scaler, custom}
use wadm.Manifest.Queries.{components, links, traits_of, is_link, component_lookup}
use wadm.Manifest.Validation.{ValidationFailure, valid, warn}
use wadm.Manifest.Validation.Core.Fresh.{valid-append}
use wadm.Manifest.Validation.Checks.{check_dangling_links, dangling, dangling_all}
use wadm.Manifest.Validation.Checks.Parts.{valid-nil, valid-warn, IsTyped}

-- Failures without an error, where there are any.
abbrev pub OkValid : Option (List ValidationFailure) → Type 0
OkValid none = Unit
OkValid (some fs) = valid fs ≡ true

valid_unless : (b : Bool) (m : Message) → valid (if b then [] else warn m) ≡ true
valid_unless true m = valid-nil
valid_unless false m = valid-warn m

joined_OkValid :
    (a b : Option (List ValidationFailure))
    → OkValid a
    → OkValid b
    → OkValid
        (elim a [ none ↦ none | some fs ↦ elim b [ none ↦ none | some gs ↦ some (fs ++ gs) ] ])
joined_OkValid none b h k = tt
joined_OkValid (some fs) none h k = tt
joined_OkValid (some fs) (some gs) h k = valid-append fs gs ∙ ground (arith, h, k)

All-flat_map :
    {A B : Type 0} (P : B → Type 0) (f : A → List B) (xs : List A)
    → All (λ a. All P (f a)) xs
    → All P (flat_map f xs)
All-flat_map P f [] h = tt
All-flat_map P f (a ∷ xs) (h, hs) = All-append P (f a) (flat_map f xs) h (All-flat_map P f xs hs)

-- The properties are those of a scaler.
abbrev pub has_scale : {V : Type 0} → TraitProperty V → Bool
has_scale (spread_scaler _) = true
has_scale _ = false

module _ (x : External) where
  -- A link that is no custom trait gives no error.
  dangling-OkValid :
      (table : Map (Component x.Value)) (t : Trait x.Value) (q : TraitProperty x.Value)
      → is_link t ≡ true
      → IsTyped t q
      → OkValid (dangling x table q)
  unfolding dangling
  dangling-OkValid table t (link l) is typed = valid_unless (contains_key l.target.name table) _
  dangling-OkValid table t (custom v) is (typed, _) = cc
  dangling-OkValid table t (spread_scaler p) is typed = tt

  dangling_all-OkValid :
      (table : Map (Component x.Value)) (ts : List (Trait x.Value))
      → All (λ t. IsTyped t t.properties) ts
      → OkValid (dangling_all x table (filter is_link ts))
  unfolding dangling_all
  dangling_all-OkValid table [] h = valid-nil
  dangling_all-OkValid table (t ∷ ts) (h, hs) = elim (Bool-cases (is_link t)) [
    | inl e ↦ rw e (
        joined_OkValid (dangling x table t.properties) (dangling_all x table (filter is_link ts))
          (dangling-OkValid table t t.properties e h) (dangling_all-OkValid table ts hs))
    | inr e ↦ rw e (dangling_all-OkValid table ts hs)
  ]

  pub check_dangling_links-OkValid :
      (m : Manifest x.Value)
      → All (λ c. All (λ t. IsTyped t t.properties) (traits_of c)) (components m)
      → OkValid (check_dangling_links x m)
  unfolding check_dangling_links links
  check_dangling_links-OkValid m h =
      dangling_all-OkValid (component_lookup m) (flat_map traits_of (components m))
        (All-flat_map _ traits_of (components m) h)

  dangling-none_iff :
      (table : Map (Component x.Value)) (q : TraitProperty x.Value)
      → (dangling x table q ≡ none) ↔ (has_scale q ≡ true)
  unfolding dangling
  dangling-none_iff table (link l) = (λ e. cc, λ e. cc)
  dangling-none_iff table (custom v) = (λ e. cc, λ e. cc)
  dangling-none_iff table (spread_scaler p) = (λ _. refl, λ _. refl)

  pub dangling_all-none_iff :
      (table : Map (Component x.Value)) (ts : List (Trait x.Value))
      → (dangling_all x table ts ≡ none) ↔ (any (λ t. has_scale t.properties) ts ≡ true)
  unfolding dangling_all
  dangling_all-none_iff table [] = (λ e. cc, λ e. cc)
  dangling_all-none_iff table (t ∷ ts) =
      ground (arith, dangling-none_iff table t.properties, dangling_all-none_iff table ts)
