-- ===== src/Manifest/Queries.antt =====
-- The accessors of a manifest: the methods of `Manifest`, `Component` and `Trait` in
-- crates/wadm-types/src/lib.rs.
use wadm.Prelude.{
  String, Bool, true, false, not, any, ◌&&◌, ◌||◌, Option, none, some, List, [], ◌∷◌, ◌++◌, Map,
  lookup, insert, ◌==◌, filter, flat_map,
}
use wadm.Manifest.{
  Manifest, Component, Trait, link, SecretProperty, Properties, component, capability, Policy,
  version_annotation_key, description_annotation_key, shared_annotation_key, link_trait,
  SharedApplicationComponentProperties, spreadscaler_trait, daemonscaler_trait,
}

-- Collecting into a map: a later component of the same name replaces an earlier one.
unfoldable pub collect : {A : Type 0} → (A → String) → Map A → List A → Map A
collect name acc [] = acc
collect name acc (a ∷ rest) = collect name (insert (name a) a acc) rest

abbrev pub property_secrets : Properties → List SecretProperty
property_secrets (component p) = p.secrets
property_secrets (capability p) = p.secrets

-- `std::mem::discriminant` of the properties
abbrev pub same_kind : Properties → Properties → Bool
same_kind (component _) (component _) = true
same_kind (capability _) (capability _) = true
same_kind _ _ = false

-- The component of a shared application that stands for a component without an image.
abbrev pub shared_application : Properties → Option SharedApplicationComponentProperties
shared_application (component p) = elim p.image [ none ↦ p.application | some _ ↦ none ]
shared_application (capability p) = elim p.image [ none ↦ p.application | some _ ↦ none ]

module _ {V : Type 0} where
  -- `unwrap_or_default` of the annotation: the empty text where it is missing
  unfoldable pub version : Manifest V → String
  version m = elim (lookup version_annotation_key m.metadata.annotations) [ none ↦ "" | some v ↦ v ]

  unfoldable pub description : Manifest V → Option String
  description m = lookup description_annotation_key m.metadata.annotations

  -- `parse::<bool>` accepts `true` and `false` only.
  unfoldable pub shared : Manifest V → Bool
  shared m = elim (lookup shared_annotation_key m.metadata.annotations) [
    | none ↦ false
    | some v ↦ v == "true"
  ]

  abbrev pub components : Manifest V → List (Component V)
  components m = m.spec.components

  unfoldable pub is_link : Trait V → Bool
  is_link t = t.trait_type == link_trait

  unfoldable pub is_scaler : Trait V → Bool
  is_scaler t = t.trait_type == spreadscaler_trait || t.trait_type == daemonscaler_trait

  abbrev pub traits_of : Component V → List (Trait V)
  traits_of c = elim c.traits [ none ↦ [] | some ts ↦ ts ]

  -- `Component::links` and `Manifest::links`
  unfoldable pub component_links : Component V → List (Trait V)
  component_links c = filter is_link (traits_of c)

  unfoldable pub links : Manifest V → List (Trait V)
  links m = filter is_link (flat_map traits_of (components m))

  unfoldable pub component_lookup : Manifest V → Map (Component V)
  unfolding collect
  component_lookup m = collect (λ c. c.name) [] (components m)

  unfoldable pub policy_lookup : Manifest V → Map Policy
  unfolding collect
  policy_lookup m = collect (λ p. p.name) [] m.spec.policies

  abbrev pub link_secrets : Trait V → List SecretProperty
  link_secrets t = elim t.properties [
    | link l ↦ l.target.secrets ++ (elim l.source [ none ↦ [] | some s ↦ s.secrets ])
    | _ ↦ []
  ]

  unfoldable pub secrets : Component V → List SecretProperty
  secrets c = flat_map link_secrets (traits_of c) ++ property_secrets c.properties

  unfoldable pub provides : SharedApplicationComponentProperties → Properties → Manifest V → Bool
  provides a p m =
      shared m
      && m.metadata.name == a.name
      && any (λ c. c.name == a.component && same_kind c.properties p) (components m)

  unfoldable pub is_missing : List (Manifest V) → Component V → Bool
  is_missing deployed_apps c = elim (shared_application c.properties) [
    | none ↦ false
    | some a ↦ not (any (provides a c.properties) deployed_apps)
  ]

  unfoldable pub missing_shared_components : List (Manifest V) → Manifest V → List (Component V)
  missing_shared_components deployed_apps m = filter (is_missing deployed_apps) (components m)
