-- ===== src/Manifest/Validation/Checks.antt =====
-- The other checks of crates/wadm-types/src/validation.rs, and `validate_manifest`.
pub mod Duplicates
pub mod Parts
use wadm.Prelude.{
  ℕ, String, Bool, true, false, not, ◌&&◌, Option, none, some, List, [], ◌∷◌, ◌++◌, Map, lookup,
  contains_key, filter, any, flat_map, map, is_empty, is_some, Message, literal, format, str, ◌==◌,
  if◌then◌else◌,
}
use wadm.External.{External}
use wadm.Manifest.{
  Manifest, Component, Properties, component, capability, Trait, TraitProperty, link, spread_scaler,
  custom, Policy, SecretProperty, ConfigProperty, LinkProperty,
  SharedApplicationComponentProperties, default_link_name,
}
use wadm.Manifest.Queries.{
  version, components, links, component_links, traits_of, secrets, property_secrets, is_link,
  is_scaler, component_lookup, policy_lookup,
}
use wadm.Manifest.Validation.{
  ValidationFailure, fail, warn, errors, is_invalid_known_interface, validate_manifest_name,
  validate_manifest_version,
}
use wadm.Manifest.Validation.Core.{core_validation}

abbrev pub secret_policy_type : String
secret_policy_type = "policy.secret.wasmcloud.dev/v1alpha1"

-- The loops over a `HashSet`: a key that is already in it is a failure.
unfoldable pub duplicates :
    {A : Type 0} → (A → A → Bool) → (A → Message) → List A → List A → List ValidationFailure
duplicates same message seen [] = []
duplicates same message seen (k ∷ ks) =
    let repeated = duplicates same message seen ks in
    let fresh = duplicates same message (seen ++ k ∷ []) ks in
    if any (same k) seen then fail (message k) ++ repeated else fresh

-- The name, namespace, package and interface of a link.
pub record LinkId : Type 0 where
  pub name : String
  pub namespace : String
  pub package_name : String
  pub interface : String

abbrev pub same_link : LinkId → LinkId → Bool
same_link a b =
    a.name == b.name
    && a.namespace == b.namespace
    && a.package_name == b.package_name
    && a.interface == b.interface

abbrev pub image_of : Properties → Option String
image_of (component p) = p.image
image_of (capability p) = p.image

abbrev pub application_of : Properties → Option SharedApplicationComponentProperties
application_of (component p) = p.application
application_of (capability p) = p.application

abbrev pub config_of : Properties → List ConfigProperty
config_of (component p) = p.config
config_of (capability p) = p.config

unfoldable pub policy_failures : SecretProperty → Option Policy → List ValidationFailure
policy_failures secret none = fail (
    format "secret '{}' is mapped to unknown policy '{}'"
      (str secret.name ∷ str secret.properties.policy ∷ []))
policy_failures secret (some policy) =
    if policy.policy_type == secret_policy_type
    then if contains_key "backend" policy.properties
      then []
      else fail (
          format "secret '{}' is mapped to policy '{}' which does not include a 'backend' property"
            (str secret.name ∷ str secret.properties.policy ∷ []))
    else fail (
        format
          "secret '{}' is mapped to policy '{}' which is not a secret policy. Expected type '{}'"
          (str secret.name ∷ str secret.properties.policy ∷ str secret_policy_type ∷ []))

-- The names of the configurations of a link that come with properties.
abbrev pub named_configs : List ConfigProperty → List String
named_configs cs = map (λ c. c.name) (filter (λ c. is_some c.properties) cs)

abbrev pub link_configs : {V : Type 0} → TraitProperty V → List String
link_configs (link l) =
    named_configs l.target.config ++ (elim l.source [ none ↦ [] | some s ↦ named_configs s.config ])
link_configs _ = []

abbrev pub link_ids : {V : Type 0} → TraitProperty V → List LinkId
link_ids (link l) =
    map
      (λ interface. record {
        name = elim l.name [ none ↦ default_link_name | some n ↦ n ];
        namespace = l.namespace;
        package_name = l.package_name;
        interface = interface;
      })
      l.interfaces
link_ids _ = []

abbrev pub interface_failures : {V : Type 0} → TraitProperty V → List ValidationFailure
interface_failures (link l) =
    flat_map (λ i. is_invalid_known_interface l.namespace l.package_name i) l.interfaces
interface_failures _ = []

module _ {V : Type 0} where
  unfoldable pub check_misnamed_interfaces : Manifest V → List ValidationFailure
  check_misnamed_interfaces m = flat_map (λ t. interface_failures t.properties) (links m)

  unfoldable pub validate_policies : Manifest V → List ValidationFailure
  validate_policies m =
      flat_map
        (λ c.
          flat_map (λ s. policy_failures s (lookup s.properties.policy (policy_lookup m)))
            (secrets c))
        (components m)

  -- The match on image and application.
  unfoldable pub source_failures :
      Component V
      → Option String
      → Option SharedApplicationComponentProperties
      → List ValidationFailure
  source_failures c (some _) (some _) =
      fail (literal "Component cannot have both 'image' and 'application' properties")
  source_failures c none none =
      fail (literal "Component must have either 'image' or 'application' property")
  source_failures c none (some shared) =
      if not (is_empty (config_of c.properties))
      then fail
          (format "Shared component '{}' cannot specify additional 'config'" (str shared.name ∷ []))
      else if not (is_empty (property_secrets c.properties))
      then fail (
          format "Shared component '{}' cannot specify additional 'secrets'" (str shared.name ∷ []))
      else if any is_scaler (traits_of c)
      then fail
          (format "Shared component '{}' cannot include a scaler trait" (str shared.name ∷ []))
      else []
  source_failures c (some _) none = []

  unfoldable pub validate_component_properties : Manifest V → List ValidationFailure
  validate_component_properties m =
      flat_map (λ c. source_failures c (image_of c.properties) (application_of c.properties))
        m.spec.components

  unfoldable pub validate_link_configs : Manifest V → List ValidationFailure
  validate_link_configs m =
      duplicates ◌==◌ (λ name. format "Duplicate link config name found: '{}'" (str name ∷ [])) []
        (flat_map (λ t. link_configs t.properties) (links m))

  unfoldable pub check_duplicate_links : Manifest V → List ValidationFailure
  check_duplicate_links m =
      flat_map
        (λ c.
          duplicates same_link
            (λ id. format "Duplicate link found inside component '{}': {} ({}:{}/{})" (
              str c.name
              ∷ str id.name
              ∷ str id.namespace
              ∷ str id.package_name
              ∷ str id.interface
              ∷ []))
            [] (flat_map (λ t. link_ids t.properties) (component_links c)))
        (components m)

abbrev link_identifier : LinkProperty → Message
link_identifier l = elim l.name [
  | none ↦ format "(target [{}])" (str l.target.name ∷ [])
  | some n ↦ format "(name [{}])" (str n ∷ [])
]

module _ (x : External) where
  unfoldable pub custom_failures : Trait x.Value → TraitProperty x.Value → List ValidationFailure
  custom_failures t (custom v) =
      if is_link t
      then fail (
          format "Link trait deserialized as custom trait, ensure fields are correct: {}"
            (str (x.display v) ∷ []))
      else if is_scaler t
      then fail (
          format "Scaler trait deserialized as custom trait, ensure fields are correct: {}"
            (str (x.display v) ∷ []))
      else []
  custom_failures t _ = []

  unfoldable pub ensure_no_custom_traits : Manifest x.Value → List ValidationFailure
  ensure_no_custom_traits m =
      flat_map (λ c. flat_map (λ t. custom_failures t t.properties) (traits_of c)) (components m)

  -- `none` is the panic of `unreachable!`.
  unfoldable pub dangling :
      Map (Component x.Value) → TraitProperty x.Value → Option (List ValidationFailure)
  dangling lookup_table (custom obj) = some (elim (x.get obj "target") [
    | none ↦ fail (literal "custom link is missing 'target' property")
    | some _ ↦ elim (x.as_str (x.index (x.index obj "target") "name")) [
      | none ↦ fail (literal "custom link is missing 'target' name property")
      | some target ↦
          if contains_key target lookup_table
          then []
          else warn (format "custom link target [{}] is not a listed component" (str target ∷ []))
    ]
  ])
  dangling lookup_table (link l) = some (
      if contains_key l.target.name lookup_table
      then []
      else warn (
          literal "link "
          ++ link_identifier l
          ++ format " target [{}] is not a listed component" (str l.target.name ∷ [])))
  dangling lookup_table (spread_scaler _) = none

  unfoldable pub dangling_all :
      Map (Component x.Value) → List (Trait x.Value) → Option (List ValidationFailure)
  dangling_all lookup_table [] = some []
  dangling_all lookup_table (t ∷ ts) =
      let rest = dangling_all lookup_table ts in
      elim (dangling lookup_table t.properties) [
        | none ↦ none
        | some fs ↦ elim rest [ none ↦ none | some gs ↦ some (fs ++ gs) ]
      ]

  unfoldable pub check_dangling_links : Manifest x.Value → Option (List ValidationFailure)
  check_dangling_links m = dangling_all (component_lookup m) (links m)

  unfoldable pub validate_manifest :
      (String → Bool) → Manifest x.Value → Option (List ValidationFailure)
  validate_manifest is_match m = elim (check_dangling_links m) [
    | none ↦ none
    | some dangling_links ↦ some (
        errors (validate_manifest_name is_match m.metadata.name)
        ++ errors (validate_manifest_version (version m))
        ++ core_validation m
        ++ check_misnamed_interfaces m
        ++ dangling_links
        ++ validate_policies m
        ++ ensure_no_custom_traits m
        ++ validate_component_properties m
        ++ check_duplicate_links m
        ++ validate_link_configs m)
  ]
