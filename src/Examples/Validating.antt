-- ===== src/Examples/Validating.antt =====
-- Examples for the validation of manifests.
use wadm.Prelude.{
  String, ◌≡◌, ◌↔◌, refl, Bool, true, not, ◌&&◌, ◌||◌, none, some, List, [], ◌∷◌, all, any,
  is_empty, eqb, lookup, insert,
}
use wadm.Manifest.{
  Manifest, Component, component, capability, Trait, link, spread_scaler, LinkProperty,
  version_annotation_key,
}
use wadm.Manifest.Queries.{
  links, version, component_links, is_link, is_scaler, component_lookup, policy_lookup, secrets,
  collect,
}
use wadm.Manifest.Validation.{
  valid, validate_manifest_name, validate_manifest_version, is_invalid_known_interface,
}
use wadm.Manifest.Validation.Labels.{
  codes, is_ascii_alphanumeric, is_valid_label_name, valid_oam_label, split_once, split,
  is_valid_dns_subdomain,
}
use wadm.Manifest.Validation.Core.{
  core_validation, check_labels, register_all, register, register_name, register_id, add_targets,
  missing_failures,
}
use wadm.Manifest.Validation.Core.Unique.{IsCoherent, core_validation-IsCoherent_iff}
use wadm.Manifest.Validation.Checks.{
  validate_manifest, check_misnamed_interfaces, check_dangling_links, dangling, dangling_all,
  validate_policies, policy_failures, ensure_no_custom_traits, custom_failures,
  validate_component_properties, source_failures, check_duplicate_links, validate_link_configs,
  duplicates,
}
use wadm.Manifest.Validation.Dangling.{has_scale}
use wadm.Manifest.Validation.Whole.{
  IsAcceptable, validate_manifest-IsAcceptable_iff, validate_manifest-none_iff,
}
use wadm.Examples.{texts}

-- The regular expression `^[-\w]+$` on ASCII texts.
abbrev pub is_word : String → Bool
is_word s =
    not (is_empty (codes s)) && all (λ c. is_ascii_alphanumeric c || eqb c 45 || eqb c 95) (codes s)

abbrev to_store : LinkProperty
to_store = record {
  namespace = "wasi";
  package_name = "keyvalue";
  interfaces = "atomics" ∷ "store" ∷ [];
  source = none;
  target = record { name = "store"; config = []; secrets = [] };
  name = none;
}

abbrev greeter : List (Trait String) → Component String
greeter traits = record {
  name = "hello";
  properties = component (record {
    image = some "ghcr.io/hello:1";
    application = none;
    id = none;
    config = [];
    secrets = [];
  });
  traits = some traits;
}

abbrev store : Component String
store = record {
  name = "store";
  properties = capability (record {
    image = some "ghcr.io/store:1";
    application = none;
    id = some "store-id";
    config = [];
    secrets = [];
  });
  traits = none;
}

abbrev app : List (Component String) → Manifest String
app components = record {
  api_version = "core.oam.dev/v1beta1";
  kind = "Application";
  metadata = record {
    name = "hello";
    annotations = (version_annotation_key, "v1") ∷ [];
    labels = ("wasmcloud.dev/team", "core") ∷ [];
  };
  spec = record { components = components; policies = [] };
}

abbrev pub linked : Manifest String
linked =
    app (greeter (record { trait_type = "link"; properties = link to_store } ∷ []) ∷ store ∷ [])

pub linked-validated : validate_manifest texts is_word linked ≡ some []
unfolding validate_manifest check_dangling_links dangling_all links is_link dangling
    validate_manifest_name validate_manifest_version version lookup core_validation register_all
    register register_id register_name check_labels valid_oam_label missing_failures collect
    component_links component_lookup is_scaler policy_lookup secrets check_duplicate_links
    check_misnamed_interfaces custom_failures duplicates ensure_no_custom_traits policy_failures
    source_failures validate_component_properties validate_link_configs validate_policies
    add_targets is_valid_dns_subdomain is_valid_label_name split split_once
    is_invalid_known_interface insert
linked-validated = refl

validate_manifest-IsAcceptable_iff_example : (valid [] ≡ true) ↔ IsAcceptable texts is_word linked
validate_manifest-IsAcceptable_iff_example =
    validate_manifest-IsAcceptable_iff texts is_word linked [] linked-validated

-- A link whose properties are read as those of a scaler.
abbrev misread : Manifest String
misread = app (
    greeter (
      record {
        trait_type = "link";
        properties = spread_scaler (record { instances = 1; spread = [] });
      }
      ∷ [])
    ∷ [])

validate_manifest-none_iff_example :
    (validate_manifest texts is_word misread ≡ none)
    ↔ (any (λ t. has_scale t.properties) (links misread) ≡ true)
validate_manifest-none_iff_example = validate_manifest-none_iff texts is_word misread

core_validation-IsCoherent_iff_example : (valid (core_validation linked) ≡ true) ↔ IsCoherent linked
core_validation-IsCoherent_iff_example = core_validation-IsCoherent_iff linked
