-- ===== src/External.antt =====
-- What the program takes from libraries that are not part of the repository: the values of
-- serde_json and the descriptions of wasmcloud_control_interface, as types with their accessors.
use wadm.Prelude.{ℕ, String, Bool, Option, Map, Result}

pub record External : Type 1 where
  -- serde_json::Value: `get`, `as_str`, indexing, which yields null for what is
  -- missing, and printing
  pub Value : Type 0
  pub get : Value → String → Option Value
  pub as_str : Value → Option String
  pub index : Value → String → Value
  pub display : Value → String
  -- wasmcloud_control_interface::ComponentDescription
  pub ComponentDescription : Type 0
  pub component_id : ComponentDescription → String
  pub component_image_ref : ComponentDescription → String
  pub component_name : ComponentDescription → Option String
  pub component_max_instances : ComponentDescription → ℕ
  pub component_annotations : ComponentDescription → Option (Map String)
  -- wasmcloud_control_interface::ProviderDescription
  pub ProviderDescription : Type 0
  pub provider_id : ProviderDescription → String
  pub provider_image_ref : ProviderDescription → Option String
  pub provider_name : ProviderDescription → Option String
  pub provider_annotations : ProviderDescription → Option (Map String)
  -- wasmcloud_control_interface::Link, and semver::Version, which is only stored
  pub Link : Type 0
  pub link_source_id : Link → String
  pub link_target : Link → String
  pub link_name : Link → String
  pub Version : Type 0
  -- wasmcloud_secrets_types::SecretConfig: its name, its equality, and its form as a configuration
  pub SecretConfig : Type 0
  pub secret_config_name : SecretConfig → String
  pub same_secret : SecretConfig → SecretConfig → Bool
  pub secret_map : SecretConfig → Result (Map String)
