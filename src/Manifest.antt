-- ===== src/Manifest.antt =====
-- The application manifest: crates/wadm-types/src/lib.rs. `V` is `serde_json::Value`, the type of
-- what a custom trait holds, which the program takes from a library.
pub mod Queries
pub mod Validation
use wadm.Prelude.{ℕ, String, Option, none, List, [], Map}

-- lib.rs, the constants.
abbrev pub default_spread_weight : ℕ
default_spread_weight = 100

abbrev pub version_annotation_key : String
version_annotation_key = "version"

abbrev pub description_annotation_key : String
description_annotation_key = "description"

abbrev pub shared_annotation_key : String
shared_annotation_key = "experimental.wasmcloud.dev/shared"

abbrev pub spreadscaler_trait : String
spreadscaler_trait = "spreadscaler"

abbrev pub daemonscaler_trait : String
daemonscaler_trait = "daemonscaler"

abbrev pub link_trait : String
link_trait = "link"

abbrev pub latest_version : String
latest_version = "latest"

abbrev pub default_link_name : String
default_link_name = "default"

pub record Spread : Type 0 where
  pub name : String
  pub requirements : Map String
  pub weight : Option ℕ

-- `Spread::default`
abbrev pub default_spread : Spread
default_spread = record { name = "default"; requirements = []; weight = none }

pub record SpreadScalerProperty : Type 0 where
  pub instances : ℕ
  pub spread : List Spread

pub record ConfigProperty : Type 0 where
  pub name : String
  pub properties : Option (Map String)

pub record SecretSourceProperty : Type 0 where
  pub policy : String
  pub key : String
  pub field : Option String
  pub version : Option String

pub record SecretProperty : Type 0 where
  pub name : String
  pub properties : SecretSourceProperty

pub record ConfigDefinition : Type 0 where
  pub config : List ConfigProperty
  pub secrets : List SecretProperty

pub record TargetConfig : Type 0 where
  pub name : String
  pub config : List ConfigProperty
  pub secrets : List SecretProperty

-- The deprecated fields `source_config` and `target_config` are never read after parsing.
pub record LinkProperty : Type 0 where
  pub namespace : String
  pub package_name : String
  pub interfaces : List String
  pub source : Option ConfigDefinition
  pub target : TargetConfig
  pub name : Option String

pub data TraitProperty (V : Type 0) : Type 0 where
  link : LinkProperty → TraitProperty V
  spread_scaler : SpreadScalerProperty → TraitProperty V
  custom : V → TraitProperty V

pub record Trait (V : Type 0) : Type 0 where
  pub trait_type : String
  pub properties : TraitProperty V

pub record SharedApplicationComponentProperties : Type 0 where
  pub name : String
  pub component : String

pub record ComponentProperties : Type 0 where
  pub image : Option String
  pub application : Option SharedApplicationComponentProperties
  pub id : Option String
  pub config : List ConfigProperty
  pub secrets : List SecretProperty

pub record CapabilityProperties : Type 0 where
  pub image : Option String
  pub application : Option SharedApplicationComponentProperties
  pub id : Option String
  pub config : List ConfigProperty
  pub secrets : List SecretProperty

pub data Properties : Type 0 where
  component : ComponentProperties → Properties
  capability : CapabilityProperties → Properties

pub record Component (V : Type 0) : Type 0 where
  pub name : String
  pub properties : Properties
  pub traits : Option (List (Trait V))

pub record Policy : Type 0 where
  pub name : String
  pub properties : Map String
  pub policy_type : String

pub record Metadata : Type 0 where
  pub name : String
  pub annotations : Map String
  pub labels : Map String

pub record Specification (V : Type 0) : Type 0 where
  pub components : List (Component V)
  pub policies : List Policy

pub record Manifest (V : Type 0) : Type 0 where
  pub api_version : String
  pub kind : String
  pub metadata : Metadata
  pub spec : Specification V
