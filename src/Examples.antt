-- ===== src/Examples.antt =====
-- Concrete data of the examples: a lattice of three hosts and an application spread over them.
pub mod Spreading
pub mod Reconciling
pub mod Histories
pub mod Serving
pub mod Publishing
pub mod Deploying
pub mod Validating
pub mod Waiting
pub mod Memory
pub mod Working
pub mod Managing
pub mod Contending
pub mod Covering
pub mod Reaping
pub mod Providing
use wadm.Prelude.{ℕ, String, Option, none, some, List, [], ◌∷◌, Map, Result, ok, ◌==◌}
use wadm.External.{External}
use wadm.Manifest.{Spread, SpreadScalerProperty, Manifest}
use wadm.Storage.{Component, Host, WadmComponentInfo, ReadStore}
use wadm.Command.{scaler_key}
use wadm.Scaler.Spread.Weights.{compute_spread}
use wadm.Scaler.Spread.Hosts.{spreadscaler_annotations}
use wadm.Scaler.Spread.Reconcile.{ComponentSpreadScaler}

-- The libraries' types, each as a text.
abbrev pub texts : External
texts = record {
  Value = String;
  get = λ _ _. none;
  as_str = λ v. some v;
  index = λ v _. v;
  display = λ v. v;
  ComponentDescription = String;
  component_id = λ c. c;
  component_image_ref = λ c. c;
  component_name = λ _. none;
  component_max_instances = λ _. 1;
  component_annotations = λ _. none;
  ProviderDescription = String;
  provider_id = λ p. p;
  provider_image_ref = λ _. none;
  provider_name = λ _. none;
  provider_annotations = λ _. none;
  Link = String;
  link_source_id = λ l. l;
  link_target = λ l. l;
  link_name = λ l. l;
  Version = String;
  SecretConfig = String;
  secret_config_name = λ s. s;
  same_secret = ◌==◌;
  secret_map = λ s. ok (("secret", s) ∷ []);
}

abbrev pub in_zone : String → String → Option ℕ → Spread
in_zone name zone weight = record {
  name = name;
  requirements = ("zone", zone) ∷ [];
  weight = weight;
}

abbrev pub east : Spread
east = in_zone "east" "us-east" (some 30)

abbrev pub west : Spread
west = in_zone "west" "us-west" none

abbrev pub north : Spread
north = in_zone "north" "us-north" (some 30)

abbrev pub config_of : ℕ → List Spread → SpreadScalerProperty
config_of n spread = record { instances = n; spread = spread }

abbrev pub scaler_of : ℕ → List Spread → List (Spread × ℕ) → ComponentSpreadScaler
scaler_of n spread requirements = record {
  spread_config = record {
    component_reference = "ghcr.io/hello:1";
    component_id = "hello";
    lattice_id = "lattice";
    model_name = "app";
    spread_config = config_of n spread;
  };
  spread_requirements = requirements;
  id = "hello-scaler";
  config = [];
}

abbrev pub host_in : String → String → Map ℕ → Host texts
host_in id zone components = record {
  components = components;
  friendly_name = id;
  labels = ("zone", zone) ∷ [];
  providers = [];
  uptime_seconds = 10;
  version = none;
  id = id;
  last_seen = 0;
}

abbrev pub instances_of : String → ℕ → List WadmComponentInfo
instances_of spread n =
    record { annotations = spreadscaler_annotations spread "hello-scaler"; count = n } ∷ []

abbrev pub hello_on : Map (List WadmComponentInfo) → Component
hello_on instances = record {
  id = "hello";
  name = "hello";
  issuer = "";
  instances = instances;
  reference = "ghcr.io/hello:1";
}

abbrev pub hosts : Map (Host texts)
hosts =
    ("h1", host_in "h1" "us-east" (("hello", 2) ∷ []))
    ∷ ("h2", host_in "h2" "us-west" [])
    ∷ ("h3", host_in "h3" "us-south" [])
    ∷ []

abbrev pub store_of : Option Component → Map (Host texts) → ReadStore texts
store_of component hosts = record {
  get_component = λ _ _. ok component;
  get_provider = λ _ _. ok none;
  list_hosts = λ _. ok hosts;
}
