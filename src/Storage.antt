-- ===== src/Storage.antt =====
-- The lattice state: crates/wadm/src/storage/state.rs, and `ReadStore` of storage/mod.rs.
pub mod Store
pub mod Sets
pub mod Conversions
pub mod Kv
pub mod Reaper
use wadm.Prelude.{ℕ, String, Option, List, Map, Result}
use wadm.External.{External}
use wadm.Event.{ProviderInfo}

pub data ProviderStatus : Type 0 where
  pending running failed : ProviderStatus

pub record Provider : Type 0 where
  pub id : String
  pub name : String
  pub issuer : String
  pub reference : String
  pub hosts : Map ProviderStatus

pub record WadmComponentInfo : Type 0 where
  pub annotations : Map String
  pub count : ℕ

pub record Component : Type 0 where
  pub id : String
  pub name : String
  pub issuer : String
  pub instances : Map (List WadmComponentInfo)
  pub reference : String

-- `last_seen` is a time in milliseconds.
pub record Host (x : External) : Type 0 where
  pub components : Map ℕ
  pub friendly_name : String
  pub labels : Map String
  pub providers : List ProviderInfo
  pub uptime_seconds : ℕ
  pub version : Option x.Version
  pub id : String
  pub last_seen : ℕ

-- `get` and `list` of a store, at the state kinds that the scalers read. The first argument is
-- the lattice.
pub record ReadStore (x : External) : Type 0 where
  pub get_component : String → String → Result (Option Component)
  pub get_provider : String → String → Result (Option Provider)
  pub list_hosts : String → Result (Map (Host x))
