-- ===== src/Event.antt =====
-- The lattice events: crates/wadm/src/events/types.rs and data.rs.
pub mod Matching
use wadm.Prelude.{ℕ, String, Option, List, Map}
use wadm.External.{External}
use wadm.Manifest.{Manifest}

pub record ComponentClaims : Type 0 where
  pub call_alias : Option String
  pub expires_human : String
  pub issuer : String
  pub name : String
  pub not_before_human : String
  pub revision : Option ℕ
  pub tags : Option (List String)
  pub version : Option String

pub record ProviderClaims : Type 0 where
  pub expires_human : String
  pub issuer : String
  pub name : String
  pub not_before_human : String
  pub tags : Option (List String)
  pub version : String

pub record ProviderInfo : Type 0 where
  pub provider_id : String
  pub provider_ref : String
  pub annotations : Map String

pub record ProviderHealthCheckInfo : Type 0 where
  pub provider_id : String
  pub host_id : String

pub record ComponentScaled : Type 0 where
  pub annotations : Map String
  pub claims : Option ComponentClaims
  pub image_ref : String
  pub max_instances : ℕ
  pub component_id : String
  pub host_id : String

pub record ComponentScaleFailed : Type 0 where
  pub annotations : Map String
  pub claims : Option ComponentClaims
  pub image_ref : String
  pub max_instances : ℕ
  pub component_id : String
  pub host_id : String
  pub error : String

pub record ProviderStarted : Type 0 where
  pub annotations : Map String
  pub claims : Option ProviderClaims
  pub image_ref : String
  pub provider_id : String
  pub host_id : String

pub record ProviderStartFailed : Type 0 where
  pub error : String
  pub provider_id : String
  pub provider_ref : String
  pub host_id : String

pub record ProviderStopped : Type 0 where
  pub annotations : Map String
  pub provider_id : String
  pub reason : String
  pub host_id : String

pub record LinkdefDeleted : Type 0 where
  pub source_id : String
  pub name : String
  pub wit_namespace : String
  pub wit_package : String

pub record HostStarted : Type 0 where
  pub labels : Map String
  pub friendly_name : String
  pub id : String

pub record HostStopped : Type 0 where
  pub labels : Map String
  pub id : String

pub record HostHeartbeat (x : External) : Type 0 where
  pub components : List x.ComponentDescription
  pub providers : List x.ProviderDescription
  pub host_id : String
  pub issuer : String
  pub friendly_name : String
  pub labels : Map String
  pub version : x.Version
  pub uptime_human : String
  pub uptime_seconds : ℕ

-- The events of one field (health checks, configuration, manifests, `LinkdefSet`) hold that field.
pub data Event (x : External) : Type 0 where
  component_scaled : ComponentScaled → Event x
  component_scale_failed : ComponentScaleFailed → Event x
  provider_started : ProviderStarted → Event x
  provider_stopped : ProviderStopped → Event x
  provider_start_failed : ProviderStartFailed → Event x
  provider_health_check_passed : ProviderHealthCheckInfo → Event x
  provider_health_check_failed : ProviderHealthCheckInfo → Event x
  provider_health_check_status : ProviderHealthCheckInfo → Event x
  host_started : HostStarted → Event x
  host_stopped : HostStopped → Event x
  host_heartbeat : HostHeartbeat x → Event x
  linkdef_set : x.Link → Event x
  linkdef_deleted : LinkdefDeleted → Event x
  config_set : String → Event x
  config_deleted : String → Event x
  manifest_published : Manifest x.Value → Event x
  manifest_unpublished : String → Event x

-- `EventType::TYPE` of the event's struct, as `TryFrom<Event> for CloudEvent` reads it.
unfoldable pub cloud_event_type : {x : External} → Event x → String
cloud_event_type (component_scaled _) = "com.wasmcloud.lattice.component_scaled"
cloud_event_type (component_scale_failed _) = "com.wasmcloud.lattice.component_scale_failed"
cloud_event_type (provider_started _) = "com.wasmcloud.lattice.provider_started"
cloud_event_type (provider_stopped _) = "com.wasmcloud.lattice.provider_stopped"
cloud_event_type (provider_start_failed _) = "com.wasmcloud.lattice.provider_start_failed"
cloud_event_type (provider_health_check_passed _) = "com.wasmcloud.lattice.health_check_passed"
cloud_event_type (provider_health_check_failed _) = "com.wasmcloud.lattice.health_check_failed"
cloud_event_type (provider_health_check_status _) = "com.wasmcloud.lattice.health_check_status"
cloud_event_type (host_started _) = "com.wasmcloud.lattice.host_started"
cloud_event_type (host_stopped _) = "com.wasmcloud.lattice.host_stopped"
cloud_event_type (host_heartbeat _) = "com.wasmcloud.lattice.host_heartbeat"
cloud_event_type (linkdef_set _) = "com.wasmcloud.lattice.linkdef_set"
cloud_event_type (linkdef_deleted _) = "com.wasmcloud.lattice.linkdef_deleted"
cloud_event_type (config_set _) = "com.wasmcloud.lattice.config_set"
cloud_event_type (config_deleted _) = "com.wasmcloud.lattice.config_deleted"
cloud_event_type (manifest_published _) = "com.wadm.manifest_published"
cloud_event_type (manifest_unpublished _) = "com.wadm.manifest_unpublished"

-- `Event::raw_type`: a failed start has the type of a stop.
unfoldable pub raw_type : {x : External} → Event x → String
unfolding cloud_event_type
raw_type (provider_start_failed _) = "com.wasmcloud.lattice.provider_stopped"
raw_type e = cloud_event_type e
