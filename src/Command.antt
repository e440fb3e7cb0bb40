-- ===== src/Command.antt =====
-- The commands that scalers issue: crates/wadm/src/commands/mod.rs.
use wadm.Prelude.{ℕ, String, Option, none, some, List, Map, insert}
use wadm.External.{External}
use wadm.Event.{
  Event, component_scaled, component_scale_failed, provider_started, provider_start_failed,
}

pub record ScaleComponent : Type 0 where
  pub component_id : String
  pub host_id : String
  pub count : ℕ
  pub reference : String
  pub model_name : String
  pub annotations : Map String
  pub config : List String

pub record StartProvider : Type 0 where
  pub reference : String
  pub provider_id : String
  pub host_id : String
  pub model_name : String
  pub config : List String
  pub annotations : Map String

pub record StopProvider : Type 0 where
  pub provider_id : String
  pub host_id : String
  pub model_name : String
  pub annotations : Map String

pub record PutLink : Type 0 where
  pub source_id : String
  pub target : String
  pub name : String
  pub wit_namespace : String
  pub wit_package : String
  pub interfaces : List String
  pub source_config : List String
  pub target_config : List String
  pub model_name : String

pub record DeleteLink : Type 0 where
  pub source_id : String
  pub wit_namespace : String
  pub wit_package : String
  pub link_name : String
  pub model_name : String

pub record PutConfig : Type 0 where
  pub config_name : String
  pub config : Map String

pub data Command : Type 0 where
  scale_component : ScaleComponent → Command
  start_provider : StartProvider → Command
  stop_provider : StopProvider → Command
  put_link : PutLink → Command
  delete_link : DeleteLink → Command
  put_config : PutConfig → Command
  delete_config : String → Command

-- crates/wadm/src/lib.rs
abbrev pub managed_by_annotation : String
managed_by_annotation = "wasmcloud.dev/managed-by"

abbrev pub managed_by_identifier : String
managed_by_identifier = "wadm"

abbrev pub app_spec_annotation : String
app_spec_annotation = "wasmcloud.dev/appspec"

abbrev pub scaler_key : String
scaler_key = "wasmcloud.dev/scaler"

-- crates/wadm/src/workers/event_helpers.rs
unfoldable pub insert_managed_annotations : Map String → String → Map String
insert_managed_annotations annotations model_name =
    insert app_spec_annotation model_name
      (insert managed_by_annotation managed_by_identifier annotations)

-- The event of a command that succeeds, and the one of its failure.
unfoldable pub corresponding_event : {x : External} → Command → Option (Event x × Option (Event x))
corresponding_event (start_provider c) =
    let annotations = insert_managed_annotations c.annotations c.model_name in
    some (
      provider_started (record {
        annotations = annotations;
        claims = none;
        image_ref = c.reference;
        provider_id = c.provider_id;
        host_id = c.host_id;
      }),
      some (
          provider_start_failed (record {
            error = "";
            provider_id = c.provider_id;
            provider_ref = c.reference;
            host_id = c.host_id;
          })),
    )
corresponding_event (scale_component c) =
    let annotations = insert_managed_annotations c.annotations c.model_name in
    some (
      component_scaled (record {
        annotations = annotations;
        claims = none;
        image_ref = c.reference;
        max_instances = c.count;
        component_id = c.component_id;
        host_id = c.host_id;
      }),
      some (
          component_scale_failed (record {
            annotations = annotations;
            claims = none;
            image_ref = c.reference;
            max_instances = c.count;
            component_id = c.component_id;
            host_id = c.host_id;
            error = "";
          })),
    )
corresponding_event _ = none
