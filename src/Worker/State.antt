-- ===== src/Worker/State.antt =====
-- How the worker brings the state up to date: the first part of `do_work`, which ends with a hint
-- which scalers are to see the event.
use wadm.Prelude.{ℕ, String, true, false, Option, none, some, Map, Result, lookup}
use wadm.Prelude.Actions.{Action, pure, ◌>>◌}
use wadm.External.{External}
use wadm.Event.{
  Event, component_scaled, component_scale_failed, provider_started, provider_stopped,
  provider_start_failed, provider_health_check_passed, provider_health_check_failed,
  provider_health_check_status, host_started, host_stopped, host_heartbeat, linkdef_set,
  linkdef_deleted, config_set, config_deleted, manifest_published, manifest_unpublished,
}
use wadm.Command.{app_spec_annotation}
use wadm.Storage.Store.{Store}
use wadm.Worker.Components.{handle_component_scaled}
use wadm.Worker.Providers.{
  handle_provider_started, handle_provider_stopped, handle_provider_health_check,
}
use wadm.Worker.Hosts.{handle_host_started, handle_host_stopped}
use wadm.Worker.Heartbeat.{Claims, handle_host_heartbeat}

module _ {x : External} {σ : Type 0} (db : Store x σ) (get_claims : σ → Result (Map Claims)) where
  -- The handlers of the events about manifests change the scalers and not this state.
  unfoldable pub update_state : ℕ → Event x → Action σ (Option String)
  update_state now (component_scaled e) = do
    handle_component_scaled db e
    pure (lookup app_spec_annotation e.annotations)
  update_state now (host_heartbeat e) = do handle_host_heartbeat x db get_claims now e; pure none
  update_state now (host_started e) = do handle_host_started db now e; pure none
  update_state now (host_stopped e) = do handle_host_stopped db e; pure none
  update_state now (provider_started e) = do
    handle_provider_started db e
    pure (lookup app_spec_annotation e.annotations)
  update_state now (provider_stopped e) = do handle_provider_stopped db e; pure none
  update_state now (provider_health_check_status e) = do
    handle_provider_health_check db e none
    pure none
  update_state now (provider_health_check_passed e) = do
    handle_provider_health_check db e (some false)
    pure none
  update_state now (provider_health_check_failed e) = do
    handle_provider_health_check db e (some true)
    pure none
  update_state now (linkdef_set _) = pure none
  update_state now (linkdef_deleted _) = pure none
  update_state now (config_set _) = pure none
  update_state now (config_deleted _) = pure none
  update_state now (provider_start_failed _) = pure none
  update_state now (component_scale_failed _) = pure none
  update_state now (manifest_published _) = pure none
  update_state now (manifest_unpublished _) = pure none
