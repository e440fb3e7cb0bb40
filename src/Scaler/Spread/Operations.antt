-- ===== src/Scaler/Spread/Operations.antt =====
-- The operations of `ComponentSpreadScaler` in crates/wadm/src/scaler/spreadscaler/mod.rs.
-- The scaler's `status` lock is passed along: an operation returns its commands and the status.
pub mod Stops
pub mod Cleanup
use Prim.Native.Nat.{compare, Ordering}
use wadm.Prelude.{
  ℕ, ◌+◌, ◌-◌, ◌%◌, ◌^◌, min, String, Bool, true, false, ◌&&◌, Option, none, some, List, [], ◌∷◌,
  ◌++◌, Map, lookup, insert, contains_key, contains, ltb, if◌then◌else◌, all, any, is_empty, length,
  map, filter_map, flat_map, head?, usize_mod, Message, literal, format, join, str, num, Result, ok,
  err, ◌>>=◌, ◌==◌,
}
use wadm.External.{External}
use wadm.Manifest.{Spread, SpreadScalerProperty, TraitProperty, spread_scaler}
use wadm.Api.{StatusInfo, deployed, failed, reconciling}
use wadm.Storage.{Component, Host, WadmComponentInfo, ReadStore}
use wadm.Event.{Event, component_scaled, host_started, host_stopped, host_heartbeat, config_set}
use wadm.Command.{Command, ScaleComponent, scale_component}
use wadm.Scaler.Spread.Weights.{sum_usize, compute_spread}
use wadm.Scaler.Spread.Hosts.{
  has_value, satisfies, spreadscaler_annotations, eligible_hosts, compute_ineligible_hosts,
}
use wadm.Scaler.Spread.Reconcile.{ComponentSpreadConfig, ComponentSpreadScaler, reconcile_with}

-- A store that fails leaves the status as it was.
unfoldable pub reconcile :
    {x : External}
    → ReadStore x
    → ComponentSpreadScaler
    → StatusInfo
    → Result (List Command) × StatusInfo
unfolding reconcile_with
reconcile store s status =
    elim (do
      component ← store.get_component s.spread_config.lattice_id s.spread_config.component_id
      hosts ← store.list_hosts s.spread_config.lattice_id
      ok (reconcile_with s component hosts)) [
        | err e ↦ (err e, status)
        | ok (commands, status') ↦ (ok commands, status')
      ]

-- `cleanup` reconciles a copy that asks for no instance; `none` is the panic of `compute_spread`.
unfoldable pub cleaner : ComponentSpreadScaler → Option ComponentSpreadScaler
cleaner s =
    let config = record (s.spread_config) {
      spread_config = record (s.spread_config.spread_config) { instances = 0 };
    } in
    elim (compute_spread config.spread_config) [
      | none ↦ none
      | some requirements ↦
          some (record s { spread_config = config; spread_requirements = requirements })
    ]

unfoldable pub cleanup :
    {x : External} → ReadStore x → ComponentSpreadScaler → Option (Result (List Command))
unfolding cleaner reconcile
cleanup store s = elim (cleaner s) [
  | none ↦ none
  | some c ↦ some (reconcile store c (record { status_type = reconciling; message = [] })).0
]

unfoldable pub update_config :
    {x : External}
    → ReadStore x
    → ComponentSpreadScaler
    → TraitProperty x.Value
    → StatusInfo
    → Option (Result (List Command) × StatusInfo × ComponentSpreadScaler)
unfolding reconcile
update_config store s (spread_scaler prop) status =
    let config = record (s.spread_config) { spread_config = prop } in
    elim (compute_spread prop) [
      | none ↦ none
      | some requirements ↦
          let s' = record s { spread_config = config; spread_requirements = requirements } in
          let (r, status') = reconcile store s' status in some (r, status', s')
    ]
update_config store s _ status =
    some (err "Given config was not a spread scaler config object", status, s)

-- Some spread's requirements are met by the labels of the host in the event.
unfoldable pub matches_labels : ComponentSpreadScaler → Map String → Bool
matches_labels s labels = any (λ r. satisfies labels r.0.requirements) s.spread_requirements

unfoldable pub handle_event :
    {x : External}
    → ReadStore x
    → ComponentSpreadScaler
    → Event x
    → StatusInfo
    → Result (List Command) × StatusInfo
unfolding reconcile matches_labels
handle_event store s (component_scaled evt) status =
    if evt.component_id == s.spread_config.component_id
    then reconcile store s status
    else (ok [], status)
handle_event store s (host_started evt) status =
    if matches_labels s evt.labels then reconcile store s status else (ok [], status)
handle_event store s (host_stopped evt) status =
    if matches_labels s evt.labels then reconcile store s status else (ok [], status)
handle_event store s (host_heartbeat evt) status =
    if matches_labels s evt.labels then reconcile store s status else (ok [], status)
handle_event store s (config_set config_name) status =
    if contains config_name s.config then reconcile store s status else (ok [], status)
handle_event store s _ status = (ok [], status)
