-- ===== src/Scaler/Daemon.antt =====
-- `ComponentDaemonScaler` of crates/wadm/src/scaler/daemonscaler/mod.rs: the same number of
-- instances on every host that a spread allows. `reconcile` returns its commands and the status.
pub mod Running
pub mod Satisfied
use Prim.Native.Nat.{compare, Ordering}
use wadm.Prelude.{
  ℕ, String, Bool, Option, none, some, List, [], ◌∷◌, ◌++◌, Map, lookup, contains, if◌then◌else◌,
  any, is_empty, filter_map, Message, literal, format, str, Result, ok, err, ◌>>=◌, ◌==◌,
}
use wadm.External.{External}
use wadm.Manifest.{Spread, SpreadScalerProperty, TraitProperty, spread_scaler, default_spread}
use wadm.Api.{StatusInfo, reconciling}
use wadm.Storage.{Component, Host, ReadStore}
use wadm.Event.{Event, component_scaled, host_started, host_stopped, host_heartbeat, config_set}
use wadm.Command.{Command}
use wadm.Scaler.{Scaler}
use wadm.Scaler.Spread.Weights.{sum_usize}
use wadm.Scaler.Spread.Hosts.{
  satisfies, spreadscaler_annotations, eligible_hosts, compute_ineligible_hosts,
}
use wadm.Scaler.Spread.Reconcile.{
  ComponentSpreadConfig, ComponentSpreadScaler, scale, remove_ineligible, managed_count,
  final_status,
}

pub record ComponentDaemonScaler : Type 0 where
  pub spread_config : ComponentSpreadConfig
  pub id : String
  pub status : StatusInfo
  pub config : List String

-- What its commands are made of, as those of a spread scaler.
abbrev pub command_source : ComponentDaemonScaler → ComponentSpreadScaler
command_source s = record {
  spread_config = s.spread_config;
  spread_requirements = [];
  id = s.id;
  config = s.config;
}

-- The instances on the host that this scaler manages for the spread.
unfoldable pub current_count : ComponentDaemonScaler → Spread → Option Component → String → ℕ
current_count s spread none host_id = 0
current_count s spread (some c) host_id = elim (lookup host_id c.instances) [
  | none ↦ 0
  | some infos ↦ sum_usize 0 (managed_count (spreadscaler_annotations spread.name s.id) infos)
]

-- Up or down to the number of instances.
unfoldable pub host_command :
    ComponentDaemonScaler → Spread → Option Component → String → Option Command
host_command s spread component host_id =
    let instances = s.spread_config.spread_config.instances in
    let command =
      scale (command_source s) host_id instances (spreadscaler_annotations spread.name s.id) in
    elim (compare (current_count s spread component host_id) instances) [
      | Ordering.eq ↦ none
      | Ordering.lt ↦ some command
      | Ordering.gt ↦ some command
    ]

unfoldable pub conclude : List Command → List Command × List Message → List Command × StatusInfo
conclude (c ∷ cs) results = (
  c ∷ cs,
  record {
    status_type = reconciling;
    message = literal "Found components running on ineligible hosts, removing them.";
  },
)
conclude [] (commands, failures) = (commands, final_status failures commands)

abbrev pub conclude_with :
    ComponentDaemonScaler
    → Result (List Command × StatusInfo)
    → Result (List Command) × ComponentDaemonScaler
conclude_with s (err e) = (err e, s)
conclude_with s (ok (commands, status)) = (ok commands, record s { status = status })

-- Where no spread is given, an empty one allows every host.
abbrev pub with_default : SpreadScalerProperty → SpreadScalerProperty
with_default p = if is_empty p.spread then record p { spread = default_spread ∷ [] } else p

module _ {x : External} where
  -- The commands of one spread and its failure, by the hosts that it allows.
  unfoldable pub spread_result :
      ComponentDaemonScaler → Spread → Option Component → Map (Host x) → List Command × List Message
  spread_result s spread component [] = (
    [],
    format "Could not satisfy daemonscaler {} for {}, 0 eligible hosts found."
          (str spread.name ∷ str s.spread_config.component_reference ∷ [])
        ∷ [],
  )
  spread_result s spread component (e ∷ es) =
      (filter_map (λ h. host_command s spread component h.0) (e ∷ es), [])

  unfoldable pub spread_results :
      ComponentDaemonScaler
      → Option Component
      → Map (Host x)
      → List Spread
      → List Command × List Message
  spread_results s component hosts [] = ([], [])
  spread_results s component hosts (spread ∷ spreads) =
      let (commands, failures) = spread_result s spread component (eligible_hosts hosts spread) in
      let (later_commands, later_failures) = spread_results s component hosts spreads in
      (commands ++ later_commands, failures ++ later_failures)

  -- `reconcile` on what it reads from the store.
  unfoldable pub reconcile_with :
      ComponentDaemonScaler → Option Component → Map (Host x) → List Command × StatusInfo
  reconcile_with s component hosts =
      let spreads = s.spread_config.spread_config.spread in
      conclude (remove_ineligible (command_source s) (compute_ineligible_hosts hosts spreads))
        (spread_results s component hosts spreads)

  module _ (store : ReadStore x) where
    -- A store that fails leaves the status as it was.
    unfoldable pub reconcile : ComponentDaemonScaler → Result (List Command) × ComponentDaemonScaler
    reconcile s = conclude_with s (do
      component ← store.get_component s.spread_config.lattice_id s.spread_config.component_id
      hosts ← store.list_hosts s.spread_config.lattice_id
      ok (reconcile_with s component hosts))

    unfoldable pub status : ComponentDaemonScaler → StatusInfo × ComponentDaemonScaler
    status s = let t = (reconcile s).1 in (t.status, t)

    unfoldable pub update_config :
        TraitProperty x.Value
        → ComponentDaemonScaler
        → Result (List Command) × ComponentDaemonScaler
    update_config (spread_scaler prop) s = reconcile (record s {
      spread_config = record (s.spread_config) { spread_config = with_default prop };
    })
    update_config _ s = (err "Given config was not a daemon scaler config object", s)

    -- Some spread's requirements are met by the labels of the host in the event.
    unfoldable pub on_labels :
        Map String → ComponentDaemonScaler → Result (List Command) × ComponentDaemonScaler
    on_labels labels s =
        let reconciled = reconcile s in
        if any (λ p. satisfies labels p.requirements) s.spread_config.spread_config.spread
        then reconciled
        else (ok [], s)

    unfoldable pub handle_event :
        Event x → ComponentDaemonScaler → Result (List Command) × ComponentDaemonScaler
    handle_event (component_scaled evt) s =
        let reconciled = reconcile s in
        if evt.component_id == s.spread_config.component_id then reconciled else (ok [], s)
    handle_event (host_stopped evt) s = on_labels evt.labels s
    handle_event (host_started evt) s = on_labels evt.labels s
    handle_event (host_heartbeat evt) s = on_labels evt.labels s
    handle_event (config_set config_name) s =
        let reconciled = reconcile s in
        if contains config_name s.config then reconciled else (ok [], s)
    handle_event _ s = (ok [], s)

    -- A copy that asks for no instance reconciles; its status is dropped.
    unfoldable pub cleanup : ComponentDaemonScaler → Result (List Command) × ComponentDaemonScaler
    cleanup s =
        let config = record (s.spread_config) {
          spread_config = record (s.spread_config.spread_config) { instances = 0 };
        } in
        let cleaner = record s {
          spread_config = config;
          status = record { status_type = reconciling; message = literal "" };
        } in
        ((reconcile cleaner).0, s)

    abbrev pub component_daemon_scaler : Scaler x ComponentDaemonScaler
    component_daemon_scaler = record {
      id = λ s. s.id;
      name = λ s. s.spread_config.component_id;
      kind = λ s. "DaemonScaler";
      status = status;
      update_config = update_config;
      handle_event = handle_event;
      reconcile = reconcile;
      cleanup = cleanup;
    }
