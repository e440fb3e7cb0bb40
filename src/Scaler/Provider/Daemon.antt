-- ===== src/Scaler/Provider/Daemon.antt =====
-- `ProviderDaemonScaler` of crates/wadm/src/scaler/daemonscaler/provider.rs: the provider on every
-- host that a spread allows.
use wadm.Prelude.{
  ℕ, zero, String, Option, none, some, List, [], ◌∷◌, ◌++◌, Map, filter_map, literal, format, str,
  Message, Result, ok, err,
}
use wadm.External.{External}
use wadm.Manifest.{Spread, TraitProperty, spread_scaler}
use wadm.Api.{StatusInfo, reconciling}
use wadm.Storage.{Host, ReadStore}
use wadm.Event.{Event, ProviderInfo}
use wadm.Command.{Command}
use wadm.Scaler.{Scaler}
use wadm.Scaler.Daemon.{with_default}
use wadm.Scaler.Spread.Hosts.{spreadscaler_annotations, eligible_hosts, compute_ineligible_hosts}
use wadm.Scaler.Provider.{
  ProviderSpreadConfig, stop, start, on_host, remove_ineligible, conclude, handle_with,
}

pub record ProviderDaemonScaler : Type 0 where
  pub config : ProviderSpreadConfig
  pub id : String
  pub status : StatusInfo

-- The copy that `cleanup` reconciles asks for no instance.
abbrev pub cleaner : ProviderDaemonScaler → ProviderDaemonScaler
cleaner s = record s {
  config = record (s.config) { spread_config = record (s.config.spread_config) { instances = 0 } };
  status = record { status_type = reconciling; message = literal "" };
}

module _ {x : External} where
  -- The match on what runs on the host and on the number of instances.
  unfoldable pub host_command :
      ProviderSpreadConfig → String → Spread → Host x → Option ProviderInfo → ℕ → Option Command
  host_command c id spread host (some _) zero =
      some (stop c (spreadscaler_annotations spread.name id) host.id)
  host_command c id spread host none n =
      some (start c (spreadscaler_annotations spread.name id) host.id)
  host_command c id spread host _ _ = none

  -- The commands of one spread and its failure, by the hosts that it allows.
  unfoldable pub spread_result :
      ProviderDaemonScaler → Spread → Map (Host x) → List Command × List Message
  spread_result s spread [] = (
    [],
    format "Could not satisfy daemonscaler {} for {}, 0 eligible hosts found."
          (str spread.name ∷ str s.config.provider_reference ∷ [])
        ∷ [],
  )
  spread_result s spread (e ∷ es) = (
    filter_map
        (λ h.
          host_command s.config s.id spread h.1 (on_host s.config h.1)
            s.config.spread_config.instances)
        (e ∷ es),
    [],
  )

  unfoldable pub spread_results :
      ProviderDaemonScaler → Map (Host x) → List Spread → List Command × List Message
  spread_results s hosts [] = ([], [])
  spread_results s hosts (spread ∷ spreads) =
      let (commands, failures) = spread_result s spread (eligible_hosts hosts spread) in
      let (later_commands, later_failures) = spread_results s hosts spreads in
      (commands ++ later_commands, failures ++ later_failures)

  unfoldable pub reconcile_with : ProviderDaemonScaler → Map (Host x) → List Command × StatusInfo
  reconcile_with s hosts =
      let spreads = s.config.spread_config.spread in
      conclude (remove_ineligible s.config s.id (compute_ineligible_hosts hosts spreads))
        (spread_results s hosts spreads)

  module _ (store : ReadStore x) where
    unfoldable pub reconcile : ProviderDaemonScaler → Result (List Command) × ProviderDaemonScaler
    reconcile s = elim (store.list_hosts s.config.lattice_id) [
      | err e ↦ (err e, s)
      | ok hosts ↦
          let (commands, status) = reconcile_with s hosts in
          (ok commands, record s { status = status })
    ]

    unfoldable pub handle_event :
        Event x → ProviderDaemonScaler → Result (List Command) × ProviderDaemonScaler
    handle_event e s =
        let (r, t) = reconcile s in
        let (answer, status) =
          handle_with store s.config s.config.spread_config.spread (r, t.status) s.status e in
        (answer, record s { status = status })

    unfoldable pub update_config :
        TraitProperty x.Value → ProviderDaemonScaler → Result (List Command) × ProviderDaemonScaler
    update_config (spread_scaler prop) s =
        reconcile (record s { config = record (s.config) { spread_config = with_default prop } })
    update_config _ s = (err "Given config was not a daemon scaler config object", s)

    -- The status of the copy is dropped.
    unfoldable pub cleanup : ProviderDaemonScaler → Result (List Command) × ProviderDaemonScaler
    cleanup s = ((reconcile (cleaner s)).0, s)

    abbrev pub provider_daemon_scaler : Scaler x ProviderDaemonScaler
    provider_daemon_scaler = record {
      id = λ s. s.id;
      name = λ s. s.config.provider_id;
      kind = λ s. "DaemonScaler";
      status = λ s. let t = (reconcile s).1 in (t.status, t);
      update_config = update_config;
      handle_event = handle_event;
      reconcile = reconcile;
      cleanup = cleanup;
    }
