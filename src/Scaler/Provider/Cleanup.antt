-- ===== src/Scaler/Provider/Cleanup.antt =====
-- The cleanup of a provider daemon scaler.
use wadm.Prelude.{
  ◌≡◌, refl, arith, ap, inl, inr, is_some, some, List, [], ◌∷◌, Map, map, filter_map, flat_map,
  if◌then◌else◌, ok, Option-cases,
}
use wadm.External.{External}
use wadm.Manifest.{Spread}
use wadm.Storage.{Host, ReadStore}
use wadm.Command.{Command}
use wadm.Scaler.Spread.Hosts.{spreadscaler_annotations, eligible_hosts, compute_ineligible_hosts}
use wadm.Scaler.Provider.{stop, start, on_host, remove_ineligible, conclude}
use wadm.Scaler.Provider.Daemon.{
  ProviderDaemonScaler, host_command, spread_result, spread_results, reconcile_with, reconcile,
  cleaner, cleanup,
}

module _ {x : External} where
  -- A stop where the provider runs, and a start where it does not.
  abbrev pub swap : ProviderDaemonScaler → Spread → Host x → Command
  swap s spread host =
      if is_some (on_host s.config host)
      then stop s.config (spreadscaler_annotations spread.name s.id) host.id
      else start s.config (spreadscaler_annotations spread.name s.id) host.id

  host_command-swap :
      (s : ProviderDaemonScaler) (spread : Spread) (h : Host x)
      → host_command s.config s.id spread h (on_host s.config h) 0 ≡ some (swap s spread h)
  unfolding host_command
  host_command-swap s spread h = elim (Option-cases (on_host s.config h)) [
    | inl e ↦ rw (e, host_command) refl
    | inr (p, e) ↦ rw (e, host_command) refl
  ]

  host_commands-swap :
      (s : ProviderDaemonScaler) (spread : Spread) (hosts : Map (Host x))
      → filter_map (λ h. host_command s.config s.id spread h.1 (on_host s.config h.1) 0) hosts
        ≡ map (λ h. swap s spread h.1) hosts
  host_commands-swap s spread [] = refl
  host_commands-swap s spread (h ∷ hs) =
      ground (arith, host_command-swap s spread h.1, host_commands-swap s spread hs)

  spread_result-swap :
      (s : ProviderDaemonScaler) (spread : Spread) (hosts : Map (Host x))
      → (spread_result (cleaner s) spread hosts).0 ≡ map (λ h. swap s spread h.1) hosts
  unfolding spread_result host_command
  spread_result-swap s spread [] = refl
  spread_result-swap s spread (h ∷ hs) = host_commands-swap s spread (h ∷ hs)

  spread_results-swap :
      (s : ProviderDaemonScaler) (hosts : Map (Host x)) (spreads : List Spread)
      → (spread_results (cleaner s) hosts spreads).0
        ≡ flat_map (λ spread. map (λ h. swap s spread h.1) (eligible_hosts hosts spread)) spreads
  unfolding spread_results
  spread_results-swap s hosts [] = refl
  spread_results-swap s hosts (spread ∷ spreads) =
      rw
        (
          spread_result-swap s spread (eligible_hosts hosts spread),
          spread_results-swap s hosts spreads,
        )
        refl

  -- Where the hosts can be read and no host that may not run the provider does, the cleanup
  -- returns one command for each host that a spread allows, spread by spread: a stop where the
  -- provider runs, and a start where it does not.
  pub cleanup-swap :
      (store : ReadStore x) (s : ProviderDaemonScaler) (hosts : Map (Host x))
      → store.list_hosts s.config.lattice_id ≡ ok hosts
      → remove_ineligible s.config s.id
          (compute_ineligible_hosts hosts s.config.spread_config.spread)
        ≡ []
      → (cleanup store s).0
        ≡ ok (
            flat_map
              (λ spread. map (λ h. swap s spread h.1) (eligible_hosts hosts spread))
              s.config.spread_config.spread)
  unfolding cleanup reconcile reconcile_with conclude remove_ineligible
  cleanup-swap store s hosts listed none_removed =
      rw (listed, reconcile, none_removed, conclude)
        (ap ok (spread_results-swap s hosts s.config.spread_config.spread))
