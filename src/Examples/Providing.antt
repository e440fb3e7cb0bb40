-- ===== src/Examples/Providing.antt =====
-- Provider scalers on two hosts, of which the first runs the provider.
use wadm.Prelude.{ℕ, String, ◌≡◌, refl, Option, none, some, List, [], ◌∷◌, Map, ok, literal}
use wadm.Api.{deployed, reconciling}
use wadm.Storage.{Host}
use wadm.Scaler.Spread.Hosts.{
  satisfies, spreadscaler_annotations, eligible_hosts, compute_ineligible_hosts,
}
use wadm.Scaler.Provider.{
  ProviderSpreadConfig, stop, start, remove_ineligible, conclude, final_status,
}
use wadm.Scaler.Provider.Spreading.{spread_result, spread_results, reconcile_with}
use wadm.Scaler.Provider.Counts.{IsBounded, spread_result-IsBounded}
use wadm.Scaler.Provider.Daemon.{ProviderDaemonScaler, cleanup}
use wadm.Scaler.Provider.Cleanup.{cleanup-swap}
use wadm.Examples.{texts, config_of, host_in, store_of, east}

abbrev config : ℕ → ProviderSpreadConfig
config n = record {
  lattice_id = "lattice";
  provider_id = "http";
  provider_reference = "ghcr.io/http:1";
  model_name = "app";
  spread_config = config_of n (east ∷ []);
  provider_config = [];
}

abbrev running_on : String → Map String → Host texts
running_on id annotations = record (host_in id "us-east" []) {
  providers =
      record { provider_id = "http"; provider_ref = "ghcr.io/http:1"; annotations = annotations }
      ∷ [];
}

-- Another scaler's provider runs on the first host.
abbrev hosts : Map (Host texts)
hosts = ("h1", running_on "h1" []) ∷ ("h2", host_in "h2" "us-east" []) ∷ []

-- Two are wanted, one runs for others, and a host is free: there is no command, and no failure.
counted_twice :
    reconcile_with
      (record {
        config = config 2;
        spread_requirements = (east, 2) ∷ [];
        id = "http-scaler";
        status = record { status_type = reconciling; message = literal "" };
      })
      hosts
    ≡ ([], record { status_type = deployed; message = literal "" })
unfolding reconcile_with spread_results spread_result remove_ineligible conclude final_status
    eligible_hosts compute_ineligible_hosts satisfies wadm.Prelude.lookup
counted_twice = refl

spread_result-IsBounded_example :
    IsBounded
      (config 3)
      "http-scaler"
      east
      3
      hosts
      (start (config 3) (spreadscaler_annotations "east" "http-scaler") "h2" ∷ [])
      []
unfolding spread_result satisfies wadm.Prelude.lookup
spread_result-IsBounded_example = spread_result-IsBounded (config 3) "http-scaler" east 3 hosts

abbrev daemon : ProviderDaemonScaler
daemon = record {
  config = config 1;
  id = "http-scaler";
  status = record { status_type = reconciling; message = literal "" };
}

cleanup-swap_example :
    (cleanup (store_of none hosts) daemon).0
    ≡ ok (
        stop (config 1) (spreadscaler_annotations "east" "http-scaler") "h1"
        ∷ start (config 1) (spreadscaler_annotations "east" "http-scaler") "h2"
        ∷ [])
unfolding remove_ineligible eligible_hosts compute_ineligible_hosts satisfies wadm.Prelude.lookup
cleanup-swap_example = cleanup-swap (store_of none hosts) daemon hosts refl refl
