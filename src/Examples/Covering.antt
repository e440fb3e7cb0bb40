-- ===== src/Examples/Covering.antt =====
-- A daemon scaler on the hosts of the east.
use wadm.Prelude.{
  ℕ, String, ◌≡◌, ◌↔◌, refl, ◌==◌, Bool, true, false, some, List, [], ◌∷◌, All, literal,
}
use wadm.Api.{deployed, reconciling}
use wadm.Manifest.{Spread}
use wadm.Storage.{Component}
use wadm.Scaler.Daemon.{
  ComponentDaemonScaler, reconcile_with, spread_results, spread_result, host_command, current_count,
  conclude,
}
use wadm.Scaler.Daemon.Running.{IsClear}
use wadm.Scaler.Daemon.Satisfied.{IsMet, reconcile_with-eq-deployed_iff}
use wadm.Scaler.Spread.Hosts.{satisfies, eligible_hosts, compute_ineligible_hosts}
use wadm.Scaler.Spread.Weights.{sum_usize}
use wadm.Scaler.Spread.Reconcile.{remove_ineligible, managed_count, final_status}
use wadm.Examples.{scaler_of, hosts, hello_on, instances_of, east}

abbrev daemon_of : ℕ → List Spread → ComponentDaemonScaler
daemon_of n spread = record {
  spread_config = (scaler_of n spread []).spread_config;
  id = "hello-scaler";
  status = record { status_type = reconciling; message = literal "" };
  config = [];
}

abbrev hello : Component
hello = hello_on (("h1", instances_of "east" 2) ∷ [])

-- Two instances run on the one host of the east.
two_in_the_east :
    (reconcile_with (daemon_of 2 (east ∷ [])) (some hello) hosts).1.status_type ≡ deployed
unfolding reconcile_with spread_results spread_result host_command current_count conclude satisfies
    eligible_hosts compute_ineligible_hosts remove_ineligible managed_count final_status sum_usize
    wadm.Prelude.lookup
two_in_the_east = refl

reconcile_with-eq-deployed_iff_example :
    let (commands, status) = reconcile_with (daemon_of 2 (east ∷ [])) (some hello) hosts in
    ((status.status_type ≡ deployed) ↔ (
      IsClear "hello" (east ∷ []) hosts
      × All (IsMet (daemon_of 2 (east ∷ [])) (some hello) hosts) (east ∷ [])))
    × (status.status_type ≡ deployed → commands ≡ [])
reconcile_with-eq-deployed_iff_example =
    reconcile_with-eq-deployed_iff (daemon_of 2 (east ∷ [])) (some hello) hosts
      (refl, (refl, (refl, tt)))
