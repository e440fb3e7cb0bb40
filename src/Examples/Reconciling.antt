-- ===== src/Examples/Reconciling.antt =====
-- Examples for the reconciliation of a spread scaler.
use wadm.Prelude.{
  lookup, insert, ℕ, ◌<◌, ◌≡◌, ◌↔◌, refl, Option, none, some, List, [], ◌∷◌, All, arith, sum, map,
  Map, ok, subst, usize_mod,
}
use wadm.Api.{deployed}
use wadm.Storage.{Component}
use wadm.Command.{Command}
use wadm.Scaler.Spread.Weights.{compute_spread, sort_by_weight, insert_by_weight, sum_usize, shares}
use wadm.Scaler.Spread.Conflicts.{detect_spread_requirement_conflicts}
use wadm.Scaler.Spread.Hosts.{
  satisfies, eligible_hosts, compute_ineligible_hosts, spreadscaler_annotations,
}
use wadm.Scaler.Spread.Reconcile.{
  ComponentSpreadScaler, spread_commands, scale, running_per_host, reconcile_with,
}
use wadm.Scaler.Spread.Reconcile.Stopping.{target_count, target_host, IsRunning, scale_down_exact}
use wadm.Scaler.Spread.Reconcile.Satisfied.{reconcile_with-deployed_iff, IsMet, removals, conflict}
use wadm.Scaler.Spread.Operations.{cleanup}
use wadm.Scaler.Spread.Operations.Stops.{IsStop, instance_total}
use wadm.Scaler.Spread.Operations.Cleanup.{cleanup-IsStop}
use wadm.Examples.{texts, hosts, east, west, scaler_of, hello_on, instances_of, store_of}

abbrev scaler : ComponentSpreadScaler
scaler = scaler_of 5 (east ∷ west ∷ []) ((east, 2) ∷ (west, 3) ∷ [])

abbrev running : Map ℕ
running = ("h1", 3) ∷ ("h2", 4) ∷ []

running-IsRunning : IsRunning running
running-IsRunning = ((omega arith, omega arith), ((omega arith, omega arith), tt))

scale_down_exact_example :
    let commands = spread_commands {x = texts} scaler (east, 2) [] running in
    (map target_host commands ≡ "h1" ∷ "h2" ∷ []) × (sum (map target_count commands) ≡ 2)
scale_down_exact_example =
    scale_down_exact scaler east {x = texts} [] 2 running running-IsRunning (omega arith)
      (omega arith)

abbrev placed : Option Component
placed = some (hello_on (("h1", instances_of "east" 2) ∷ ("h2", instances_of "west" 3) ∷ []))

reconcile_with-deployed_iff_example :
    let (commands, status) = reconcile_with scaler placed hosts in
    ((status.status_type ≡ deployed) ↔ (
      (removals scaler hosts placed ≡ [])
      × All (IsMet scaler hosts placed) scaler.spread_requirements
      × (conflict scaler hosts placed ≡ none)))
    × (status.status_type ≡ deployed → commands ≡ [])
reconcile_with-deployed_iff_example = reconcile_with-deployed_iff scaler hosts placed

placed_small : (c : Component) → ok placed ≡ ok (some c) → instance_total c.instances < usize_mod
placed_small c e =
    let same : hello_on (("h1", instances_of "east" 2) ∷ ("h2", instances_of "west" 3) ∷ []) ≡ c =
      cc in
    subst (λ d. instance_total d.instances < usize_mod) same (omega arith)

abbrev stops : List Command
stops =
    scale scaler "h2" 0 (spreadscaler_annotations "west" "hello-scaler")
    ∷ scale scaler "h1" 0 (spreadscaler_annotations "east" "hello-scaler")
    ∷ []

stops_lem : cleanup (store_of placed hosts) scaler ≡ some (ok stops)
unfolding cleanup compute_spread sort_by_weight insert_by_weight sum_usize compute_ineligible_hosts
    shares eligible_hosts satisfies lookup detect_spread_requirement_conflicts insert
    running_per_host
stops_lem = refl

cleanup-IsStop_example : All (IsStop scaler) stops
cleanup-IsStop_example =
    cleanup-IsStop (store_of placed hosts) scaler stops (omega arith) placed_small stops_lem
