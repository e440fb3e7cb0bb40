-- ===== src/Scaler/Provider/Spreading.antt =====
-- `ProviderSpreadScaler` of crates/wadm/src/scaler/spreadscaler/provider.rs.
use Prim.Native.Nat.{compare, Ordering}
use wadm.Prelude.{
  ℕ, ◌-◌, String, not, Option, none, some, is_some, List, [], ◌∷◌, ◌++◌, Map, map, ltb,
  if◌then◌else◌, filter, is_empty, length, take, Message, literal, format, str, num, Result, ok,
  err,
}
use wadm.External.{External}
use wadm.Manifest.{Spread, TraitProperty, spread_scaler}
use wadm.Api.{StatusInfo, reconciling}
use wadm.Storage.{Host, ReadStore}
use wadm.Event.{Event}
use wadm.Command.{Command}
use wadm.Scaler.Spread.Weights.{compute_spread}
use wadm.Scaler.Spread.Hosts.{spreadscaler_annotations, eligible_hosts, compute_ineligible_hosts}
use wadm.Scaler.Provider.{
  ProviderSpreadConfig, stop, start, on_host, has_annotations, remove_ineligible, conclude,
  handle_with,
}

-- The identifier that the code keeps in a cell of its own is never read.
pub record ProviderSpreadScaler : Type 0 where
  pub config : ProviderSpreadConfig
  pub spread_requirements : List (Spread × ℕ)
  pub id : String
  pub status : StatusInfo

module _ {x : External} where
  -- Hosts that run the provider, whoever started it, then those of them that run it for the spread.
  abbrev pub running_hosts : ProviderSpreadConfig → Map (Host x) → Map (Host x)
  running_hosts c hosts = filter (λ e. is_some (on_host c e.1)) hosts

  abbrev pub free_hosts : ProviderSpreadConfig → Map (Host x) → Map (Host x)
  free_hosts c hosts = filter (λ e. not (is_some (on_host c e.1))) hosts

  abbrev pub running_for_spread :
      ProviderSpreadConfig → String → Spread → Map (Host x) → Map (Host x)
  running_for_spread c id spread hosts =
      filter (λ e. has_annotations c (spreadscaler_annotations spread.name id) e.1)
        (running_hosts c hosts)

  abbrev pub running_for_other :
      ProviderSpreadConfig → String → Spread → Map (Host x) → Map (Host x)
  running_for_other c id spread hosts =
      filter (λ e. not (has_annotations c (spreadscaler_annotations spread.name id) e.1))
        (running_hosts c hosts)

  -- More run than are wanted: those of the spread are stopped.
  abbrev pub stop_some : ProviderSpreadConfig → String → Spread → ℕ → Map (Host x) → List Command
  stop_some c id spread num_to_stop hosts = take num_to_stop (
      map (λ e. stop c (spreadscaler_annotations spread.name id) e.1.id)
        (running_for_spread c id spread hosts))

  -- Fewer run than are wanted.
  abbrev pub start_some : ProviderSpreadConfig → String → Spread → ℕ → Map (Host x) → List Command
  start_some c id spread num_to_start hosts = take num_to_start (
      map (λ e. start c (spreadscaler_annotations spread.name id) e.1.id)
        (free_hosts c (free_hosts c hosts)))

  -- The commands of one spread and its failure, by the hosts that it allows.
  unfoldable pub spread_result :
      ProviderSpreadConfig → String → Spread × ℕ → Map (Host x) → List Command × List Message
  spread_result c id (spread, count) hosts =
      let current = length (running_hosts c hosts) in
      let num_to_start = count - current - length (running_for_other c id spread hosts) in
      let commands = start_some c id spread num_to_start hosts in
      let ours = running_for_spread c id spread hosts in
      elim (compare current count) [
        | Ordering.gt ↦
            (if is_empty ours then [] else stop_some c id spread (current - count) hosts, [])
        | Ordering.lt ↦ (
          commands,
          if ltb (length commands) num_to_start
              then format "Could not satisfy spread {} for {}, {}/{} eligible hosts found."
                  (str spread.name ∷ str c.provider_reference ∷ num (length ours) ∷ num count ∷ [])
                ∷ []
              else [],
        )
        | Ordering.eq ↦ ([], [])
      ]

  unfoldable pub spread_results :
      ProviderSpreadConfig → String → Map (Host x) → List (Spread × ℕ) → List Command × List Message
  spread_results c id hosts [] = ([], [])
  spread_results c id hosts ((spread, count) ∷ rest) =
      let (commands, failures) = spread_result c id (spread, count) (eligible_hosts hosts spread) in
      let (later_commands, later_failures) = spread_results c id hosts rest in
      (commands ++ later_commands, failures ++ later_failures)

  unfoldable pub reconcile_with : ProviderSpreadScaler → Map (Host x) → List Command × StatusInfo
  reconcile_with s hosts =
      let ineligible = compute_ineligible_hosts hosts (map (λ r. r.0) s.spread_requirements) in
      conclude (remove_ineligible s.config s.id ineligible)
        (spread_results s.config s.id hosts s.spread_requirements)

  module _ (store : ReadStore x) where
    -- A store that fails leaves the status as it was.
    unfoldable pub reconcile : ProviderSpreadScaler → Result (List Command) × StatusInfo
    reconcile s = elim (store.list_hosts s.config.lattice_id) [
      | err e ↦ (err e, s.status)
      | ok hosts ↦ let (commands, status) = reconcile_with s hosts in (ok commands, status)
    ]

    unfoldable pub status : ProviderSpreadScaler → StatusInfo
    status s = (reconcile s).1

    unfoldable pub handle_event :
        ProviderSpreadScaler → Event x → Result (List Command) × StatusInfo
    handle_event s e =
        handle_with store s.config (map (λ r. r.0) s.spread_requirements) (reconcile s) s.status e

    -- A copy that asks for no instance reconciles; `none` is the panic of `compute_spread`.
    unfoldable pub cleanup : ProviderSpreadScaler → Option (Result (List Command))
    cleanup s =
        let config = record (s.config) {
          spread_config = record (s.config.spread_config) { instances = 0 };
        } in
        elim (compute_spread config.spread_config) [
          | none ↦ none
          | some requirements ↦
              some
                (reconcile (record {
                  config = config;
                  spread_requirements = requirements;
                  id = s.id;
                  status = record { status_type = reconciling; message = literal "" };
                })).0
        ]

    unfoldable pub update_config :
        TraitProperty x.Value
        → ProviderSpreadScaler
        → Option (Result (List Command) × ProviderSpreadScaler)
    update_config (spread_scaler prop) s = elim (compute_spread prop) [
      | none ↦ none
      | some requirements ↦
          let t = record s {
            config = record (s.config) { spread_config = prop };
            spread_requirements = requirements;
          } in
          let (r, status) = reconcile t in some (r, record t { status = status })
    ]
    update_config _ s = some (err "Given config was not a spread scaler config object", s)
