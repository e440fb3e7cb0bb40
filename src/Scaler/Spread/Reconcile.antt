-- ===== src/Scaler/Spread/Reconcile.antt =====
-- `ComponentSpreadScaler` of crates/wadm/src/scaler/spreadscaler/mod.rs: `reconcile` on what it
-- has read from the store. Its result is the commands and the status that it leaves.
pub mod Stopping
pub mod Satisfied
use Prim.Native.Nat.{compare, Ordering}
use wadm.Prelude.{
  ℕ, ◌+◌, ◌-◌, ◌%◌, ◌^◌, min, String, Bool, true, false, ◌&&◌, Option, none, some, List, [], ◌∷◌,
  ◌++◌, Map, lookup, insert, contains_key, contains, ltb, if◌then◌else◌, all, any, is_empty, length,
  map, filter_map, flat_map, head?, usize_mod, Message, literal, format, join, str, num, Result, ok,
  err, ◌>>=◌, ◌==◌,
}
use wadm.External.{External}
use wadm.Manifest.{Spread, SpreadScalerProperty, TraitProperty, spread_scaler}
use wadm.Api.{StatusInfo, deployed, failed, reconciling}
use wadm.Storage.{Component, Host, WadmComponentInfo, ReadStore}
use wadm.Event.{Event, component_scaled, host_started, host_stopped, host_heartbeat, config_set}
use wadm.Command.{Command, ScaleComponent, scale_component}
use wadm.Scaler.Spread.Weights.{sum_usize, compute_spread}
use wadm.Scaler.Spread.Hosts.{
  has_value, satisfies, spreadscaler_annotations, eligible_hosts, compute_ineligible_hosts,
}
use wadm.Scaler.Spread.Conflicts.{detect_spread_requirement_conflicts}

pub record ComponentSpreadConfig : Type 0 where
  pub component_reference : String
  pub component_id : String
  pub lattice_id : String
  pub model_name : String
  pub spread_config : SpreadScalerProperty

pub record ComponentSpreadScaler : Type 0 where
  pub spread_config : ComponentSpreadConfig
  pub spread_requirements : List (Spread × ℕ)
  pub id : String
  pub config : List String

-- Unsigned subtraction as the machine does it.
unfoldable pub sub_usize : ℕ → ℕ → ℕ
sub_usize a b = (a + usize_mod - b) % usize_mod

abbrev pub status_info : Message → StatusInfo
status_info m = record { status_type = failed; message = m }

abbrev pub scale : ComponentSpreadScaler → String → ℕ → List (String × String) → Command
scale s host_id count annotations = scale_component (record {
  component_id = s.spread_config.component_id;
  host_id = host_id;
  count = count % 2 ^ 32;
  reference = s.spread_config.component_reference;
  model_name = s.spread_config.model_name;
  annotations = annotations;
  config = s.config;
})

-- Commands that take the component off the hosts that it may not run on.
unfoldable pub remove_ineligible :
    {x : External} → ComponentSpreadScaler → Map (Host x) → List Command
remove_ineligible s [] = []
remove_ineligible s ((host_id, host) ∷ rest) =
    let later = remove_ineligible s rest in
    if contains_key s.spread_config.component_id host.components
    then scale s host_id 0 [] ∷ later
    else later

-- The instances on one host that carry the annotations of this spread.
unfoldable pub managed_count : Map String → List WadmComponentInfo → List ℕ
managed_count wanted [] = []
managed_count wanted (info ∷ rest) =
    let later = managed_count wanted rest in
    if all (has_value info.annotations) wanted then info.count ∷ later else later

-- Host by host, leaving out those with none.
unfoldable pub running_per_host : Map String → Map (List WadmComponentInfo) → Map ℕ
unfolding managed_count
running_per_host wanted [] = []
running_per_host wanted ((host_id, infos) ∷ rest) =
    let count = sum_usize 0 (managed_count wanted infos) in
    let later = running_per_host wanted rest in
    if ltb 0 count then (host_id, count) ∷ later else later

abbrev pub running_components_per_host : ComponentSpreadScaler → Spread → Option Component → Map ℕ
running_components_per_host s spread component = elim component [
  | none ↦ []
  | some c ↦ running_per_host (spreadscaler_annotations spread.name s.id) c.instances
]

abbrev pub values : Map ℕ → List ℕ
values = map (λ e. e.1)

-- The fold that stops instances, host by host.
unfoldable pub stop_instances : ComponentSpreadScaler → Spread → ℕ → ℕ → Map ℕ → List Command
unfolding sub_usize
stop_instances s spread count_to_stop current_stopped [] = []
stop_instances s spread count_to_stop current_stopped ((host_id, instance_count) ∷ rest) =
    let remaining_to_stop = sub_usize count_to_stop current_stopped in
    let count = instance_count - remaining_to_stop in
    let stopped = (current_stopped + min instance_count remaining_to_stop) % usize_mod in
    let later =
      stop_instances s spread count_to_stop
        (if ltb 0 instance_count then stopped else current_stopped) rest in
    if ltb 0 instance_count
    then scale s host_id count (spreadscaler_annotations spread.name s.id) ∷ later
    else later

-- What one spread needs, given the hosts that it may use and what runs: the `match` on `cmp`.
unfoldable pub spread_commands :
    {x : External} → ComponentSpreadScaler → Spread × ℕ → Map (Host x) → Map ℕ → List Command
unfolding stop_instances
spread_commands s (spread, count) eligible running =
    let current_count = sum_usize 0 (values running) in
    elim (compare current_count count) [
      | Ordering.eq ↦ []
      | Ordering.lt ↦ elim eligible [
        | [] ↦ []
        | e ∷ _ ↦ scale s e.0 count (spreadscaler_annotations spread.name s.id) ∷ []
      ]
      | Ordering.gt ↦ stop_instances s spread (current_count - count) 0 running
    ]

-- `component_instances_per_eligible_host`
unfoldable pub add_running : Map ℕ → Map ℕ → Map ℕ
add_running [] acc = acc
add_running ((host_id, count) ∷ rest) acc =
    let total : ℕ = elim (lookup host_id acc) [ none ↦ count | some e ↦ (e + count) % usize_mod ] in
    add_running rest (insert host_id total acc)

pub record Pass : Type 0 where
  pub commands : List Command
  pub spread_status : List Message
  pub instances : Map ℕ

-- The body of the closure over the requirements, by whether a host is eligible.
unfoldable pub add_spread :
    {x : External} → ComponentSpreadScaler → Spread × ℕ → Map (Host x) → Map ℕ → Pass → Pass
add_spread s (spread, count) [] running p = record p {
  spread_status =
      p.spread_status
      ++ format "Could not satisfy spread {} for {}, 0/1 eligible hosts found."
          (str spread.name ∷ str s.spread_config.component_reference ∷ [])
        ∷ [];
}
add_spread s (spread, count) (e ∷ es) running p = record p {
  commands = p.commands ++ spread_commands s (spread, count) (e ∷ es) running;
  instances = add_running running p.instances;
}

unfoldable pub spread_step :
    {x : External}
    → ComponentSpreadScaler
    → Map (Host x)
    → Option Component
    → Spread × ℕ
    → Pass
    → Pass
unfolding spread_commands add_running add_spread
spread_step s hosts component (spread, count) =
    add_spread s (spread, count) (eligible_hosts hosts spread)
      (running_components_per_host s spread component)

unfoldable pub spread_pass :
    {x : External}
    → ComponentSpreadScaler
    → Map (Host x)
    → Option Component
    → List (Spread × ℕ)
    → Pass
    → Pass
spread_pass s hosts component [] p = p
spread_pass s hosts component (r ∷ rest) p =
    spread_pass s hosts component rest (spread_step s hosts component r p)

unfoldable pub final_status : List Message → List Command → StatusInfo
final_status [] [] = record { status_type = deployed; message = [] }
final_status [] (c ∷ cs) = record {
  status_type = reconciling;
  message = format "Scaling component on {} host(s)" (num (length (c ∷ cs)) ∷ []);
}
final_status (m ∷ ms) _ = status_info (join " " (m ∷ ms))

-- What `reconcile` returns: removals come first, then a conflict stops it.
unfoldable pub conclude : List Command → Option Message → Pass → List Command × StatusInfo
conclude (c ∷ cs) conflict p = (
  c ∷ cs,
  record {
    status_type = reconciling;
    message = literal "Found components running on ineligible hosts, removing them.";
  },
)
conclude [] (some message) p = ([], status_info message)
conclude [] none p = (p.commands, final_status p.spread_status p.commands)

-- `reconcile` on what it reads from the store.
unfoldable pub reconcile_with :
    {x : External}
    → ComponentSpreadScaler
    → Option Component
    → Map (Host x)
    → List Command × StatusInfo
unfolding remove_ineligible spread_step spread_pass final_status conclude
reconcile_with s component hosts =
    let ineligible = compute_ineligible_hosts hosts (map (λ r. r.0) s.spread_requirements) in
    let p =
      spread_pass s hosts component s.spread_requirements
        (record { commands = []; spread_status = []; instances = [] }) in
    conclude (remove_ineligible s ineligible)
      (detect_spread_requirement_conflicts s.spread_requirements hosts p.instances p.commands) p
