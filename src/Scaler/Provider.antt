-- ===== src/Scaler/Provider.antt =====
-- What the scalers for providers share: crates/wadm/src/scaler/spreadscaler/provider.rs, whose code
-- crates/wadm/src/scaler/daemonscaler/provider.rs repeats.
pub mod Spreading
pub mod Daemon
pub mod Counts
pub mod Cleanup
use Prim.Native.Nat.{compare, Ordering}
use wadm.Prelude.{
  ℕ, ◌-◌, String, Bool, true, false, not, Option, none, some, is_some, List, [], ◌∷◌, ◌++◌, Map,
  map, ltb, if◌then◌else◌, any, filter, filter_map, is_empty, length, take, contains, Message,
  literal, format, join, str, num, Result, ok, err, ◌>>=◌, ◌==◌,
}
use wadm.Prelude.Texts.{text_starts_with}
use wadm.External.{External}
use wadm.Manifest.{Spread, SpreadScalerProperty, TraitProperty, spread_scaler}
use wadm.Api.{StatusInfo, deployed, failed, reconciling}
use wadm.Storage.{Provider, ProviderStatus, Host, ReadStore}
use wadm.Storage.Sets.{same_provider, set_get}
use wadm.Event.{
  ProviderInfo, Event, provider_started, provider_stopped, host_started, host_stopped,
  host_heartbeat, provider_health_check_failed, provider_health_check_passed, config_set,
}
use wadm.Command.{Command, start_provider, stop_provider, scaler_key}
use wadm.Scaler.Spread.Weights.{compute_spread}
use wadm.Scaler.Spread.Hosts.{
  has_value, satisfies, spreadscaler_annotations, eligible_hosts, compute_ineligible_hosts,
}

pub record ProviderSpreadConfig : Type 0 where
  pub lattice_id : String
  pub provider_id : String
  pub provider_reference : String
  pub model_name : String
  pub spread_config : SpreadScalerProperty
  pub provider_config : List String

abbrev pub stop : ProviderSpreadConfig → Map String → String → Command
stop c annotations host_id = stop_provider (record {
  provider_id = c.provider_id;
  host_id = host_id;
  model_name = c.model_name;
  annotations = annotations;
})

abbrev pub start : ProviderSpreadConfig → Map String → String → Command
start c annotations host_id = start_provider (record {
  reference = c.provider_reference;
  provider_id = c.provider_id;
  host_id = host_id;
  model_name = c.model_name;
  config = c.provider_config;
  annotations = annotations;
})

abbrev is_failed : ProviderStatus → Bool
is_failed ProviderStatus.failed = true
is_failed _ = false

unfoldable pub unhealthy_providers : Option Provider → ℕ
unhealthy_providers none = 0
unhealthy_providers (some p) = length (filter (λ e. is_failed e.1) p.hosts)

-- Only the first format is looked at: no message of these scalers starts with an argument.
abbrev is_unhealthy : Message → Bool
is_unhealthy [] = false
is_unhealthy (f ∷ _) = text_starts_with "Unhealthy provider on" f.format

-- The status after a health check.
unfoldable pub checked_status : ℕ → StatusInfo → StatusInfo
checked_status n s = elim s.status_type [
  | deployed ↦
      if ltb 0 n
      then record {
        status_type = failed;
        message = format "Unhealthy provider on {} host(s)" (num n ∷ []);
      }
      else s
  | failed ↦
      if ltb 0 n
      then s
      else if is_unhealthy s.message
      then record { status_type = deployed; message = literal "" }
      else s
  | _ ↦ s
]

unfoldable pub final_status : List Message → List Command → StatusInfo
final_status [] [] = record { status_type = deployed; message = literal "" }
final_status [] (c ∷ cs) = record {
  status_type = reconciling;
  message = format "Scaling provider on {} host(s)" (num (length (c ∷ cs)) ∷ []);
}
final_status (m ∷ ms) _ = record { status_type = failed; message = join " " (m ∷ ms) }

-- Removals come first.
unfoldable pub conclude : List Command → List Command × List Message → List Command × StatusInfo
conclude (c ∷ cs) results = (
  c ∷ cs,
  record {
    status_type = reconciling;
    message = literal "Found providers running on ineligible hosts, removing them.";
  },
)
conclude [] (commands, failures) = (commands, final_status failures commands)

-- What the health check leaves, by what the store answers.
unfoldable pub on_health :
    Result (Option Provider) → StatusInfo → Result (List Command) × StatusInfo
on_health (err e) status = (err e, status)
on_health (ok provider) status = (ok [], checked_status (unhealthy_providers provider) status)

module _ {x : External} where
  -- The provider on the host, which is found by its identifier alone.
  abbrev pub on_host : ProviderSpreadConfig → Host x → Option ProviderInfo
  on_host c host =
      set_get same_provider
        (record {
          provider_id = c.provider_id;
          provider_ref = c.provider_reference;
          annotations = [];
        })
        host.providers

  abbrev pub has_annotations : ProviderSpreadConfig → Map String → Host x → Bool
  has_annotations c wanted host = elim (on_host c host) [
    | none ↦ false
    | some p ↦ satisfies p.annotations wanted
  ]

  abbrev pub is_managed : ProviderSpreadConfig → String → Host x → Bool
  is_managed c id host = elim (on_host c host) [
    | none ↦ false
    | some p ↦ has_value p.annotations (scaler_key, id)
  ]

  unfoldable pub remove_ineligible : ProviderSpreadConfig → String → Map (Host x) → List Command
  remove_ineligible c id hosts =
      map (λ e. stop c [] e.1.id) (filter (λ e. is_managed c id e.1) hosts)

  module _ (store : ReadStore x) where
    -- The handler of both scalers, by their spreads and by what `reconcile` does.
    unfoldable pub handle_with :
        ProviderSpreadConfig
        → List Spread
        → Result (List Command) × StatusInfo
        → StatusInfo
        → Event x
        → Result (List Command) × StatusInfo
    handle_with c spreads reconciled status e =
        let provider_event : String → Result (List Command) × StatusInfo =
          λ id. if id == c.provider_id then reconciled else (ok [], status) in
        let host_event : Map String → Result (List Command) × StatusInfo = λ labels.
          if any (λ p. satisfies labels p.requirements) spreads
          then reconciled
          else (ok [], status) in
        let health_event : String → Result (List Command) × StatusInfo = λ id.
          if id == c.provider_id
          then on_health (store.get_provider c.lattice_id c.provider_id) status
          else (ok [], status) in
        elim e [
          | provider_started evt ↦ provider_event evt.provider_id
          | provider_stopped evt ↦ provider_event evt.provider_id
          | host_stopped evt ↦ host_event evt.labels
          | host_started evt ↦ host_event evt.labels
          | host_heartbeat evt ↦ host_event evt.labels
          | provider_health_check_failed info ↦ health_event info.provider_id
          | provider_health_check_passed info ↦ health_event info.provider_id
          | config_set config_name ↦
              if contains config_name c.provider_config then reconciled else (ok [], status)
          | _ ↦ (ok [], status)
        ]
