-- ===== src/Worker/Heartbeat.antt =====
-- `handle_host_heartbeat`, with `heartbeat_component_update` and `heartbeat_provider_update`.
use wadm.Prelude.{
  ℕ, String, Bool, false, not, ◌&&◌, ◌||◌, Option, none, some, List, [], ◌∷◌, Map, Result, lookup,
  insert, eqb, length, map, filter, filter_map, contains_key, if◌then◌else◌, ◌==◌,
}
use wadm.Prelude.Actions.{Action, gets, ◌>>=◌, ◌>>◌}
use wadm.External.{External}
use wadm.Event.{HostHeartbeat}
use wadm.Event.Matching.{map_eq}
use wadm.Storage.{Component, Provider, WadmComponentInfo, pending}
use wadm.Storage.Conversions.{host_of_heartbeat, or_empty, or_no_entries}
use wadm.Storage.Store.{Store, store}

-- `Claims` of crates/wadm/src/workers/event_helpers.rs
pub record Claims : Type 0 where
  pub name : String
  pub capabilities : List String
  pub issuer : String

-- `HashSet::get` by the annotations
unfoldable pub info_with : Map String → List WadmComponentInfo → Option WadmComponentInfo
info_with annotations [] = none
info_with annotations (i ∷ infos) =
    let later = info_with annotations infos in
    if map_eq annotations i.annotations then some i else later

module _ (x : External) where
  -- The instances on the host agree with the heartbeat. The number of the host's entries is
  -- compared with the number of all hosts, as in the source.
  unfoldable pub same_instances : x.ComponentDescription → Component → List WadmComponentInfo → Bool
  same_instances d c infos =
      eqb (length infos) (length c.instances)
      && (elim (info_with (or_no_entries (x.component_annotations d)) infos) [
        | none ↦ false
        | some i ↦ eqb (x.component_max_instances d) i.count
      ])

  unfoldable pub up_to_date : String → Map Component → x.ComponentDescription → Bool
  up_to_date host_id components d = elim (lookup (x.component_id d) components) [
    | none ↦ false
    | some c ↦ x.component_image_ref d == c.reference && (elim (lookup host_id c.instances) [
      | none ↦ false
      | some infos ↦ same_instances d c infos
    ])
  ]

  abbrev pub heartbeat_info : x.ComponentDescription → WadmComponentInfo
  heartbeat_info d = record {
    annotations = or_no_entries (x.component_annotations d);
    count = x.component_max_instances d;
  }

  -- A component that is not known, from its claims where it has some.
  unfoldable pub new_component : String → Map Claims → x.ComponentDescription → Component
  new_component host_id claims d = record {
    id = x.component_id d;
    name = elim (lookup (x.component_id d) claims) [ none ↦ "" | some c ↦ c.name ];
    issuer = elim (lookup (x.component_id d) claims) [ none ↦ "" | some c ↦ c.issuer ];
    instances = (host_id, heartbeat_info d ∷ []) ∷ [];
    reference = x.component_image_ref d;
  }

  unfoldable pub populate_one :
      Map Component → String → Map Claims → x.ComponentDescription → String × Component
  populate_one components host_id claims d = elim (lookup (x.component_id d) components) [
    | none ↦ (x.component_id d, new_component host_id claims d)
    | some c ↦ (
      x.component_id d,
      record c {
        instances = insert host_id (heartbeat_info d ∷ []) c.instances;
        reference = x.component_image_ref d;
        name = elim (x.component_name d) [ none ↦ c.name | some n ↦ n ];
      },
    )
  ]

  -- A provider of the inventory as it is stored, if it changes.
  unfoldable pub fill_provider :
      String → x.ProviderDescription → Provider → Option (String × Provider)
  fill_provider host_id d p =
      if p.name == "" || p.reference == "" || not (contains_key host_id p.hosts)
      then some (
        x.provider_id d,
        record p {
          name = if p.name == "" then or_empty (x.provider_name d) else p.name;
          reference = if p.reference == "" then or_empty (x.provider_image_ref d) else p.reference;
          hosts = if contains_key host_id p.hosts then p.hosts else insert host_id pending p.hosts;
        },
      )
      else none

  unfoldable pub provider_change :
      String → Map Provider → x.ProviderDescription → Option (String × Provider)
  provider_change host_id providers d = elim (lookup (x.provider_id d) providers) [
    | some p ↦ fill_provider host_id d p
    | none ↦ some (
      x.provider_id d,
      record {
        id = x.provider_id d;
        name = or_empty (x.provider_name d);
        issuer = "";
        reference = or_empty (x.provider_image_ref d);
        hosts = (host_id, pending) ∷ [];
      },
    )
  ]

  module _ {σ : Type 0} (db : Store x σ) where
    unfoldable pub heartbeat_provider_update : HostHeartbeat x → Action σ (Unit {0})
    heartbeat_provider_update e = do
      providers ← gets db.providers.list
      db.providers.store_many (filter_map (provider_change e.host_id providers) e.providers)

    -- `populate_component_info` asks for the claims.
    unfoldable pub heartbeat_component_update :
        (σ → Result (Map Claims)) → HostHeartbeat x → Action σ (Unit {0})
    heartbeat_component_update get_claims e = do
      components ← gets db.components.list
      claims ← gets get_claims
      db.components.store_many (
          map (populate_one components e.host_id claims)
            (filter (λ d. not (up_to_date e.host_id components d)) e.components))

    unfoldable pub handle_host_heartbeat :
        (σ → Result (Map Claims)) → ℕ → HostHeartbeat x → Action σ (Unit {0})
    handle_host_heartbeat get_claims now e = do
      store db.hosts e.host_id (host_of_heartbeat x now e)
      heartbeat_provider_update e
      heartbeat_component_update get_claims e
