-- ===== src/Storage/Conversions.antt =====
-- The conversions of events into state: the impls of `From` in crates/wadm/src/storage/state.rs.
-- `now` is the time of the call.
use wadm.Prelude.{ℕ, String, Option, none, some, [], ◌∷◌, Map, map}
use wadm.External.{External}
use wadm.Event.{ComponentScaled, ProviderStarted, ProviderInfo, HostStarted, HostHeartbeat}
use wadm.Storage.{Component, Host, Provider, WadmComponentInfo}
use wadm.Storage.Sets.{set_from_iter, map_from_iter, same_provider}

abbrev pub info_of : ComponentScaled → WadmComponentInfo
info_of e = record { annotations = e.annotations; count = e.max_instances }

unfoldable pub component_of : ComponentScaled → Component
component_of e = record {
  id = e.component_id;
  name = elim e.claims [ none ↦ "" | some c ↦ c.name ];
  issuer = elim e.claims [ none ↦ "" | some c ↦ c.issuer ];
  instances = (e.host_id, info_of e ∷ []) ∷ [];
  reference = e.image_ref;
}

unfoldable pub provider_of : ProviderStarted → Provider
provider_of e = record {
  id = e.provider_id;
  name = elim e.claims [ none ↦ "" | some c ↦ c.name ];
  issuer = elim e.claims [ none ↦ "" | some c ↦ c.issuer ];
  reference = e.image_ref;
  hosts = [];
}

-- `unwrap_or_default` of a text and of a map
abbrev pub or_empty : Option String → String
or_empty o = elim o [ none ↦ "" | some s ↦ s ]

abbrev pub or_no_entries : Option (Map String) → Map String
or_no_entries o = elim o [ none ↦ [] | some m ↦ m ]

module _ (x : External) where
  unfoldable pub host_of_started : ℕ → HostStarted → Host x
  host_of_started now e = record {
    components = [];
    friendly_name = e.friendly_name;
    labels = e.labels;
    providers = [];
    uptime_seconds = 0;
    version = none;
    id = e.id;
    last_seen = now;
  }

  abbrev pub provider_info_of : x.ProviderDescription → ProviderInfo
  provider_info_of p = record {
    provider_id = x.provider_id p;
    provider_ref = or_empty (x.provider_image_ref p);
    annotations = or_no_entries (x.provider_annotations p);
  }

  abbrev pub component_entry_of : x.ComponentDescription → String × ℕ
  component_entry_of c = (x.component_id c, x.component_max_instances c)

  unfoldable pub host_of_heartbeat : ℕ → HostHeartbeat x → Host x
  host_of_heartbeat now e = record {
    components = map_from_iter [] (map component_entry_of e.components);
    friendly_name = e.friendly_name;
    labels = e.labels;
    providers = set_from_iter same_provider [] (map provider_info_of e.providers);
    uptime_seconds = e.uptime_seconds;
    version = some e.version;
    id = e.host_id;
    last_seen = now;
  }
