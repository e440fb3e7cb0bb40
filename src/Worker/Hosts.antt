-- ===== src/Worker/Hosts.antt =====
-- `handle_host_started` and `handle_host_stopped`.
use wadm.Prelude.{
  ℕ, String, Bool, not, Option, none, some, Map, lookup, remove, contains_key, keys, is_empty,
  filter, filter_map, if◌then◌else◌,
}
use wadm.Prelude.Actions.{Action, pure, gets, ◌>>=◌, ◌>>◌}
use wadm.External.{External}
use wadm.Event.{HostStarted, HostStopped, ProviderInfo}
use wadm.Storage.{Component, Host, Provider}
use wadm.Storage.Conversions.{host_of_started}
use wadm.Storage.Store.{Store, store, delete}

-- A provider of the stopped host that did run there.
unfoldable pub stop_provider_on : String → Map Provider → ProviderInfo → Option (String × Provider)
stop_provider_on host_id all_providers info = elim (lookup info.provider_id all_providers) [
  | none ↦ none
  | some p ↦ elim (lookup host_id p.hosts) [
    | none ↦ none
    | some _ ↦ some (info.provider_id, record p { hosts = remove host_id p.hosts })
  ]
]

abbrev pub still_runs : String × Component → Bool
still_runs e = not (is_empty e.1.instances)

abbrev pub still_hosted : String × Provider → Bool
still_hosted e = not (is_empty e.1.hosts)

module _ {x : External} where
  -- A component of the stopped host, without its instances there.
  unfoldable pub stop_component : Host x → String × Component → Option (String × Component)
  stop_component host e =
      if contains_key e.0 host.components
      then some (e.0, record (e.1) { instances = remove host.id e.1.instances })
      else none

  module _ {σ : Type 0} (db : Store x σ) where
    unfoldable pub handle_host_started : ℕ → HostStarted → Action σ (Unit {0})
    handle_host_started now e = store db.hosts e.id (host_of_started x now e)

    unfoldable pub stop_components : Host x → Action σ (Unit {0})
    stop_components current = do
      all_components ← gets db.components.list
      let stopped = filter_map (stop_component current) all_components
      db.components.store_many (filter still_runs stopped)
      db.components.delete_many (keys (filter (λ c. not (still_runs c)) stopped))

    unfoldable pub stop_providers : String → Host x → Action σ (Unit {0})
    stop_providers id current = do
      all_providers ← gets db.providers.list
      let stopped = filter_map (stop_provider_on id all_providers) current.providers
      db.providers.store_many (filter still_hosted stopped)
      db.providers.delete_many (keys (filter (λ p. not (still_hosted p)) stopped))

    -- The host itself goes last, so that a retry after a failure still finds it.
    unfoldable pub stop_host : String → Host x → Action σ (Unit {0})
    stop_host id current = do stop_components current; stop_providers id current; delete db.hosts id

    unfoldable pub stop_found : String → Option (Host x) → Action σ (Unit {0})
    stop_found id none = pure tt
    stop_found id (some current) = stop_host id current

    unfoldable pub handle_host_stopped : HostStopped → Action σ (Unit {0})
    handle_host_stopped e = do found ← gets (db.hosts.get e.id); stop_found e.id found
