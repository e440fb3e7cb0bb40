-- ===== src/Worker/Providers.antt =====
-- `handle_provider_started`, `handle_provider_stopped` and `handle_provider_health_check`.
use wadm.Prelude.{
  String, Bool, true, false, ◌||◌, Option, none, some, [], ◌∷◌, lookup, insert, remove, is_empty,
  if◌then◌else◌, ◌==◌,
}
use wadm.Prelude.Actions.{Action, pure, gets, ◌>>=◌, ◌>>◌}
use wadm.External.{External}
use wadm.Event.{ProviderStarted, ProviderStopped, ProviderHealthCheckInfo, ProviderInfo}
use wadm.Storage.{Host, Provider, ProviderStatus, pending, running, failed}
use wadm.Storage.Sets.{same_provider, set_remove, set_replace}
use wadm.Storage.Conversions.{provider_of}
use wadm.Storage.Store.{Store, store, delete}
use wadm.Worker.Components.{update_host}

-- Missing fields are filled in.
unfoldable pub complete_provider : ProviderStarted → Provider → Provider
complete_provider e p =
    if p.issuer == "" || p.reference == ""
    then record p { issuer = (provider_of e).issuer; reference = (provider_of e).reference }
    else p

-- The provider as it is stored, and whether its host has to be updated.
unfoldable pub start_provider : ProviderStarted → Option Provider → Provider × Bool
start_provider e none = (record (provider_of e) { hosts = (e.host_id, pending) ∷ [] }, true)
start_provider e (some p) = elim (lookup e.host_id p.hosts) [
  | some _ ↦ (complete_provider e p, false)
  | none ↦ (complete_provider e (record p { hosts = insert e.host_id pending p.hosts }), true)
]

abbrev pub started_info : ProviderStarted → ProviderInfo
started_info e = record {
  provider_id = e.provider_id;
  provider_ref = e.image_ref;
  annotations = e.annotations;
}

-- Sets of providers compare the identifier only.
abbrev pub stopped_info : ProviderStopped → ProviderInfo
stopped_info e = record { provider_id = e.provider_id; provider_ref = ""; annotations = [] }

unfoldable pub health_status : Option ProviderStatus → Option Bool → Option ProviderStatus
health_status _ (some true) = some failed
health_status _ (some false) = some running
health_status (some pending) none = some running
health_status none none = some running
health_status (some running) none = none
health_status (some failed) none = none

unfoldable pub check_provider : ProviderHealthCheckInfo → Option Bool → Provider → Provider
check_provider e failing p = elim (health_status (lookup e.host_id p.hosts) failing) [
  | none ↦ p
  | some status ↦ record p { hosts = insert e.host_id status p.hosts }
]

abbrev pub unknown_provider : String → Provider
unknown_provider id = record { id = id; name = ""; issuer = ""; reference = ""; hosts = [] }

module _ {x : External} where
  unfoldable pub add_provider : ProviderStarted → Host x → Host x
  add_provider e host = record host {
    providers = set_replace same_provider (started_info e) host.providers;
  }

  unfoldable pub remove_provider : ProviderStopped → Host x → Host x
  remove_provider e host = record host {
    providers = set_remove same_provider (stopped_info e) host.providers;
  }

  module _ {σ : Type 0} (db : Store x σ) where
    unfoldable pub handle_provider_started : ProviderStarted → Action σ (Unit {0})
    handle_provider_started e = do
      current ← gets (db.providers.get e.provider_id)
      host ← gets (db.hosts.get e.host_id)
      update_host db (add_provider e) (if (start_provider e current).1 then host else none)
      store db.providers e.provider_id (start_provider e current).0

    unfoldable pub stop_provider : ProviderStopped → Option Provider → Action σ (Unit {0})
    stop_provider e none = pure tt
    stop_provider e (some p) = elim (lookup e.host_id p.hosts) [
      | none ↦ pure tt
      | some _ ↦
          let hosts = remove e.host_id p.hosts in
          if is_empty hosts
          then delete db.providers e.provider_id
          else store db.providers e.provider_id (record p { hosts = hosts })
    ]

    unfoldable pub handle_provider_stopped : ProviderStopped → Action σ (Unit {0})
    handle_provider_stopped e = do
      host ← gets (db.hosts.get e.host_id)
      update_host db (remove_provider e) host
      current ← gets (db.providers.get e.provider_id)
      stop_provider e current

    unfoldable pub handle_provider_health_check :
        ProviderHealthCheckInfo → Option Bool → Action σ (Unit {0})
    handle_provider_health_check e failing = do
      current ← gets (db.providers.get e.provider_id)
      store db.providers e.provider_id (
          check_provider e failing
            (elim current [ none ↦ unknown_provider e.provider_id | some p ↦ p ]))
