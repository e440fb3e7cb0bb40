-- ===== src/Storage/Reaper.antt =====
-- The reaper: `Undertaker` of crates/wadm/src/storage/reaper.rs. A tick removes the hosts that were
-- not seen for two intervals, and what is stored as running where it cannot run. A failure is only
-- logged, and leaves the rest to the next tick.
pub mod Entries
pub mod Reaped
use wadm.Prelude.{
  ℕ, ◌+◌, ◌*◌, String, Bool, true, false, not, Option, none, some, List, [], ◌∷◌, Map, lookup, keys,
  contains_key, filter, filter_map, map, length, is_empty, ltb, eqb, Result, ok, err, if◌then◌else◌,
}
use wadm.Prelude.Actions.{Action, pure, gets, ◌>>=◌, ◌>>◌}
use wadm.External.{External}
use wadm.Storage.{Component, Host, Provider}
use wadm.Storage.Store.{Store}

abbrev pub has_instances : String × Component → Bool
has_instances e = not (is_empty e.1.instances)

abbrev pub has_hosts : String × Provider → Bool
has_hosts e = not (is_empty e.1.hosts)

module _ {x : External} where
  -- Times and the interval are in milliseconds; a host that was seen later than now is not stale.
  abbrev pub is_stale : ℕ → ℕ → Host x → Bool
  is_stale interval now host = ltb (interval * 2 + host.last_seen) now

  -- The host is stored, and its inventory lists the component.
  abbrev pub lists : Map (Host x) → String → String → Bool
  lists hosts component_id host_id = elim (lookup host_id hosts) [
    | none ↦ false
    | some host ↦ contains_key component_id host.components
  ]

  unfoldable pub reap_component : Map (Host x) → Component → Component
  reap_component hosts c = record c { instances = filter (λ e. lists hosts c.id e.0) c.instances }

  unfoldable pub reap_provider : Map (Host x) → String × Provider → Option (String × Provider)
  reap_provider hosts e =
      let kept = filter (λ h. contains_key h.0 hosts) e.1.hosts in
      if eqb (length e.1.hosts) (length kept)
      then none
      else some (e.0, record (e.1) { hosts = kept })

  module _ {σ : Type 0} (db : Store x σ) where
    unfoldable pub reap_hosts : ℕ → ℕ → Action σ (Unit {0})
    reap_hosts interval now = do
      hosts ← gets db.hosts.list
      db.hosts.delete_many (keys (filter (λ e. is_stale interval now e.1) hosts))

    unfoldable pub reap_components : Map (Host x) → Action σ (Unit {0})
    reap_components hosts = do
      components ← gets db.components.list
      let reaped = map (λ e. (e.0, reap_component hosts e.1)) components
      db.components.store_many (filter has_instances reaped)
      db.components.delete_many (keys (filter (λ e. not (has_instances e)) reaped))

    unfoldable pub reap_providers : Map (Host x) → Action σ (Unit {0})
    reap_providers hosts = do
      providers ← gets db.providers.list
      let reaped = filter_map (reap_provider hosts) providers
      db.providers.store_many (filter has_hosts reaped)
      db.providers.delete_many (keys (filter (λ e. not (has_hosts e)) reaped))

    unfoldable pub reap_listed : Result (Map (Host x)) → σ → σ
    reap_listed (err e) s = s
    reap_listed (ok hosts) s = (reap_providers hosts (reap_components hosts s).1).1

    -- One tick.
    unfoldable pub reap : ℕ → ℕ → σ → σ
    reap interval now s = let t = (reap_hosts interval now s).1 in reap_listed (db.hosts.list t) t
