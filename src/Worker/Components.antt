-- ===== src/Worker/Components.antt =====
-- `handle_component_scaled`.
use wadm.Prelude.{
  String, Option, none, some, List, [], ◌∷◌, Map, lookup, insert, remove, is_empty, eqb,
  if◌then◌else◌,
}
use wadm.Prelude.Actions.{Action, pure, gets, ◌>>=◌, ◌>>◌}
use wadm.External.{External}
use wadm.Event.{ComponentScaled}
use wadm.Storage.{Component, Host, WadmComponentInfo}
use wadm.Storage.Sets.{same_info, set_remove, set_replace}
use wadm.Storage.Conversions.{info_of, component_of}
use wadm.Storage.Store.{Store, store, delete}

-- The entry of the host: scaled down to nothing, scaled, or started.
unfoldable pub scale_instances :
    ComponentScaled → Map (List WadmComponentInfo) → Map (List WadmComponentInfo)
scale_instances e instances = elim (lookup e.host_id instances) [
  | some current ↦
      if eqb e.max_instances 0
      then insert e.host_id (set_remove same_info (info_of e) current) instances
      else insert e.host_id (set_replace same_info (info_of e) current) instances
  | none ↦ if eqb e.max_instances 0 then instances else insert e.host_id (info_of e ∷ []) instances
]

-- Without the host whose last instance was stopped.
unfoldable pub drop_stopped : String → Map (List WadmComponentInfo) → Map (List WadmComponentInfo)
drop_stopped host_id instances = elim (lookup host_id instances) [
  | none ↦ instances
  | some infos ↦ if is_empty infos then remove host_id instances else instances
]

-- The component as it is stored: the details of the event, with the updated instances.
unfoldable pub scale_component_data : ComponentScaled → Option Component → Component
scale_component_data e none = component_of e
scale_component_data e (some current) = record (component_of e) {
  instances = drop_stopped e.host_id (scale_instances e current.instances);
}

module _ {x : External} where
  unfoldable pub scale_host : ComponentScaled → Host x → Host x
  scale_host e host = record host {
    components =
        if eqb e.max_instances 0
        then remove e.component_id host.components
        else insert e.component_id e.max_instances host.components;
  }

  module _ {σ : Type 0} (db : Store x σ) where
    unfoldable pub update_host : (Host x → Host x) → Option (Host x) → Action σ (Unit {0})
    update_host f none = pure tt
    update_host f (some host) = let next = f host in store db.hosts next.id next

    unfoldable pub store_component : ComponentScaled → Component → Action σ (Unit {0})
    store_component e c =
        if is_empty c.instances
        then delete db.components e.component_id
        else store db.components e.component_id c

    unfoldable pub handle_component_scaled : ComponentScaled → Action σ (Unit {0})
    handle_component_scaled e = do
      current ← gets (db.components.get e.component_id)
      host ← gets (db.hosts.get e.host_id)
      update_host (scale_host e) host
      store_component e (scale_component_data e current)
