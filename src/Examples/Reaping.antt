-- ===== src/Examples/Reaping.antt =====
-- A tick of the reaper on a component that is stored as running on a host that is gone.
use wadm.Prelude.{
  ℕ, zero, suc, String, ◌≡◌, refl, ◌==◌, Bool, true, false, Option, none, some, List, [], ◌∷◌, Map,
  ok,
}
use wadm.Prelude.Actions.{◌>>=◌}
use wadm.Storage.{Host}
use wadm.Storage.Sets.{map_from_iter}
use wadm.Storage.Kv.{
  update_with_retries, internal_list, attempt, write_once, store_items, remove_ids, remove_items,
  entry_data, operation_data, store_many, delete_many, list_items,
}
use wadm.Storage.Reaper.{
  reap, reap_hosts, reap_components, reap_providers, reap_component, reap_provider,
}
use wadm.Storage.Reaper.Reaped.{IsReaped, reap-IsReaped}
use wadm.Examples.{texts, host_in, hello_on, instances_of}
use wadm.Examples.Memory.{Bytes, Memory, next_entry, db, view, db-IsStore}

abbrev one_host : Map (Host texts)
one_host = ("h1", host_in "h1" "us-east" (("hello", 2) ∷ [])) ∷ []

abbrev before : Memory
before =
    ("host_default", next_entry 0 (Bytes.hosts one_host))
    ∷ (
      "component_default",
      next_entry 0 (
          Bytes.components (
            ("hello", hello_on (("h1", instances_of "east" 2) ∷ ("h9", instances_of "east" 1) ∷ []))
            ∷ [])),
    )
    ∷ []

abbrev after_hosts : Memory
after_hosts = (reap_hosts db 30000 10 before).1

abbrev after_components : Memory
after_components = (reap_components db one_host after_hosts).1

abbrev after_providers : Memory
after_providers = (reap_providers db one_host after_components).1

steps :
    (reap_hosts db 30000 10 before ≡ (ok tt, after_hosts))
    × (db.hosts.list after_hosts ≡ ok one_host)
    × (reap_components db one_host after_hosts ≡ (ok tt, after_components))
    × (reap_providers db one_host after_components ≡ (ok tt, after_providers))
unfolding reap_hosts reap_components reap_providers reap_component reap_provider update_with_retries
    internal_list attempt write_once store_items remove_ids remove_items entry_data operation_data
    store_many delete_many list_items map_from_iter ◌>>=◌ wadm.Prelude.lookup wadm.Prelude.insert
    wadm.Prelude.remove
steps = (refl, refl, refl, refl)

reap-IsReaped_example :
    (reap db 30000 10 before ≡ after_providers)
    × IsReaped db view db-IsStore 30000 10 one_host (view after_providers)
reap-IsReaped_example =
    reap-IsReaped db view db-IsStore 30000 10 before after_hosts after_components after_providers
      one_host steps.0 steps.1 steps.2 steps.3
